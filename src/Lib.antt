-- ===== src/Lib.antt =====
-- Verification of the Lyrion node, a proof-of-work chain with transparent and anonymous payments,
-- whose code is under 111/src.
--
-- Parts of the program and their files:
--   * 111/src/tx.rs, data, hashes and fees: Types, Tx. `Transaction::hash` is `tx_hash`,
--     `Transaction::fee` is `fee`; `Block::compute_merkle_root` is Tx/Merkle.
--   * 111/src/tx.rs, `validate_transaction` and `validate_anonymous_tx`: Validation. Each loop of
--     the source is one function, and the state is the database alone.
--   * 111/src/tx.rs, `validate_script_with_timeout` and `sighash`: Script. No other part calls it.
--   * 111/src/tx.rs, `create_genesis_block`: Genesis.
--   * 111/src/chain.rs, `validate_block`: BlockValidation, which calls Validation, Difficulty,
--     Tx/Merkle and Utils/Subsidy as the source does.
--   * 111/src/chain.rs, `calculate_next_bits` and `get_median_timestamp`: Difficulty, over the
--     headers that Store reads.
--   * 111/src/chain.rs, `save_block`, `load_block_from_db` and `load_header`: Store.
--   * 111/src/chain.rs, `handle_utxo_action` and `apply_utxo_changes`: Utxo. What the source
--     changes through references (the batch, the undo entries, the hash of the set, the supply) is
--     the record `Acc`; a transaction maps one `Acc` to the next.
--   * 111/src/chain.rs, the state of the chain: Chain (`apply_block_action`, `prune`), with
--     Methods (a method maps an object to an outcome and the object that it leaves),
--     Chain/Journal (`build_block_ops` and the journal of a reorganization), Chain/Add (`add_block`,
--     `process_orphans`, `get_headers`), Chain/Checks (the checks of the supply) and Chain/Load
--     (`new`, `load_from_db`, `recover_pending_reorgs`). `state_lock` is a flag of the record; a call
--     that waits for a lock that is never freed has the outcome `blocked`. The clocks, what the disk
--     answers and what an iterator gives are arguments.
--   * 111/src/mempool.rs: Mempool (`remove`), Mempool/Insert (the checks of `insert`), Mempool/Join
--     (its changes, eviction and orphans), Mempool/Select (`select_txs`) and Mempool/Expire
--     (`clean_expired`). The pool is a record of association lists; the calls of `remove` for
--     children run on fuel, and the lock of `avg_fee` is a flag.
--   * 111/src/miner.rs, one round of `miner_task`: Miner, from the template to the block; which nonce
--     the threads find is an argument.
--   * 111/src/net.rs: Net (peers, bans, reputation), Net/Handshake (`handshake`, `add_peer`),
--     Net/Arrivals (`new`, `connect_to_seeds`), Net/Frame and Net/Frame/Reader (how messages are
--     written and read), Net/Messages and Net/Messages/Handle (`handle_message`). A shared peer stands
--     in a store under a number; the locks of the peers, the chain and the pool are flags, and a
--     handler that waits for ever keeps those that it holds. Net/Outside has what net.rs calls.
--   * 111/src/db.rs, `rotate_backups`: Backups.
--   * 111/src/config.rs: Config (`AppConfig::load`).
--   * 111/src/main.rs: Wallet (the outputs and the balance of the wallet), Wallet/History,
--     Wallet/Payment (`create_tx`), and Rpc (the handlers of requests).
--   * 111/src/utils.rs: Utils/Compact (compact targets), Utils/Subsidy (rewards), Utils/Constants;
--     Utils/Checked has the arithmetic of `u64`; Utils/Secrets has secret files and `PowEngine::hash`.
--   * 111/src/errors.rs: Errors. `?` is the bind of `Result`, `bail!` is `err`, and a panic, which
--     ends the process, is `panicked`.
-- How they interact: `add_block` checks a block by `validate_block`, which reads the database that
-- `apply_utxo_changes` and `save_block` write, takes it into the chain by a batch of
-- `build_block_ops`, and removes its transactions from the mempool. A template takes the tip and the
-- height of the chain and what `select_txs` gives. A message of a peer gives blocks to `add_block` and
-- transactions to the pool's `insert`.
--
-- Numbers are natural numbers; a checked operation fails at 2 ^ 64, and a cast or a wrapping
-- operation has its modulus written out. Bytes are lists of numbers. A hash map that is only
-- inserted into and looked up is a list with the latest entry in front.
--
-- External has what the node calls and does not implement: RocksDB, bincode, digests, RandomX,
-- ring signatures, commitments, range proofs, secp256k1. They are arguments of the model. Theorems
-- that rely on a law of theirs name it: `IsRocks` (a read gives what was last written), `Digests32`
-- (digests have 32 bytes), `CommitmentsBind`, `SizesPositive`, `KeySizes`. Sample, and Script/Tests
-- for secp256k1, have concrete stand-ins on which the tests run and for which the laws hold.
--
-- Loops over lists are structural. The loop of the Merkle root has the number of its hashes as
-- fuel, which is enough since a round halves them (Tx/Merkle/Rounds); the count of binary digits
-- has the number itself (Utils/Compact/Size). `Mempool::remove` has the number of transactions in
-- the pool, of which each call takes one out (Mempool/Fuel). `add_block` calls itself through
-- `process_orphans` with two levels of fuel, where the lock stops it (Chain/Add/Nested). The search of
-- the first nonce has the 2 ^ 64 nonces as fuel, after which the source gives up, and `scan_chain` the
-- 2 ^ 31 indices that a key can have. `settle_fee` has the 20 turns of the source, and `trim_bearer` the
-- length of the header, of which each turn takes seven bytes.
--
-- Not modelled: the threads and channels of the miner, the tasks and the limits on rates of net.rs,
-- the commands and the window of 111/src/main.rs, and the pool and the archives of 111/src/db.rs,
-- which are input and output. A database that refuses a read, or a write
-- other than the batch of a block, the caches of works, targets and transaction hashes, the LRU
-- cache of the mempool, and the metrics are not modelled either.
--
-- Where the source uses a name that it does not declare (`height` and `cf_key_images` in
-- `handle_utxo_action`), the value that its callers have stands for it, and `current_set_hash` and
-- `current_supply` at the end of `build_block_ops` are those of `apply_utxo_changes`, which it has
-- called; `load_supply_from_db` and a
-- `build_block_ops` without a chain, which no file declares, are arguments.
--
-- Where tests of the repository differ from the code, the model follows the code: of the targets in
-- `test_compact_target_vectors` (111/src/chain.rs), for which the test expects 0x1d00ffff, 2 ^ 256 has
-- the bits 0x21010000, and the target of 0x1d00ffff the bits 0x1c7fffff.
pub mod Backups
pub mod BlockValidation
pub mod Bytes
pub mod Config
pub mod Difficulty
pub mod Errors
pub mod External
pub mod Genesis
pub mod Maps
pub mod Mempool
pub mod Methods
pub mod Net
pub mod Chain
pub mod Miner
pub mod Prelude
pub mod Sample
pub mod SampleChain
pub mod Rpc
pub mod Script
pub mod Store
pub mod Tx
pub mod Types
pub mod Utils
pub mod Utxo
pub mod Validation
pub mod Wallet
