-- ===== src/Chain/Load.antt =====
-- 111/src/chain.rs `recover_pending_reorgs` and what it calls, `load_from_db`, `new` and
-- `init_genesis_async`: how a chain comes to be. The journals that an iterator gives, the values of a
-- column family and `build_block_ops` without a chain, which the source calls and does not declare,
-- are arguments.
pub mod Refused
use abc.Bytes.{Bytes, eq_bytes, from_be_bytes, zero_hash}
use abc.Chain.{Chain, ChainState, Disk, apply_block_action, pop_front, change_timestamps}
use abc.Chain.Checks.{hash_of_bytes, validate_state, validate_supply_smart}
use abc.Methods.{Method, Outcome, done, failed, crashed, blocked, call, ◌>>◌}
use abc.Errors.{Result, ok, err, panicked, ◌>>=◌, ok_or, anyhow, bincode, invalid_block}
use abc.External.{Cf, default, WriteOp, put_cf, delete_cf, External}
use abc.Maps.{insert_at, insert_key, find_at}
use abc.Mempool.{Mempool}
use abc.Prelude.{
  String, ℕ, zero, suc, ◌+◌, ◌-◌, ◌/◌, Bool, true, false, ◌&&◌, not, Option, none, some, List, [],
  ◌∷◌, ◌++◌, length, ltb, leb, ◌==◌, if◌then◌else◌,
}
use abc.Store.{height_key, block_key, key_tip, key_height, load_block_from_db, load_header}
use abc.Tx.{header_hash}
use abc.Types.{Hash, Block, ReorgJournal}
use abc.Utils.Checked.{wrapping_sub64}
use abc.Utils.Compact.{compact_to_target}
use abc.Utils.Constants.{prune_depth, two_pow_256}
use abc.Utxo.{Action, connect, disconnect}
use abc.Utxo.Write.{write}

-- `u32::from_be_bytes(bytes.try_into()?)`
unfoldable pub u32_of_bytes : String → Bytes → Result ℕ
u32_of_bytes problem bytes =
    if length bytes == 4 then ok (from_be_bytes bytes) else err (anyhow problem)

-- `DB_KEY_GENESIS_HASH`
abbrev pub key_genesis_hash : Bytes
key_genesis_hash =
    b'g' ∷ b'e' ∷ b'n' ∷ b'e' ∷ b's' ∷ b'i' ∷ b's' ∷ b'_' ∷ b'h' ∷ b'a' ∷ b's' ∷ b'h' ∷ []

abbrev pub empty_state : ChainState
empty_state = record {
  blocks = [];
  height_to_hash = [];
  hash_to_height = [];
  cumulative_work = [];
  timestamps = [];
  utxo_set_hash = zero_hash;
  total_supply = 0;
}

-- The state and the work up to a height.
pub record Loaded : Type 0 where
  pub state : ChainState
  pub cum_work : ℕ

module _ (x : External) where
  open x use {Db, get_cf, deserialize_block, deserialize_journal}

  unfoldable pub load_current_height : String → Db → Result ℕ
  load_current_height problem db = do
    height_bytes ← ok_or (get_cf db default key_height) (anyhow "Missing height")
    u32_of_bytes problem height_bytes

  unfoldable pub load_current_tip : Db → Result Hash
  load_current_tip db = do
    tip ← ok_or (get_cf db default key_tip) (anyhow "Missing tip")
    hash_of_bytes tip

  unfoldable pub load_block_by_height : Db → ℕ → Result Block
  load_block_by_height db height = do
    hash_bytes ← ok_or (get_cf db default (height_key height)) (anyhow "Missing hash")
    block_bytes ← ok_or (get_cf db default (block_key hash_bytes)) (anyhow "Missing block")
    ok_or (deserialize_block block_bytes) (anyhow "Deserialize block failed")

  module _ (build_block_ops : Db → Block → ℕ → Action → List WriteOp → Result (List WriteOp)) where
    -- `for _ in 0..journal.disconnect_depth`: the batch, and the height that is reached.
    unfoldable pub undo_blocks : Db → ℕ → ℕ → List WriteOp → Result (ℕ × List WriteOp)
    undo_blocks db zero h batch = ok (h, batch)
    undo_blocks db (suc n) h batch = do
      blk ← load_block_by_height db h
      batch' ← build_block_ops db blk h disconnect batch
      undo_blocks db n (wrapping_sub64 h 1) batch'

    -- A journal of the present tip is carried out, and any other one dropped.
    unfoldable pub recover_journal : Db → Bytes → ReorgJournal → Result Db
    recover_journal db k journal = do
      current_height ← load_current_height "TryFromSliceError" db
      current_tip ← load_current_tip db
      (if (current_height == journal.old_tip_height) && eq_bytes current_tip journal.old_tip_hash
          then (do
            (h, batch) ← undo_blocks db journal.disconnect_depth current_height []
            batch' ← build_block_ops db journal.new_block (h + 1) connect batch
            ok (write x (write x db batch') (delete_cf default k ∷ [])))
          else ok (write x db (delete_cf default k ∷ [])))

    -- The entries of the iterator, up to the first one with another prefix.
    unfoldable pub recover_pending_reorgs : Db → List (Bytes × Bytes) → Result Db
    recover_pending_reorgs db [] = ok db
    recover_pending_reorgs db ((k, v) ∷ entries) = do
      journal ← ok_or (deserialize_journal v) (bincode "deserialize")
      db' ← recover_journal db k journal
      recover_pending_reorgs db' entries

  -- The blocks that are not pruned stand in memory, with their times.
  unfoldable pub load_height_header : Db → ℕ → ℕ → Loaded → Result (ℕ × Loaded)
  load_height_header db prune_start h l =
      if leb prune_start h
      then (do
        full ← load_block_from_db x db h
        ok (
          full.header.bits,
          record l {
            state = record (l.state) {
              blocks = insert_at h full l.state.blocks;
              timestamps = change_timestamps connect full.header.timestamp l.state.timestamps;
            };
          },
        ))
      else (do header ← load_header x db h; ok (header.bits, l))

  -- `for h in 0..=best_height`, from `h` on with `n` left.
  unfoldable pub load_heights : Db → ℕ → ℕ → ℕ → Loaded → Result Loaded
  load_heights db prune_start zero h l = ok l
  load_heights db prune_start (suc n) h l = do
    hash_bytes ← ok_or (get_cf db default (height_key h)) (anyhow "Missing hash")
    hash ← hash_of_bytes hash_bytes
    (bits, l') ← load_height_header db prune_start h l
    target ← compact_to_target bits
    let work = l'.cum_work + two_pow_256 / (target + 1)
    load_heights db prune_start n (h + 1) (record {
      state = record (l'.state) {
        height_to_hash = insert_at h hash l'.state.height_to_hash;
        hash_to_height = insert_key hash h l'.state.hash_to_height;
        cumulative_work = insert_at h work l'.state.cumulative_work;
      };
      cum_work = work;
    })

  abbrev pub has_work : ℕ → Option ℕ → Bool
  has_work work none = false
  has_work work (some w) = w == work

  -- The chain before its supply is validated.
  unfoldable pub load_chain : Db → Mempool → Result (Chain x)
  load_chain db mempool = do
    best_tip ← load_current_tip db
    best_height ← load_current_height "Invalid height bytes" db
    genesis_hash_bytes ← ok_or (get_cf db default key_genesis_hash) (anyhow "Missing genesis_hash")
    genesis_hash ← hash_of_bytes genesis_hash_bytes
    l ←
        load_heights db (best_height - prune_depth) (best_height + 1) 0
          (record { state = empty_state; cum_work = 0 })
    (if has_work l.cum_work (find_at best_height l.state.cumulative_work)
        then ok (record {
          db = db;
          state = l.state;
          best_tip = best_tip;
          best_height = best_height;
          orphan_blocks = [];
          genesis_hash = genesis_hash;
          batch_pending = false;
          read_only_mode = false;
          state_lock = false;
          mempool_lock = false;
          mempool = mempool;
        })
        else err (invalid_block "Chain work mismatch"))

  -- `Ok(chain)`, when a method on it came back.
  abbrev pub returned : Outcome (Unit {0}) × Chain x → Outcome (Chain x)
  returned (done u, c) = done c
  returned (failed e, c) = failed e
  returned (crashed, c) = crashed
  returned (blocked, c) = blocked

  -- A method on the chain that a function made.
  abbrev pub made_by : Method (Chain x) (Unit {0}) → Result (Chain x) → Outcome (Chain x)
  made_by method (ok c) = returned (method c)
  made_by method (err e) = failed e
  made_by method panicked = crashed

  -- From what recovery left.
  unfoldable pub load_recovered : (Db → Cf → List Bytes) → Mempool → Result Db → Outcome (Chain x)
  load_recovered values mempool recovered =
      made_by (validate_state x >> validate_supply_smart x values)
        (do db ← recovered; load_chain db mempool)

  unfoldable pub load_from_db :
      (Db → Block → ℕ → Action → List WriteOp → Result (List WriteOp))
      → List (Bytes × Bytes)
      → (Db → Cf → List Bytes)
      → Mempool
      → Db
      → Outcome (Chain x)
  load_from_db build_block_ops entries values mempool db =
      load_recovered values mempool (recover_pending_reorgs build_block_ops db entries)

  module _ (load_supply_from_db : Db → Result ℕ) (disk : Disk) where
    unfoldable pub init_genesis_async : Block → Method (Chain x) (Unit {0})
    init_genesis_async genesis =
        abc.Methods.◌>>=◌ (call (compact_to_target genesis.header.bits)) λ target.
          apply_block_action x load_supply_from_db disk genesis 0 connect true
            (two_pow_256 / (target + 1)) []

    -- `Chain::new`
    unfoldable pub new : Db → Block → Mempool → Outcome (Chain x)
    new db genesis mempool = made_by (init_genesis_async genesis) (do
      genesis_hash ← header_hash x genesis.header
      ok (record {
        db = db;
        state = empty_state;
        best_tip = zero_hash;
        best_height = 0;
        orphan_blocks = [];
        genesis_hash = genesis_hash;
        batch_pending = false;
        read_only_mode = false;
        state_lock = false;
        mempool_lock = false;
        mempool = mempool;
      }))
