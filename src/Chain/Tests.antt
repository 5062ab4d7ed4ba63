-- ===== src/Chain/Tests.antt =====
-- A chain of one block in memory, and the block that comes after it.
use Prim.Native.Nat.{max}
use abc.Bytes.{to_be_bytes, zero_hash}
use abc.Chain.{
  pop_back, change_timestamps, rollback_batch, prune_outputs, prune_txs, prune, index_txs,
  commit_changes, roll_back, prepare, commit, advance_tip, attempt, apply_block_action, Chain, Disk,
}
use abc.Chain.Add.{
  headers_from, get_headers, process_pass, process_rounds, process_orphans_with, remove_txs,
  add_orphan, take_side, finish, add_child, add_under, add_locked, add_block_with, add_block,
  oldest, bound_orphans, retain_orphans, drain, insert_all,
}
use abc.Chain.Add.Headers.{IsRun, get_headers-IsRun}
use abc.Chain.Add.Joined.{IsJoined, add_block-IsJoined, add_block-child, add_block-kept}
use abc.Chain.Add.Nested.{add_block_with-fuel}
use abc.Chain.Checks.{validate_state}
use abc.Chain.Checks.Mismatch.{validate_state_fails}
use abc.Chain.Stored.{IsStored, apply_block_action-IsStored}
use abc.Chain.Flags.{apply_block_action_refuses_for_ever, no_more}
use abc.Chain.Journal.{
  start_reorg_journal, commit_reorg_batch, build_block_ops, disconnect_blocks, reorganize,
  journal_key,
}
use abc.Chain.Load.{load_recovered}
use abc.Chain.Load.Refused.{load_recovered_refuses}
use abc.Methods.{failed, done}
use abc.Errors.{anyhow, supply_mismatch, Result, ok}
use abc.External.{default, put_cf}
use abc.Maps.{find_key, erase_key, insert_key, find_at, erase_at, insert_at}
use abc.Mempool.{remove_with, remove, take_out, drop_indexes, average_without, Mempool}
use abc.Prelude.{inl, arith, ◌++◌, length, ◌≤◌, ◌+◌, ◌≢◌, ℕ, ◌≡◌, refl, true, false, [], ◌∷◌}
use abc.Sample.{map_rocks-IsRocks, checksum, apply_op, sample, MapDb}
use abc.SampleChain.{validation, db, block, genesis, no_checkpoints}
use abc.Store.{height_key, save_block}
use abc.Types.{Hash, Block}
use abc.Utxo.{
  connect, disconnect, apply_utxo_changes, txs_action, handle_utxo_action, coinbase_action,
  xor_hash,
}

abbrev empty_pool : Mempool
empty_pool = record {
  txs = [];
  total_bytes = 0;
  by_parent = [];
  fee_index = [];
  expiration_index = [];
  avg_fee = 0;
  key_images = [];
  fee_cache = [];
  heap = [];
  ttl_heap = [];
  max_size = 1_000_000;
  avg_lock = false;
}

abbrev start : Chain sample
start = record {
  db = db;
  state = record {
    blocks = (0, genesis) ∷ [];
    height_to_hash = (0, []) ∷ [];
    hash_to_height = ([], 0) ∷ [];
    cumulative_work = (0, 100) ∷ [];
    timestamps = 1000 ∷ [];
    utxo_set_hash = zero_hash;
    total_supply = 0;
  };
  best_tip = [];
  best_height = 0;
  orphan_blocks = [];
  genesis_hash = [];
  batch_pending = false;
  read_only_mode = false;
  state_lock = false;
  mempool_lock = false;
  mempool = empty_pool;
}

abbrev good : Disk
good = record { accepts = true; rollbacks = λ i. true }

abbrev refusing : Disk
refusing = record { accepts = false; rollbacks = λ i. false }

abbrev supply_of : MapDb → Result ℕ
supply_of d = ok 0

program : Unit {0}
unfolding validation process_pass process_rounds process_orphans_with remove_txs add_orphan
    take_side finish add_child add_under add_locked add_block_with add_block pop_back
    change_timestamps rollback_batch prune_outputs prune_txs prune index_txs commit_changes
    roll_back prepare commit advance_tip attempt apply_block_action start_reorg_journal
    commit_reorg_batch build_block_ops disconnect_blocks reorganize oldest bound_orphans
    retain_orphans drain insert_all save_block find_key erase_key insert_key find_at erase_at
    insert_at headers_from get_headers journal_key validate_state remove_with remove take_out
    drop_indexes average_without apply_utxo_changes txs_action handle_utxo_action coinbase_action
    xor_hash
program = tt

joined : (add_block sample supply_of good 5 1_060_000 no_checkpoints block start).0 ≡ done true
unfolding program
joined = refl

applied : (apply_block_action sample supply_of good block 1 connect true 7 [] start).0 ≡ done tt
unfolding program
applied = refl

write_refused :
    (apply_block_action sample supply_of refusing block 1 connect true 7 [] start).1.read_only_mode
    ≡ true
unfolding program
write_refused = refl

-- After a write that was refused, with every attempt to roll it back.
abbrev stopped : Chain sample
stopped = (apply_block_action sample supply_of refusing block 1 connect true 7 [] start).1

write_fails :
    apply_block_action sample supply_of refusing block 1 connect true 7 [] start
    ≡ (failed (anyhow "Write error"), stopped)
unfolding program
write_fails = refl

apply_block_action_refuses_for_ever_example :
    (stopped ≡ stopped)
    × (apply_block_action sample supply_of good block 2 disconnect false 7 [] stopped
        ≡ (failed (anyhow "Batch pending, cannot apply action"), stopped))
apply_block_action_refuses_for_ever_example =
    apply_block_action_refuses_for_ever sample supply_of refusing block 1 connect true 7 [] start
      stopped stopped ((λ h. cc), refl) write_fails no_more good block 2 disconnect false 7 []

abbrev applied_start : Chain sample
applied_start = (apply_block_action sample supply_of good block 1 connect true 7 [] start).1

applies :
    apply_block_action sample supply_of good block 1 connect true 7 [] start
    ≡ (done tt, applied_start)
unfolding program
applies = refl

apply_block_action-IsStored_example :
    IsStored sample supply_of start block 1 connect 7 applied_start
apply_block_action-IsStored_example =
    apply_block_action-IsStored sample map_rocks-IsRocks supply_of good block 1 connect true 7 []
      start applied_start applies

validate_state_fails_example :
    validate_state sample applied_start ≡ (failed supply_mismatch, applied_start)
unfolding program
validate_state_fails_example =
    validate_state_fails sample map_rocks-IsRocks supply_of good block 1 true 7 [] start
      applied_start (inl refl, tt) refl (omega arith) (omega arith) applies

abbrev after_block : Chain sample
after_block = (add_block sample supply_of good 5 1_060_000 no_checkpoints block start).1

joins :
    add_block sample supply_of good 5 1_060_000 no_checkpoints block start
    ≡ (done true, after_block)
unfolding program
joins = refl

add_block-IsJoined_example :
    IsJoined sample supply_of good 5 1_060_000 no_checkpoints block start after_block
add_block-IsJoined_example =
    add_block-IsJoined sample supply_of good 5 1_060_000 no_checkpoints block start after_block
      joins

abbrev block_hash : Hash
block_hash = checksum (block.header.prev_hash ++ to_be_bytes 8 7)

abbrev child : Block
child = record block { header = record (block.header) { prev_hash = block_hash; nonce = 8 } }

abbrev child_hash : Hash
child_hash = checksum (block_hash ++ to_be_bytes 8 8)

add_block-child_example :
    add_block sample supply_of good 5 1_060_000 no_checkpoints child after_block ≡ (
      done false,
      record after_block {
        orphan_blocks =
            bound_orphans (
              insert_key child_hash (record { block = child; time = 5 }) after_block.orphan_blocks);
      },
    )
unfolding program
add_block-child_example =
    add_block-child sample supply_of good 5 1_060_000 no_checkpoints block child block_hash
      child_hash start after_block joins refl refl refl refl

add_block_with-fuel_example :
    add_block_with sample supply_of good 5 1_060_000 no_checkpoints 9 block start
    ≡ add_block sample supply_of good 5 1_060_000 no_checkpoints block start
add_block_with-fuel_example =
    add_block_with-fuel sample supply_of good 5 1_060_000 no_checkpoints 7 block start

abbrev stray : Block
stray = record block { header = record (block.header) { prev_hash = 3 ∷ [] } }

abbrev after_stray : Chain sample
after_stray = (add_block sample supply_of good 5 1_060_000 no_checkpoints stray start).1

add_block-kept_example :
    after_stray ≡ record start { orphan_blocks = after_stray.orphan_blocks; state_lock = false }
unfolding program
add_block-kept_example =
    add_block-kept sample supply_of good 5 1_060_000 no_checkpoints stray start after_stray refl

abbrev stored_header : MapDb
stored_header = apply_op db (put_cf default (height_key 1) (1 ∷ []))

get_headers-IsRun_example :
    (length (genesis.header ∷ []) ≤ 2000)
    × (0 + length (genesis.header ∷ []) ≤ max 0 1)
    × IsRun sample stored_header 1 (genesis.header ∷ [])
unfolding program
get_headers-IsRun_example =
    get_headers-IsRun sample (record start { db = stored_header; best_height = 1 }) [] (9 ∷ []) 0
      refl refl

load_recovered_refuses_example :
    load_recovered sample (λ d c. []) empty_pool (ok applied_start.db) ≢ done applied_start
unfolding program
load_recovered_refuses_example =
    load_recovered_refuses sample (λ d c. []) empty_pool applied_start.db _ _ refl refl
      applied_start
