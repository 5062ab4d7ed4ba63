-- ===== src/Chain/Add.antt =====
-- 111/src/chain.rs `add_block`, `process_orphans` and `get_headers`. A block that joins the chain
-- calls `process_orphans`, which calls `add_block` for every orphan: the calls are nested on fuel.
-- The clocks and the answers of the disk are the same for a call and those in it.
pub mod Nested
pub mod Child
pub mod Headers
pub mod Joined
use abc.BlockValidation.{validate_block}
use abc.Bytes.{Bytes, eq_bytes}
use abc.Chain.{Chain, Disk, Orphan, apply_block_action, with_lock}
use abc.Chain.Checks.{validate_state}
use abc.Chain.Journal.{reorganize}
use abc.Methods.{Method, Outcome, crashed, ◌>>=◌, ◌>>◌, call, read, change, fail_if, wait_if, pure}
use abc.Errors.{Result, reorg_too_deep, ok}
use abc.External.{External}
use abc.Maps.{find_key, erase_key, insert_key, find_at, is_some}
use abc.Mempool.{Mempool, remove}
use abc.Prelude.{
  ℕ, zero, suc, ◌+◌, ◌-◌, ◌*◌, ◌/◌, ◌%◌, Bool, true, false, not, Option, none, some, List, [], ◌∷◌,
  ◌++◌, length, ltb, leb, ◌==◌, if◌then◌else◌, min,
}
use abc.Store.{save_block, load_header}
use abc.Tx.{header_hash, tx_hash}
use abc.Types.{BlockHeader, Hash, Transaction, Block}
use abc.Utils.Checked.{u64_mod, wrapping_sub64}
use abc.Utils.Compact.{compact_to_target}
use abc.Utils.Constants.{reorg_max_depth, two_pow_256, orphan_ttl}
use abc.Utxo.{connect}
use abc.Utxo.Write.{write}

-- `iter().min_by_key(...)`: the first of the entries with the least time.
unfoldable pub oldest : Hash → ℕ → List (Hash × Orphan) → Hash
oldest hash time [] = hash
oldest hash time ((h, o) ∷ os) = if ltb o.time time then oldest h o.time os else oldest hash time os

-- More than 500 orphans lose the oldest.
unfoldable pub bound_orphans : List (Hash × Orphan) → List (Hash × Orphan)
bound_orphans [] = []
bound_orphans ((h, o) ∷ os) =
    if ltb 500 (length ((h, o) ∷ os))
    then erase_key (oldest h o.time os) ((h, o) ∷ os)
    else (h, o) ∷ os

-- `retain(|_, (_, time)| now.duration_since(*time) < ORPHAN_TTL)`
unfoldable pub retain_orphans : ℕ → List (Hash × Orphan) → List (Hash × Orphan)
retain_orphans now [] = []
retain_orphans now ((h, o) ∷ os) =
    let rest = retain_orphans now os in
    if ltb (now - o.time) orphan_ttl then (h, o) ∷ rest else rest

-- `drain().map(|(h, (b, _))| (h, b)).collect()`
unfoldable pub drain : List (Hash × Orphan) → List (Hash × Block)
drain [] = []
drain ((h, o) ∷ os) = (h, o.block) ∷ drain os

unfoldable pub insert_all : ℕ → List (Hash × Block) → List (Hash × Orphan) → List (Hash × Orphan)
insert_all now [] os = os
insert_all now ((h, b) ∷ bs) os =
    insert_all now bs (insert_key h (record { block = b; time = now }) os)

-- `.unwrap_or_default()`
abbrev pub or_zero : Option ℕ → ℕ
or_zero none = 0
or_zero (some w) = w

module _ (x : External) where
  open x use {Db}

  -- One pass of `for (hash, block) in to_process`: was one added, and those that were not.
  unfoldable pub process_pass :
      (Block → Method (Chain x) Bool)
      → List (Hash × Block)
      → Method (Chain x) (Bool × List (Hash × Block))
  process_pass add [] = pure (false, [])
  process_pass add ((hash, block) ∷ rest) = do
    joined ← add block
    (added, next) ← process_pass add rest
    pure (if joined then (true, next) else (added, (hash, block) ∷ next))

  -- `while !to_process.is_empty() && depth < 500`, with `n` turns left.
  unfoldable pub process_rounds :
      (Block → Method (Chain x) Bool)
      → ℕ
      → List (Hash × Block)
      → Method (Chain x) (List (Hash × Block))
  process_rounds add zero to_process = pure to_process
  process_rounds add (suc n) [] = pure []
  process_rounds add (suc n) (o ∷ os) = do
    (added, next) ← process_pass add (o ∷ os)
    (if added then process_rounds add n next else pure (o ∷ os))

  unfoldable pub process_orphans_with :
      (Block → Method (Chain x) Bool) → ℕ → Method (Chain x) (Unit {0})
  process_orphans_with add now = do
    change (λ d. record d { orphan_blocks = bound_orphans (retain_orphans now d.orphan_blocks) })
    c ← read
    change (λ d. record d { orphan_blocks = [] })
    left ← process_rounds add 500 (drain c.orphan_blocks)
    change (λ d. record d { orphan_blocks = insert_all now left d.orphan_blocks })

  -- `for tx in &block.txs { m.remove(&tx.hash()); }`
  unfoldable pub remove_txs : List Transaction → Mempool → Result Mempool
  remove_txs [] pool = abc.Errors.ok pool
  remove_txs (tx ∷ txs) pool = abc.Errors.◌>>=◌ (remove x (tx_hash x tx) pool) (remove_txs txs)

  module _ (load_supply_from_db : Db → Result ℕ) (disk : Disk) (now : ℕ) (now_ms : ℕ)
      (checkpoint_hashes : ℕ → Option Hash) where
    -- A block whose parent is not known.
    unfoldable pub add_orphan : Hash → Block → Method (Chain x) Bool
    add_orphan hash block = do
      change (λ d. record d {
        orphan_blocks =
            bound_orphans (insert_key hash (record { block = block; time = now }) d.orphan_blocks);
      })
      pure false

    -- The best chain gives way to a chain with more work, or the block is applied beside it.
    unfoldable pub take_side : Block → ℕ → ℕ → Method (Chain x) Bool
    take_side block prev_height height = do
      target ← call (compact_to_target block.header.bits)
      c ← read
      let block_work = two_pow_256 / (target + 1)
      let new_work = or_zero (find_at prev_height c.state.cumulative_work) + block_work
      let current_work = or_zero (find_at c.best_height c.state.cumulative_work)
      (if ltb current_work new_work
          then (do
            fail_if (ltb reorg_max_depth (c.best_height - prev_height)) reorg_too_deep
            fail_if (leb new_work (current_work * 99 / 100)) reorg_too_deep
            reorganize x disk (x.to_string now_ms) block prev_height height
            pure true)
          else (do
            apply_block_action x load_supply_from_db disk block height connect false block_work []
            pure false))

    -- What follows: the block is stored, its transactions leave the pool, and orphans join.
    unfoldable pub finish :
        (Block → Method (Chain x) Bool) → Block → ℕ → Method (Chain x) (Unit {0})
    finish add block height = do
      c ← read
      ops ← call (save_block x height block)
      change (λ d. record d { db = write x d.db ops })
      wait_if c.mempool_lock
      pool ← call (remove_txs block.txs c.mempool)
      change (λ d. record d { mempool = pool })
      process_orphans_with add now
      (if height % 1000 == 0 then validate_state x else pure tt)

    -- A block whose parent is at `prev_height`.
    unfoldable pub add_child : (Block → Method (Chain x) Bool) → Block → ℕ → Method (Chain x) Bool
    add_child add block prev_height = do
      let height = (prev_height + 1) % u64_mod
      c ← read
      call (validate_block x c.db c.best_height now_ms checkpoint_hashes block height)
      reorg ← take_side block prev_height height
      finish add block height
      pure reorg

    -- `match hash_to_height.get(&prev_hash)`
    unfoldable pub add_under :
        (Block → Method (Chain x) Bool) → Hash → Block → Option ℕ → Method (Chain x) Bool
    add_under add hash block none = add_orphan hash block
    add_under add hash block (some prev_height) = add_child add block prev_height

    -- With the lock held.
    unfoldable pub add_locked : (Block → Method (Chain x) Bool) → Block → Method (Chain x) Bool
    add_locked add block = do
      hash ← call (header_hash x block.header)
      c ← read
      (if is_some (find_key hash c.state.hash_to_height)
          then pure false
          else add_under add hash block (find_key block.header.prev_hash c.state.hash_to_height))

    unfoldable pub add_block_with : ℕ → Block → Method (Chain x) Bool
    add_block_with zero block = λ c. (crashed, c)
    add_block_with (suc f) block = with_lock x (add_locked (add_block_with f) block)

    -- The lock stops the second call of the nest.
    unfoldable pub add_block : Block → Method (Chain x) Bool
    add_block = add_block_with 2

    unfoldable pub process_orphans : Method (Chain x) (Unit {0})
    process_orphans = process_orphans_with add_block now

  -- `for height in start_height..=best_height`, `n` headers of it at most.
  unfoldable pub headers_from : Db → Hash → ℕ → ℕ → Result (List BlockHeader)
  headers_from db stop zero height = ok []
  headers_from db stop (suc n) height = abc.Errors.◌>>=◌ (load_header x db height) λ header.
      abc.Errors.◌>>=◌ (header_hash x header) λ hash.
        if eq_bytes hash stop
        then ok (header ∷ [])
        else abc.Errors.◌>>=◌ (headers_from db stop n (height + 1)) λ rest. ok (header ∷ rest)

  unfoldable pub get_headers : Chain x → Hash → Hash → Result (List BlockHeader)
  get_headers c locator stop = elim (find_key locator c.state.hash_to_height) [
    | none ↦ ok []
    | some h ↦ headers_from c.db stop (min 2000 (c.best_height + 1 - (h + 1))) (h + 1)
  ]
