-- ===== src/Chain.antt =====
-- 111/src/chain.rs `Chain`, `apply_block_action` and `prune`: a block is connected to the state in
-- memory and in the database, or disconnected from it. The lock `state_lock` is not reentrant: to
-- take it while it is held waits for ever. `load_supply_from_db`, which the source calls and does
-- not declare, is an argument, and so is what the disk answers to a write. Caches are left out.
pub mod Effects
pub mod Batch
pub mod Stored
pub mod Flags
pub mod Journal
pub mod Checks
pub mod Load
pub mod Add
mod Tests
use abc.Bytes.{Bytes, to_le_bytes}
use abc.Errors.{Result, anyhow}
use abc.External.{Cf, default, tx_index, addr_index, WriteOp, put_cf, delete_cf, External}
use abc.Maps.{find_at, erase_at, insert_at, insert_key}
use abc.Mempool.{Mempool}
use abc.Prelude.{
  ℕ, zero, suc, ◌+◌, ◌-◌, ◌%◌, Bool, true, false, ◌&&◌, Option, none, some, List, [], ◌∷◌, ◌++◌,
  length, ltb, if◌then◌else◌,
}
use abc.Store.{block_key, hdr_key}
use abc.Tx.{header_hash, tx_hash}
use abc.Types.{Hash, TxOutput, Transaction, BlockHeader, Block}
use abc.Utils.Checked.{u64_mod, u32_mod, wrapping_sub64}
use abc.Utils.Constants.{prune_depth}
use abc.Utils.Subsidy.{subsidy}
use abc.Utxo.{Action, connect, disconnect, is_connect, Acc, addr_key, apply_utxo_changes}
use abc.Utxo.Write.{write}
use mathlib.Core.List.{reverse}
use abc.Methods.{
  Method, Outcome, done, blocked, failed, ◌>>=◌, ◌>>◌, call, read, change, fail_if, pure,
}

-- `ChainState`
pub record ChainState : Type 0 where
  pub blocks : List (ℕ × Block)
  pub height_to_hash : List (ℕ × Hash)
  pub hash_to_height : List (Hash × ℕ)
  pub cumulative_work : List (ℕ × ℕ)
  pub timestamps : List ℕ
  pub utxo_set_hash : Hash
  pub total_supply : ℕ

-- A block that waits for its parent, and since when.
pub record Orphan : Type 0 where
  pub block : Block
  pub time : ℕ

-- What the disk answers: to the write of a batch, and to each attempt to roll it back.
pub record Disk : Type 0 where
  pub accepts : Bool
  pub rollbacks : ℕ → Bool

-- `DB_KEY_STATE_TOTAL_SUPPLY`
abbrev pub key_state_total_supply : Bytes
key_state_total_supply =
    b's' ∷ b't' ∷ b'a' ∷ b't' ∷ b'e' ∷ b':' ∷ b't' ∷ b'o' ∷ b't' ∷ b'a' ∷ b'l' ∷ b'_' ∷ b's' ∷ b'u'
    ∷ b'p' ∷ b'p' ∷ b'l' ∷ b'y' ∷ []

-- `pop_front` and `pop_back`.
abbrev pub pop_front {ℓ} : {A : Type ℓ} → List A → List A
pop_front [] = []
pop_front (t ∷ ts) = ts

unfoldable pub pop_back {ℓ} : {A : Type ℓ} → List A → List A
pop_back [] = []
pop_back (t ∷ []) = []
pop_back (t ∷ u ∷ ts) = t ∷ pop_back (u ∷ ts)

-- The times of the last eleven blocks.
unfoldable pub change_timestamps : Action → ℕ → List ℕ → List ℕ
change_timestamps connect t ts =
    let pushed = ts ++ (t ∷ []) in if ltb 11 (length pushed) then pop_front pushed else pushed
change_timestamps disconnect t ts = pop_back ts

-- The entry that undoes another one.
abbrev pub undo_op : Cf × Bytes × Option Bytes → WriteOp
undo_op (cf, key, none) = delete_cf cf key
undo_op (cf, key, some v) = put_cf cf key v

-- `for (cf, key, value) in rollback_ops.into_iter().rev()`
unfoldable pub rollback_batch : List (Cf × Bytes × Option Bytes) → List WriteOp
rollback_batch [] = []
rollback_batch (op ∷ ops) = rollback_batch ops ++ (undo_op op ∷ [])

module _ (x : External) where
  open x use {Db, serialize_header, serialize_index}

  pub record Chain : Type 0 where
    pub db : Db
    pub state : ChainState
    pub best_tip : Hash
    pub best_height : ℕ
    pub orphan_blocks : List (Hash × Orphan)
    pub genesis_hash : Hash
    pub batch_pending : Bool
    pub read_only_mode : Bool
    -- `state_lock` is held.
    pub state_lock : Bool
    pub mempool : Mempool
    -- The caller holds the lock of `mempool`.
    pub mempool_lock : Bool

  -- The guard is dropped when the method comes back.
  abbrev pub unlock : {A : Type 0} → Outcome A × Chain → Outcome A × Chain
  unlock (blocked, c) = (blocked, c)
  unlock (o, c) = (o, record c { state_lock = false })

  -- `let _lock = self.state_lock.lock().await`
  abbrev pub with_lock : {A : Type 0} → Method Chain A → Method Chain A
  with_lock method c =
      if c.state_lock then (blocked, c) else unlock (method (record c { state_lock = true }))

  -- The entries of the outputs of a transaction, from the number `vout` on.
  unfoldable pub prune_outputs : Hash → ℕ → List TxOutput → List WriteOp
  prune_outputs txid vout [] = []
  prune_outputs txid vout (out ∷ outs) =
      delete_cf addr_index (addr_key x out.script_pubkey txid (vout % u32_mod))
      ∷ prune_outputs txid (vout + 1) outs

  unfoldable pub prune_txs : List Transaction → List WriteOp
  prune_txs [] = []
  prune_txs (tx ∷ txs) =
      (if tx.is_anonymous then [] else prune_outputs (tx_hash x tx) 0 tx.outputs) ++ prune_txs txs

  -- `Chain::prune`. Its batch was written before it is called and is written no more.
  unfoldable pub prune : ℕ → List WriteOp → Method Chain (List WriteOp)
  prune height batch = with_lock (do
    c ← read
    elim (find_at height c.state.blocks) [
      | none ↦ pure batch
      | some block ↦ do
        change
            (λ d. record d { state = record (d.state) { blocks = erase_at height d.state.blocks } })
        hash ← call (header_hash x block.header)
        pure (batch ++ (delete_cf default (block_key hash) ∷ prune_txs block.txs))
    ])

  -- The index of the transactions, from the number `idx` on.
  unfoldable pub index_txs : Action → ℕ → ℕ → List Transaction → List WriteOp
  index_txs connect height idx [] = []
  index_txs connect height idx (tx ∷ txs) =
      put_cf tx_index (tx_hash x tx) (serialize_index height idx)
      ∷ index_txs connect height (idx + 1) txs
  index_txs disconnect height idx [] = []
  index_txs disconnect height idx (tx ∷ txs) =
      delete_cf tx_index (tx_hash x tx) ∷ index_txs disconnect height (idx + 1) txs

  -- The header and the index of the transactions.
  abbrev pub header_ops : Action → ℕ → Block → List WriteOp
  header_ops connect height block =
      put_cf default (hdr_key height) (serialize_header block.header)
      ∷ index_txs connect height 0 block.txs
  header_ops disconnect height block = index_txs disconnect height 0 block.txs

  -- `current_supply + subsidy(height)`, or the difference.
  abbrev pub new_supply_of : Action → ℕ → ℕ → ℕ
  new_supply_of connect height current = (current + subsidy height) % u64_mod
  new_supply_of disconnect height current = wrapping_sub64 current (subsidy height)

  -- The changes of the state in memory, after the write.
  unfoldable pub commit_changes : Action → ℕ → Block → Hash → ℕ → Hash → ℕ → ChainState → ChainState
  commit_changes action height block hash work set_hash supply s = record {
    blocks = insert_at height block s.blocks;
    height_to_hash = insert_at height hash s.height_to_hash;
    hash_to_height = insert_key hash height s.hash_to_height;
    cumulative_work = insert_at height work s.cumulative_work;
    timestamps = change_timestamps action block.header.timestamp s.timestamps;
    utxo_set_hash = set_hash;
    total_supply = supply;
  }

  -- `changes.new_cumulative_work`
  abbrev pub work_at : ChainState → ℕ → ℕ → ℕ
  work_at s height work = elim (find_at (wrapping_sub64 height 1) s.cumulative_work) [
    | none ↦ work
    | some prev_work ↦ prev_work + work
  ]

  -- The three attempts, from the number `i` on with `n` left.
  unfoldable pub roll_back : Disk → List WriteOp → ℕ → ℕ → Method Chain (Unit {0})
  roll_back disk batch zero i = change (λ d. record d { read_only_mode = true })
  roll_back disk batch (suc n) i = elim (disk.rollbacks i) [
    | true ↦ change (λ d. record d { db = write x d.db batch })
    | false ↦ roll_back disk batch n (i + 1)
  ]

  module _ (load_supply_from_db : Db → Result ℕ) (disk : Disk) where
    -- Up to the write: the batch, what undoes it, and the state that it leads to.
    unfoldable pub prepare :
        Block → ℕ → Action → ℕ → List WriteOp → Method Chain (Hash × Acc × ChainState)
    prepare block height action work batch = do
      c ← read
      hash ← call (header_hash x block.header)
      a ← call (
          apply_utxo_changes x c.db action height block (record {
            batch = batch;
            rollback_ops = [];
            set_hash = c.state.utxo_set_hash;
            supply = c.state.total_supply;
          }))
      current_supply ← call (load_supply_from_db c.db)
      let new_supply = new_supply_of action height current_supply
      let all =
          a.batch
          ++ (header_ops action height block
              ++ (put_cf default key_state_total_supply (to_le_bytes 8 new_supply) ∷ []))
      let state' =
          commit_changes action height block hash (work_at c.state height work) a.set_hash
            new_supply c.state
      pure (hash, record a { batch = all }, state')

    -- The write, and the rollback if the disk refuses it.
    unfoldable pub commit : Acc → Method Chain (Unit {0})
    commit a = elim disk.accepts [
      | true ↦ change (λ d. record d { db = write x d.db a.batch })
      | false ↦ do
        roll_back disk (rollback_batch a.rollback_ops) 3 0
        fail_if true (anyhow "Write error")
    ]

    -- The new tip, of a block that is connected to the best chain.
    unfoldable pub advance_tip : ℕ → Hash → List WriteOp → Method Chain (Unit {0})
    advance_tip height hash batch = do
      change (λ d. record d { best_tip = hash; best_height = height })
      (if ltb prune_depth height
          then prune (height - prune_depth) batch >>= (λ ops. pure tt)
          else pure tt)

    -- While `batch_pending` is set.
    unfoldable pub attempt : Block → ℕ → Action → Bool → ℕ → List WriteOp → Method Chain (Unit {0})
    attempt block height action is_best work batch = do
      (hash, a, state') ← prepare block height action work batch
      commit a
      change (λ d. record d { state = state' })
      (if is_connect action && is_best then advance_tip height hash a.batch else pure tt)

    unfoldable pub apply_block_action :
        Block → ℕ → Action → Bool → ℕ → List WriteOp → Method Chain (Unit {0})
    apply_block_action block height action is_best work batch = with_lock (do
      c ← read
      fail_if c.batch_pending (anyhow "Batch pending, cannot apply action")
      fail_if (c.read_only_mode && is_connect action)
          (anyhow "Chain in read-only mode due to previous failure")
      change (λ d. record d { batch_pending = true })
      attempt block height action is_best work batch
      change (λ d. record d { batch_pending = false }))
