-- ===== src/Chain/Stored.antt =====
-- 111/src/chain.rs `apply_block_action`: what is found in memory and in the database after a call
-- that comes back.
use abc.Bytes.{eq_bytes, to_le_bytes}
use abc.Chain.{
  Chain, Disk, key_state_total_supply, header_ops, pop_back, change_timestamps, commit_changes,
  apply_block_action, new_supply_of, ChainState, work_at,
}
use abc.Chain.Batch.{
  AllIndexed, AllIndexed-same, both-header, both-supply, both-index, connected-header,
  index_txs-AllIndexed, index_txs-NoneIndexed,
}
use abc.Chain.Effects.{IsApplied, apply_block_action-IsApplied}
use abc.Errors.{Result, ok}
use abc.External.{default, tx_index, WriteOp, put_cf, IsRocks, External}
use abc.Maps.{find_at, find_key}
use abc.Maps.Laws.{find_at-insert_at, find_key-insert_key}
use abc.Methods.{done}
use abc.Prelude.{
  ap, refl, sym, length-append, ◌∙◌, ℕ, ◌+◌, ◌-◌, ◌%◌, ◌^◌, ◌≡◌, Bool, true, false, Option, none,
  some, List, [], ◌∷◌, ◌++◌, length, take, drop, leb, ◌==◌, arith, if◌then◌else◌, Option-cases, inl,
  inr,
}
use abc.Store.{hdr_key}
use abc.Tx.{header_hash}
use abc.Types.{Hash, Block}
use abc.Utils.Subsidy.{subsidy}
use abc.Utxo.{Action, connect, disconnect}
use abc.Utxo.Write.{write}

take-less_one : (t : ℕ) (ts : List ℕ) → pop_back (t ∷ ts) ≡ take (length ts) (t ∷ ts)
unfolding pop_back
take-less_one t [] = refl
take-less_one t (u ∷ ts) = ap (λ l. t ∷ l) (take-less_one u ts)

pop_back_lem : (ts : List ℕ) → pop_back ts ≡ take (length ts - 1) ts
unfolding pop_back
pop_back_lem [] = refl
pop_back_lem (t ∷ ts) =
    let size : length (t ∷ ts) - 1 ≡ length ts = omega arith in rw size (take-less_one t ts)

pushed_lem :
    (t : ℕ) (ts : List ℕ)
    → change_timestamps connect t ts ≡ (if leb 11 (length ts) then drop 1 ts else ts) ++ (t ∷ [])
unfolding change_timestamps
pushed_lem t [] = refl
pushed_lem t (u ∷ us) =
    let size : length (us ++ (t ∷ [])) ≡ length us + 1 = length-append us (t ∷ []) in
    ground (arith, size)

abbrev pub or_zero : Option ℕ → ℕ
or_zero none = 0
or_zero (some n) = n

module _ (x : External) where
  open x use {Db, get_cf, serialize_header}

  -- What the two actions do otherwise.
  abbrev pub IsMoved : Action → Block → ℕ → ℕ → Chain x → Chain x → Type 0
  IsMoved connect block height current c d =
      (d.state.total_supply ≡ (current + subsidy height) % 2 ^ 64)
      × (d.state.timestamps
          ≡ (if leb 11 (length c.state.timestamps)
              then drop 1 c.state.timestamps
              else c.state.timestamps)
            ++ (block.header.timestamp ∷ []))
      × (get_cf d.db default (hdr_key height) ≡ some (serialize_header block.header))
      × AllIndexed x true d.db block.txs
  IsMoved disconnect block height current c d =
      (d.state.total_supply ≡ (current + 2 ^ 64 - subsidy height) % 2 ^ 64)
      × (d.state.timestamps ≡ take (length c.state.timestamps - 1) c.state.timestamps)
      × AllIndexed x false d.db block.txs

  pub record IsStored (load_supply_from_db : Db → Result ℕ) (c : Chain x) (block : Block)
      (height : ℕ) (action : Action) (work : ℕ) (d : Chain x) : Type 0 where
    pub hash : Hash
    pub current : ℕ
    pub hashes : header_hash x block.header ≡ ok hash
    pub loads : load_supply_from_db c.db ≡ ok current
    pub blocks :
        (h : ℕ)
        → find_at h d.state.blocks ≡ (if h == height then some block else find_at h c.state.blocks)
    pub height_to_hash :
        (h : ℕ)
        → find_at h d.state.height_to_hash
          ≡ (if h == height then some hash else find_at h c.state.height_to_hash)
    pub hash_to_height :
        (k : Hash)
        → find_key k d.state.hash_to_height
          ≡ (if eq_bytes k hash then some height else find_key k c.state.hash_to_height)
    pub cumulative_work :
        (h : ℕ)
        → find_at h d.state.cumulative_work ≡ (
            if h == height
            then some
                (or_zero (find_at ((height + 2 ^ 64 - 1) % 2 ^ 64) c.state.cumulative_work) + work)
            else find_at h c.state.cumulative_work)
    pub supply :
        get_cf d.db default key_state_total_supply ≡ some (to_le_bytes 8 d.state.total_supply)
    pub moved : IsMoved action block height current c d

  work_at_lem :
      (s : ChainState) (height work : ℕ)
      → work_at x s height work
        ≡ or_zero (find_at ((height + 2 ^ 64 - 1) % 2 ^ 64) s.cumulative_work) + work
  work_at_lem s height work =
      let at_before = find_at ((height + 2 ^ 64 - 1) % 2 ^ 64) s.cumulative_work in
      elim (Option-cases at_before) [
        | inl absent ↦ ground (arith, absent)
        | inr (n, found) ↦ ground (arith, found)
      ]

  module _ (laws : IsRocks x.rocks) where
    module _ (load_supply_from_db : Db → Result ℕ) (block : Block) (height work : ℕ)
        (batch : List WriteOp) (c d : Chain x) where
      IsApplied-IsMoved :
          (action : Action) (t : IsApplied x load_supply_from_db c block height action work batch d)
          → IsMoved action block height t.current c d
      unfolding commit_changes change_timestamps
      IsApplied-IsMoved connect t =
          let v = to_le_bytes 8 (new_supply_of x connect height t.current) in
          let hs = header_ops x connect height block in
          let start = write x c.db t.a.batch in
          let first =
            x.apply start (put_cf default (hdr_key height) (serialize_header block.header)) in
          (
            ap (λ z. z.total_supply) t.in_memory,
            ap (λ z. z.timestamps) t.in_memory
                ∙ pushed_lem block.header.timestamp c.state.timestamps,
            ap (λ z. get_cf z default (hdr_key height)) t.db_after
                ∙ (both-header x laws c.db t.a.batch hs v height
                    ∙ connected-header x laws start height block),
            AllIndexed-same x laws true (write x start hs) d.db block.txs
                (λ key.
                  ap (λ z. get_cf z tx_index key) t.db_after
                  ∙ both-index x laws c.db t.a.batch hs v key)
                (index_txs-AllIndexed x laws height 0 block.txs first),
          )
      IsApplied-IsMoved disconnect t =
          let v = to_le_bytes 8 (new_supply_of x disconnect height t.current) in
          let hs = header_ops x disconnect height block in
          let start = write x c.db t.a.batch in
          (
            ap (λ z. z.total_supply) t.in_memory,
            ap (λ z. z.timestamps) t.in_memory ∙ pop_back_lem c.state.timestamps,
            AllIndexed-same x laws false (write x start hs) d.db block.txs
                (λ key.
                  ap (λ z. get_cf z tx_index key) t.db_after
                  ∙ both-index x laws c.db t.a.batch hs v key)
                (index_txs-NoneIndexed x laws height 0 block.txs start),
          )

  -- Where a read of the database gives what was last written: after a call that comes back, with any
  -- batch before it, the block, its hash, its height and its work with that of the block before it
  -- stand in the maps of the state, whose other entries are as they were. The database has the supply
  -- in memory, which has moved by the subsidy from the supply that was loaded. After a connection the
  -- database has the header and an index of each transaction, and the time of the block is the last;
  -- after a disconnection no transaction has an index, and the last time is gone.
  pub apply_block_action-IsStored :
      IsRocks x.rocks
      → (load_supply_from_db : Db → Result ℕ) (disk : Disk) (block : Block) (height : ℕ)
        (action : Action) (is_best : Bool) (work : ℕ) (batch : List WriteOp) (c d : Chain x)
      → apply_block_action x load_supply_from_db disk block height action is_best work batch c
        ≡ (done tt, d)
      → IsStored load_supply_from_db c block height action work d
  unfolding commit_changes
  apply_block_action-IsStored laws load_supply_from_db disk block height action is_best work batch c
        d e =
      let t =
        apply_block_action-IsApplied x load_supply_from_db disk block height action is_best work
          batch c d e in
      let new_supply = new_supply_of x action height t.current in
      record {
        hash = t.hash;
        current = t.current;
        hashes = t.hashes;
        loads = t.loads;
        blocks = λ h.
            ap (λ z. find_at h z.blocks) t.in_memory
            ∙ find_at-insert_at h height block c.state.blocks;
        height_to_hash = λ h.
            ap (λ z. find_at h z.height_to_hash) t.in_memory
            ∙ find_at-insert_at h height t.hash c.state.height_to_hash;
        hash_to_height = λ k.
            ap (λ z. find_key k z.hash_to_height) t.in_memory
            ∙ find_key-insert_key k t.hash height c.state.hash_to_height;
        cumulative_work = λ h.
            ap (λ z. find_at h z.cumulative_work) t.in_memory
            ∙ (find_at-insert_at h height _ c.state.cumulative_work
                ∙ ap (λ n. if h == height then some n else find_at h c.state.cumulative_work)
                    (work_at_lem c.state height work));
        supply =
            ap (λ z. get_cf z default key_state_total_supply) t.db_after
            ∙ (both-supply x laws c.db t.a.batch (header_ops x action height block)
                  (to_le_bytes 8 new_supply)
                ∙ sym (ap (λ z. some (to_le_bytes 8 z.total_supply)) t.in_memory));
        moved = IsApplied-IsMoved laws load_supply_from_db block height work batch c d action t;
      }
