-- ===== src/Chain/Checks/Mismatch.antt =====
-- 111/src/chain.rs `validate_state` after `apply_block_action`: the supply in memory follows the
-- schedule, the one in the database the outputs, which a coinbase does not enter.
use mathlib.Core.List.{foldl-append}
use abc.Bytes.{eq_bytes, Bytes, to_be_bytes, to_le_bytes}
use abc.Bytes.Laws.{length-to_be_bytes, from_be_bytes-to_be_bytes, eq_bytes_refl}
use abc.Chain.{
  index_txs, Chain, header_ops, key_state_total_supply, some, new_supply_of, commit_changes, Disk,
  apply_block_action,
}
use abc.Chain.Checks.{u64_of_bytes, validate_state}
use abc.Chain.Effects.{IsApplied, apply_block_action-IsApplied}
use abc.Methods.{failed, done}
use abc.Errors.{supply_mismatch, Result, ok_injective, >>=-eq-ok, ok}
use abc.External.{default, eq_cf, WriteOp, put_cf, delete_cf, IsRocks, External}
use abc.Prelude.{
  refl, ap, sym, ◌∙◌, ◌≢◌, ◌%◌, ◌<◌, ℕ, ◌+◌, ◌≡◌, Bool, true, not, ◌&&◌, List, [], ◌∷◌, arith, ◌++◌,
  ◌≤◌,
}
use abc.Store.{hdr_key}
use abc.Types.{Block, Transaction}
use abc.Utils.Checked.{u64_mod}
use abc.Utils.Subsidy.{subsidy}
use abc.Utxo.{apply_utxo_changes, txs_action, Acc, key_utxo_set_hash, connect, key_total_supply}
use abc.Utxo.Coinbase.{AllChecked, txs_action-supply-le}
use abc.Utxo.Write.{write}

module _ (x : External) (laws : IsRocks x.rocks) where
  open x use {Db, get_cf}

  -- No entry writes the supply of the outputs.
  abbrev misses : List WriteOp → Bool
  misses [] = true
  misses (put_cf c k v ∷ ops) =
      not (eq_cf c default && eq_bytes k (key_total_supply x)) && misses ops
  misses (delete_cf c k ∷ ops) =
      not (eq_cf c default && eq_bytes k (key_total_supply x)) && misses ops

  get_cf-misses :
      (db : Db) (ops : List WriteOp)
      → misses ops ≡ true
      → get_cf (write x db ops) default (key_total_supply x)
        ≡ get_cf db default (key_total_supply x)
  get_cf-misses db [] h = refl
  get_cf-misses db (put_cf c k v ∷ ops) h =
      get_cf-misses (x.apply db (put_cf c k v)) ops (ground (arith, h))
      ∙ ground (arith, h, laws.get-put db c default k (key_total_supply x) v)
  get_cf-misses db (delete_cf c k ∷ ops) h =
      get_cf-misses (x.apply db (delete_cf c k)) ops (ground (arith, h))
      ∙ ground (arith, h, laws.get-delete db c default k (key_total_supply x))

  index_txs-misses :
      (height idx : ℕ) (txs : List Transaction) (rest : List WriteOp)
      → misses (index_txs x connect height idx txs ++ rest) ≡ misses rest
  unfolding index_txs
  index_txs-misses height idx [] rest = refl
  index_txs-misses height idx (tx ∷ txs) rest = index_txs-misses height (idx + 1) txs rest

  header_ops-misses :
      (height : ℕ) (block : Block) (v : Bytes)
      → misses (header_ops x connect height block ++ (put_cf default key_state_total_supply v ∷ []))
        ≡ true
  unfolding hdr_key eq_bytes
  header_ops-misses height block v =
      index_txs-misses height 0 block.txs (put_cf default key_state_total_supply v ∷ [])

  -- The two last entries of the changes of the outputs.
  get_cf-supply :
      (db : Db) (ops rest : List WriteOp) (h v : Bytes)
      → misses rest ≡ true
      → get_cf
          (write x db (
            (ops
              ++ (put_cf default (key_utxo_set_hash x) h
                  ∷ put_cf default (key_total_supply x) v
                  ∷ []))
            ++ rest))
          default
          (key_total_supply x)
        ≡ some v
  get_cf-supply db ops rest h v m =
      let last =
        put_cf default (key_utxo_set_hash x) h ∷ put_cf default (key_total_supply x) v ∷ [] in
      ap (λ s. get_cf s default (key_total_supply x)) (foldl-append x.apply db (ops ++ last) rest)
      ∙ (get_cf-misses (write x db (ops ++ last)) rest m
          ∙ (ap (λ s. get_cf s default (key_total_supply x)) (foldl-append x.apply db ops last)
              ∙ ground (
                arith,
                eq_bytes_refl (key_total_supply x),
                laws.get-put (x.apply (write x db ops) (put_cf default (key_utxo_set_hash x) h))
                    default default (key_total_supply x) (key_total_supply x) v,
              )))

  module _ (load_supply_from_db : Db → Result ℕ) where
    -- The supply that is stored, after connecting a block.
    stored_supply :
        (c d : Chain x) (block : Block) (height work : ℕ) (batch : List WriteOp)
        → AllChecked x c.db c.best_height height block.txs
        → IsApplied x load_supply_from_db c block height connect work batch d
        → (s : ℕ) × (s ≤ c.state.total_supply)
          × (get_cf d.db default (key_total_supply x) ≡ some (to_be_bytes 8 s))
    unfolding apply_utxo_changes
    stored_supply c d block height work batch checked t =
        let (a', changes, rest) =
          >>=-eq-ok (txs_action x c.db connect height block.txs _) _ t.changes in
        let batches = ap (λ (b : Acc). b.batch) (ok_injective (sym rest)) in
        (
          a'.supply,
          txs_action-supply-le x c.db c.best_height height block.txs _ checked changes,
          ap (λ s. get_cf s default (key_total_supply x)) t.db_after
              ∙ (ap
                    (λ b.
                      get_cf
                        (write x c.db (
                          b
                          ++ (header_ops x connect height block
                              ++ (put_cf default key_state_total_supply
                                    (to_le_bytes 8 (new_supply_of x connect height t.current))
                                  ∷ []))))
                        default (key_total_supply x))
                    batches
                  ∙ get_cf-supply c.db a'.batch _ _ _ (header_ops-misses height block _)),
        )

    u64_of_bytes-to_be_bytes : (s : ℕ) → s < u64_mod → u64_of_bytes (to_be_bytes 8 s) ≡ ok s
    unfolding u64_of_bytes
    u64_of_bytes-to_be_bytes s h = rw (length-to_be_bytes 8 s, from_be_bytes-to_be_bytes 8 s h) refl

    differs :
        (d : Chain x) (s : ℕ)
        → get_cf d.db default (key_total_supply x) ≡ some (to_be_bytes 8 s)
        → s < u64_mod
        → s ≢ d.state.total_supply
        → validate_state x d ≡ (failed supply_mismatch, d)
    unfolding validate_state
    differs d s stored bound ne = ground (arith, stored, u64_of_bytes-to_be_bytes s bound, ne)

    -- After a block with a reward is connected, whose transactions are coinbases or were validated as
    -- transparent ones, `validate_state` refuses the chain, when the supply that was loaded was that
    -- in memory and the new one fits 64 bits.
    pub validate_state_fails :
        (disk : Disk) (block : Block) (height : ℕ) (is_best : Bool) (work : ℕ)
        (batch : List WriteOp) (c d : Chain x)
        → AllChecked x c.db c.best_height height block.txs
        → load_supply_from_db c.db ≡ ok c.state.total_supply
        → 0 < subsidy height
        → c.state.total_supply + subsidy height < u64_mod
        → apply_block_action x load_supply_from_db disk block height connect is_best work batch c
          ≡ (done tt, d)
        → validate_state x d ≡ (failed supply_mismatch, d)
    unfolding commit_changes
    validate_state_fails disk block height is_best work batch c d checked loaded pays fits e =
        let t =
          apply_block_action-IsApplied x load_supply_from_db disk block height connect is_best work
            batch c d e in
        let (s, low, stored) = stored_supply c d block height work batch checked t in
        let current : t.current ≡ c.state.total_supply = ok_injective (sym t.loads ∙ loaded) in
        let total : d.state.total_supply ≡ (t.current + subsidy height) % u64_mod =
          ap (λ z. z.total_supply) t.in_memory in
        differs d s stored (omega (arith, low, fits))
          (omega (arith, low, current, total, fits, pays))
