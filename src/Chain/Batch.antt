-- ===== src/Chain/Batch.antt =====
-- 111/src/chain.rs `apply_block_action`: what is read after the batch of a block is written.
use mathlib.Core.List.{foldl-append}
use abc.Bytes.{Bytes, eq_bytes}
use abc.Bytes.Laws.{eq_bytes_refl}
use abc.Chain.{key_state_total_supply, header_ops, index_txs}
use abc.External.{default, tx_index, WriteOp, put_cf, delete_cf, IsRocks, External}
use abc.Maps.{is_some}
use abc.Prelude.{ap, refl, ◌∙◌, ℕ, ◌+◌, ◌≡◌, Bool, true, false, some, List, [], ◌∷◌, ◌++◌, arith}
use abc.Store.{hdr_key}
use abc.Tx.{tx_hash}
use abc.Types.{Block, Transaction}
use abc.Utxo.{Action, connect, disconnect}
use abc.Utxo.Write.{write}

module _ (x : External) where
  open x use {Db, get_cf, serialize_header}

  -- An index of each transaction is, or is not, in the database.
  unfoldable pub AllIndexed : Bool → Db → List Transaction → Type 0
  AllIndexed b db [] = Unit {0}
  AllIndexed b db (tx ∷ txs) =
      (is_some (get_cf db tx_index (tx_hash x tx)) ≡ b) × AllIndexed b db txs

  module _ (laws : IsRocks x.rocks) where
    index_txs-keeps :
        (action : Action) (height idx : ℕ) (txs : List Transaction) (db : Db) (key : Bytes)
        → get_cf (write x db (index_txs x action height idx txs)) default key
          ≡ get_cf db default key
    unfolding index_txs
    index_txs-keeps connect height idx [] db key = refl
    index_txs-keeps connect height idx (tx ∷ txs) db key =
        index_txs-keeps connect height (idx + 1) txs _ key
        ∙ laws.get-put db tx_index default (tx_hash x tx) key _
    index_txs-keeps disconnect height idx [] db key = refl
    index_txs-keeps disconnect height idx (tx ∷ txs) db key =
        index_txs-keeps disconnect height (idx + 1) txs _ key
        ∙ laws.get-delete db tx_index default (tx_hash x tx) key

    index_txs-some :
        (height idx : ℕ) (txs : List Transaction) (db : Db) (key : Bytes)
        → is_some (get_cf db tx_index key) ≡ true
        → is_some (get_cf (write x db (index_txs x connect height idx txs)) tx_index key) ≡ true
    unfolding index_txs
    index_txs-some height idx [] db key h = h
    index_txs-some height idx (tx ∷ txs) db key h = index_txs-some height (idx + 1) txs _ key (
        ground (
          arith,
          h,
          laws.get-put db tx_index tx_index (tx_hash x tx) key (x.serialize_index height idx),
        ))

    index_txs-none :
        (height idx : ℕ) (txs : List Transaction) (db : Db) (key : Bytes)
        → is_some (get_cf db tx_index key) ≡ false
        → is_some (get_cf (write x db (index_txs x disconnect height idx txs)) tx_index key) ≡ false
    unfolding index_txs
    index_txs-none height idx [] db key h = h
    index_txs-none height idx (tx ∷ txs) db key h =
        index_txs-none height (idx + 1) txs _ key
          (ground (arith, h, laws.get-delete db tx_index tx_index (tx_hash x tx) key))

    pub index_txs-AllIndexed :
        (height idx : ℕ) (txs : List Transaction) (db : Db)
        → AllIndexed true (write x db (index_txs x connect height idx txs)) txs
    unfolding index_txs AllIndexed
    index_txs-AllIndexed height idx [] db = tt
    index_txs-AllIndexed height idx (tx ∷ txs) db =
        let key = tx_hash x tx in
        let value = x.serialize_index height idx in
        (
          index_txs-some height (idx + 1) txs (x.apply db (put_cf tx_index key value)) key
              (ground (arith, eq_bytes_refl key, laws.get-put db tx_index tx_index key key value)),
          index_txs-AllIndexed height (idx + 1) txs (x.apply db (put_cf tx_index key value)),
        )

    pub index_txs-NoneIndexed :
        (height idx : ℕ) (txs : List Transaction) (db : Db)
        → AllIndexed false (write x db (index_txs x disconnect height idx txs)) txs
    unfolding index_txs AllIndexed
    index_txs-NoneIndexed height idx [] db = tt
    index_txs-NoneIndexed height idx (tx ∷ txs) db =
        let key = tx_hash x tx in
        (
          index_txs-none height (idx + 1) txs (x.apply db (delete_cf tx_index key)) key
              (ground (arith, eq_bytes_refl key, laws.get-delete db tx_index tx_index key key)),
          index_txs-NoneIndexed height (idx + 1) txs (x.apply db (delete_cf tx_index key)),
        )

    pub AllIndexed-same :
        (b : Bool) (db db' : Db) (txs : List Transaction)
        → ((key : Bytes) → get_cf db' tx_index key ≡ get_cf db tx_index key)
        → AllIndexed b db txs
        → AllIndexed b db' txs
    unfolding AllIndexed
    AllIndexed-same b db db' [] same h = tt
    AllIndexed-same b db db' (tx ∷ txs) same (h, rest) =
        (ap is_some (same (tx_hash x tx)) ∙ h, AllIndexed-same b db db' txs same rest)

    -- The entry of the supply is the last one.
    module _ (db : Db) (ops hs : List WriteOp) (v : Bytes) where
      abbrev pub both : Db
      both = write x db (ops ++ (hs ++ (put_cf default key_state_total_supply v ∷ [])))

      both-split :
          both ≡ x.apply (write x (write x db ops) hs) (put_cf default key_state_total_supply v)
      both-split = foldl-append x.apply db ops _ ∙ foldl-append x.apply (write x db ops) hs _

      pub both-supply : get_cf both default key_state_total_supply ≡ some v
      both-supply =
          ap (λ z. get_cf z default key_state_total_supply) both-split
          ∙ ground (
            arith,
            eq_bytes_refl key_state_total_supply,
            laws.get-put (write x (write x db ops) hs) default default key_state_total_supply
                key_state_total_supply v,
          )

      pub both-header :
          (height : ℕ)
          → get_cf both default (hdr_key height)
            ≡ get_cf (write x (write x db ops) hs) default (hdr_key height)
      unfolding eq_bytes hdr_key
      both-header height =
          ap (λ z. get_cf z default (hdr_key height)) both-split
          ∙ laws.get-put (write x (write x db ops) hs) default default key_state_total_supply
              (hdr_key height) v

      pub both-index :
          (key : Bytes)
          → get_cf both tx_index key ≡ get_cf (write x (write x db ops) hs) tx_index key
      both-index key =
          ap (λ z. get_cf z tx_index key) both-split
          ∙ laws.get-put (write x (write x db ops) hs) default tx_index key_state_total_supply key v

    pub connected-header :
        (db : Db) (height : ℕ) (block : Block)
        → get_cf (write x db (header_ops x connect height block)) default (hdr_key height)
          ≡ some (serialize_header block.header)
    connected-header db height block =
        index_txs-keeps connect height 0 block.txs _ (hdr_key height)
        ∙ ground (
          arith,
          eq_bytes_refl (hdr_key height),
          laws.get-put db default default (hdr_key height) (hdr_key height)
              (serialize_header block.header),
        )
