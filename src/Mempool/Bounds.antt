-- ===== src/Mempool/Bounds.antt =====
-- 111/src/mempool.rs `Mempool::insert`: the count of bytes, the limits, and what the checks of a
-- transparent transaction leave out.
use abc.Bytes.{eq_bytes}
use abc.Errors.{ok}
use abc.External.{External}
use abc.Maps.{find_key, insert_key, is_some}
use abc.Mempool.{MempoolEntry, Mempool, Bool}
use abc.Mempool.Account.{bytes_of, IsAccounted}
use abc.Mempool.Insert.{collect_ancestors, check_package, check_entry, pool_parents, sum_inputs}
use abc.Mempool.Join.{join_pool, insert}
use abc.Mempool.Joined.{insert-IsJoined}
use abc.Methods.{done}
use abc.Prelude.{
  refl, ◌++◌, ℕ, ◌+◌, ◌<◌, ◌≤◌, ◌^◌, ◌≡◌, ap, true, none, List, [], ◌∷◌, arith, inl, inr,
  Bool-cases, length, false,
}
use abc.Tx.{tx_hash, tx_size}
use abc.Types.{TxInput, Hash, Transaction}

snoc_nonempty :
    {P : Type 0} (ids : List Hash) (id : Hash) → ◌≡◌ {A = List Hash} (ids ++ (id ∷ [])) [] → P
snoc_nonempty [] id h = cc h
snoc_nonempty (i ∷ ids) id h = cc h

module _ (x : External) where
  insert_key-bytes :
      (txid : Hash) (entry : MempoolEntry) (m : List (Hash × MempoolEntry))
      → find_key txid m ≡ none
      → bytes_of x (insert_key txid entry m) ≡ bytes_of x m + tx_size x entry.tx
  unfolding find_key insert_key
  insert_key-bytes txid entry [] h = omega arith
  insert_key-bytes txid entry ((k, e) ∷ m) h = elim (Bool-cases (eq_bytes txid k)) [
    | inl same ↦ ground (arith, same, h)
    | inr other ↦
        simp other (omega (arith, insert_key-bytes txid entry m (ground (arith, other, h))))
  ]

  check_entry-tx :
      (db : x.Db) (now_ms : ℕ) (tx : Transaction) (p : Mempool) {entry : MempoolEntry}
      → check_entry x db now_ms tx p ≡ ok entry
      → (tx_size x entry.tx ≤ 500_000) × (entry.tx ≡ tx)
  unfolding check_entry
  check_entry-tx db now_ms tx p h = ground (arith, h)

  -- A transaction that joins the pool keeps the count of bytes equal to those of the transactions in
  -- it, and leaves it within its limits, when the count is half a million below the end of 64 bits.
  pub insert-IsAccounted :
      (db : x.Db) (now_ms : ℕ) (tx : Transaction) (p p' : Mempool)
      → IsAccounted x p
      → p.total_bytes + 500_000 < 2 ^ 64
      → insert x db now_ms tx p ≡ (done true, p')
      → IsAccounted x p' × (bytes_of x p'.txs ≤ p'.max_size) × (length p'.txs ≤ 50000)
  unfolding join_pool
  insert-IsAccounted db now_ms tx p p' (total, small) room h =
      let j = insert-IsJoined x db now_ms tx p p' h in
      let (size, same) = check_entry-tx db now_ms tx p j.passes in
      let bytes = insert_key-bytes _ j.entry p.txs j.is_new in
      let count = ap (λ z. z.total_bytes) j.result in
      let txs = ap (λ z. bytes_of x z.txs) j.result in
      let limits = j.within in
      let now : p'.total_bytes ≡ bytes_of x p'.txs =
        omega (arith, total, room, size, bytes, count, txs) in
      (
        (now, omega (arith, total, room, size, bytes, count, txs)),
        ground (arith, now, limits),
        ground (arith, limits),
      )

  -- No transaction of the inputs is in the pool, nor the transaction itself.
  abbrev pub IsApart : Transaction → Mempool → Type 0
  IsApart tx p = (pool_parents tx.inputs p.txs ≡ []) × (find_key (tx_hash x tx) p.txs ≡ none)

  pool_parents-head :
      (vin : TxInput) (vins : List TxInput) (txs : List (Hash × MempoolEntry))
      → pool_parents (vin ∷ vins) txs ≡ []
      → (is_some (find_key vin.txid txs) ≡ false) × (pool_parents vins txs ≡ [])
  unfolding pool_parents
  pool_parents-head vin vins txs h = elim (Bool-cases (is_some (find_key vin.txid txs))) [
    | inl inside ↦ snoc_nonempty (pool_parents vins txs) vin.txid (ground (arith, inside, h))
    | inr apart ↦ (apart, ground (arith, apart, h))
  ]

  sum_inputs-IsApart :
      (db : x.Db) (txs txs' : List (Hash × MempoolEntry)) (anon : Bool) (vins : List TxInput)
      (sum : ℕ) (deps : List Hash)
      → pool_parents vins txs ≡ []
      → pool_parents vins txs' ≡ []
      → sum_inputs x db txs anon vins sum deps ≡ sum_inputs x db txs' anon vins sum deps
  unfolding sum_inputs
  sum_inputs-IsApart db txs txs' anon [] sum deps h h' = refl
  sum_inputs-IsApart db txs txs' anon (vin ∷ vins) sum deps h h' =
      let (a, r) = pool_parents-head vin vins txs h in
      let (a', r') = pool_parents-head vin vins txs' h' in
      let rest : (s : ℕ) (d : List Hash)
          → sum_inputs x db txs anon vins s d ≡ sum_inputs x db txs' anon vins s d =
        λ s d. sum_inputs-IsApart db txs txs' anon vins s d r r' in
      grind (arith, a, a', rest)

  -- The checks of a transparent transaction that is not in the pool, and none of whose inputs is of a
  -- transaction in the pool, do not look at the pool: another one in the pool that spends the same
  -- outputs is no reason to refuse it.
  pub check_entry-IsApart :
      (db : x.Db) (now_ms : ℕ) (tx : Transaction) (p q : Mempool)
      → tx.is_anonymous ≡ false
      → IsApart tx p
      → IsApart tx q
      → check_entry x db now_ms tx p ≡ check_entry x db now_ms tx q
  unfolding check_entry collect_ancestors check_package
  check_entry-IsApart db now_ms tx p q plain (a, f) (a', f') =
      let sums = sum_inputs-IsApart db p.txs q.txs tx.is_anonymous tx.inputs 0 [] a a' in
      ground (arith, plain, a, a', f, f', sums)
