-- ===== src/Mempool/Account.antt =====
-- The bytes that the pool counts are those of its transactions.
use mathlib.Core.Path.{subst}
use abc.Prelude.{
  ℕ, zero, suc, ◌+◌, ◌^◌, ◌<◌, ◌≡◌, ap, sym, none, some, List, [], ◌∷◌, length, arith, ◌∙◌,
  Option-cases, inl, inr, Bool-cases,
}
use abc.Bytes.{eq_bytes}
use abc.Errors.{Result, ok, ◌>>=◌, >>=-eq-ok, ok_injective}
use abc.External.{External}
use abc.Tx.{tx_size}
use abc.Types.{Hash}
use abc.Maps.{find_key, erase_key}
use abc.Mempool.{
  MempoolEntry, Mempool, for_each, children_of, average_without, take_out, drop_indexes,
  remove_with, remove,
}

-- What a step keeps, a loop keeps.
pub for_each_keeps {ℓ κ} :
    {S : Type ℓ} (P : S → Type κ) (step : Hash → S → Result S)
    → ((id : Hash) (s s' : S) → step id s ≡ ok s' → P s → P s')
    → (ids : List Hash) (s : S) {s' : S} → for_each step ids s ≡ ok s'
    → P s
    → P s'
for_each_keeps P step keeps [] s h p = subst P (ok_injective h) p
for_each_keeps P step keeps (id ∷ ids) s h p =
    let (s1, first, rest) = >>=-eq-ok (step id s) (for_each step ids) h in
    for_each_keeps P step keeps ids s1 rest (keeps id s s1 first p)

module _ (x : External) where
  abbrev pub bytes_of : List (Hash × MempoolEntry) → ℕ
  bytes_of [] = 0
  bytes_of ((id, entry) ∷ m) = tx_size x entry.tx + bytes_of m

  -- The count is right, and a 64-bit number.
  abbrev pub IsAccounted : Mempool → Type 0
  IsAccounted p = (p.total_bytes ≡ bytes_of p.txs) × (p.total_bytes < 2 ^ 64)

  erase_key-bytes :
      (txid : Hash) (entry : MempoolEntry) (m : List (Hash × MempoolEntry))
      → find_key txid m ≡ some entry
      → bytes_of m ≡ tx_size x entry.tx + bytes_of (erase_key txid m)
  unfolding find_key erase_key
  erase_key-bytes txid entry [] h = ground arith
  erase_key-bytes txid entry ((k, e) ∷ m) h = elim (Bool-cases (eq_bytes txid k)) [
    | inl same ↦
        let here : e ≡ entry = ground arith in
        simp same (omega (arith, ap (λ (d : MempoolEntry). tx_size x d.tx) here))
    | inr other ↦ simp other (omega (arith, erase_key-bytes txid entry m (ground arith)))
  ]

  take_out-IsAccounted :
      (txid : Hash) (entry : MempoolEntry) (p : Mempool)
      → find_key txid p.txs ≡ some entry
      → IsAccounted p
      → IsAccounted (take_out x txid entry p)
  unfolding take_out
  take_out-IsAccounted txid entry p h (total, small) =
      let less = erase_key-bytes txid entry p.txs h in (omega arith, omega arith)

  drop_indexes-IsAccounted :
      (txid : Hash) (entry : MempoolEntry) (p : Mempool) {p' : Mempool}
      → drop_indexes x txid entry p ≡ ok p'
      → IsAccounted p
      → IsAccounted p'
  unfolding drop_indexes
  drop_indexes-IsAccounted txid entry p h accounted =
      let (avg, average, done) =
        >>=-eq-ok (average_without p.avg_fee (length p.txs) entry.fee_per_byte) _ h in
      subst IsAccounted (ok_injective done) accounted

  pub remove_with-absent :
      (f : ℕ) (txid : Hash) (p : Mempool)
      → find_key txid p.txs ≡ none
      → remove_with x f txid p ≡ ok p
  unfolding remove_with
  remove_with-absent zero txid p absent = ground arith
  remove_with-absent (suc f) txid p absent = ground arith

  pub remove_with-found :
      (f : ℕ) (txid : Hash) (p : Mempool) {entry : MempoolEntry}
      → find_key txid p.txs ≡ some entry
      → remove_with x (suc f) txid p ≡ (
          for_each
            (remove_with x f)
            (children_of (find_key txid p.by_parent))
            (take_out x txid entry p)
          >>= drop_indexes x txid entry)
  unfolding remove_with
  remove_with-found f txid p found = ground arith

  remove_with-IsAccounted :
      (f : ℕ) (txid : Hash) (p : Mempool) {p' : Mempool}
      → remove_with x f txid p ≡ ok p'
      → IsAccounted p
      → IsAccounted p'
  unfolding remove_with
  remove_with-IsAccounted zero txid p h accounted = elim (Option-cases (find_key txid p.txs)) [
    | inl absent ↦
        subst IsAccounted (ok_injective (sym (remove_with-absent zero txid p absent) ∙ h)) accounted
    | inr (entry, found) ↦ ground arith
  ]
  remove_with-IsAccounted (suc f) txid p h accounted = elim (Option-cases (find_key txid p.txs)) [
    | inl absent ↦
        subst IsAccounted (ok_injective (sym (remove_with-absent (suc f) txid p absent) ∙ h))
          accounted
    | inr (entry, found) ↦
        let (p1, children, last) =
          >>=-eq-ok
            (for_each (remove_with x f) (children_of (find_key txid p.by_parent))
              (take_out x txid entry p))
            _ (sym (remove_with-found f txid p found) ∙ h) in
        drop_indexes-IsAccounted txid entry p1 last (
          for_each_keeps IsAccounted (remove_with x f)
            (λ id s s' e. remove_with-IsAccounted f id s e)
            (children_of (find_key txid p.by_parent)) (take_out x txid entry p) children
            (take_out-IsAccounted txid entry p found accounted))
  ]

  -- Removing a transaction with all that depend on it keeps the count of bytes equal to those of
  -- the transactions in the pool.
  pub remove-IsAccounted :
      (txid : Hash) (p : Mempool) {p' : Mempool}
      → remove x txid p ≡ ok p'
      → IsAccounted p
      → IsAccounted p'
  unfolding remove
  remove-IsAccounted txid p = remove_with-IsAccounted (length p.txs) txid p
