-- ===== src/Mempool/Fuel.antt =====
-- The calls of `remove` for the children of a transaction end, and its panic.
use mathlib.Core.Path.{subst}
use abc.Prelude.{
  ℕ, zero, suc, ◌≤◌, ◌≡◌, refl, ap, sym, ◌∙◌, none, some, List, [], ◌∷◌, length, arith,
  Option-cases, inl, inr, Bool-cases,
}
use abc.Bytes.{eq_bytes}
use abc.Errors.{Result-cases, Result, ok, panicked, ◌>>=◌, >>=-eq-ok, ok_injective}
use abc.External.{External}
use abc.Types.{Hash}
use abc.Maps.{find_key, erase_key}
use abc.Mempool.{
  MempoolEntry, Mempool, for_each, children_of, average_without, take_out, drop_indexes,
  remove_with, remove,
}
use abc.Mempool.Account.{for_each_keeps, remove_with-absent, remove_with-found}

-- Steps that agree while something holds that they keep, make loops that agree.
for_each_agree {ℓ κ} :
    {S : Type ℓ} (P : S → Type κ) (step step' : Hash → S → Result S)
    → ((id : Hash) (s : S) → P s → step id s ≡ step' id s)
    → ((id : Hash) (s s' : S) → step id s ≡ ok s' → P s → P s')
    → (ids : List Hash) (s : S) → P s
    → for_each step ids s ≡ for_each step' ids s
for_each_agree P step step' same keeps [] s p = refl
for_each_agree P step step' same keeps (id ∷ ids) s p = elim (Result-cases (step id s)) [
  | inl (s1, first) ↦
      rw (sym (same id s p), first)
        (for_each_agree P step step' same keeps ids s1 (keeps id s s1 first p))
  | inr fails ↦ rw (sym (same id s p)) (fails (for_each step ids) (for_each step' ids))
]

erase_key-length :
    (txid : Hash) (entry : MempoolEntry) (m : List (Hash × MempoolEntry))
    → find_key txid m ≡ some entry
    → length m ≡ suc (length (erase_key txid m))
unfolding find_key erase_key
erase_key-length txid entry [] h = ground arith
erase_key-length txid entry ((k, e) ∷ m) h = elim (Bool-cases (eq_bytes txid k)) [
  | inl same ↦ simp same
  | inr other ↦ simp other (omega (arith, erase_key-length txid entry m (ground arith)))
]

empty : (txid : Hash) (m : List (Hash × MempoolEntry)) → length m ≤ 0 → find_key txid m ≡ none
unfolding find_key
empty txid [] h = refl
empty txid (e ∷ m) h = absurd (omega (arith, h))

module _ (x : External) where
  -- The pool has at most `n` transactions.
  abbrev AtMost : ℕ → Mempool → Type 0
  AtMost n p = length p.txs ≤ n

  take_out-AtMost :
      (n : ℕ) (txid : Hash) (entry : MempoolEntry) (p : Mempool)
      → find_key txid p.txs ≡ some entry
      → AtMost (suc n) p
      → AtMost n (take_out x txid entry p)
  unfolding take_out
  take_out-AtMost n txid entry p found h = omega (arith, erase_key-length txid entry p.txs found)

  drop_indexes-AtMost :
      (n : ℕ) (txid : Hash) (entry : MempoolEntry) (p : Mempool) {p' : Mempool}
      → drop_indexes x txid entry p ≡ ok p'
      → AtMost n p
      → AtMost n p'
  unfolding drop_indexes
  drop_indexes-AtMost n txid entry p h few =
      let (avg, average, done) =
        >>=-eq-ok (average_without p.avg_fee (length p.txs) entry.fee_per_byte) _ h in
      subst (AtMost n) (ok_injective done) few

  remove_with-AtMost :
      (f n : ℕ) (txid : Hash) (p : Mempool) {p' : Mempool}
      → remove_with x f txid p ≡ ok p'
      → AtMost n p
      → AtMost n p'
  unfolding remove_with
  remove_with-AtMost zero n txid p h few = elim (Option-cases (find_key txid p.txs)) [
    | inl absent ↦
        subst (AtMost n) (ok_injective (sym (remove_with-absent x zero txid p absent) ∙ h)) few
    | inr (entry, found) ↦ ground arith
  ]
  remove_with-AtMost (suc f) n txid p h few = elim (Option-cases (find_key txid p.txs)) [
    | inl absent ↦
        subst (AtMost n) (ok_injective (sym (remove_with-absent x (suc f) txid p absent) ∙ h)) few
    | inr (entry, found) ↦
        let (p1, children, last) =
          >>=-eq-ok
            (for_each (remove_with x f) (children_of (find_key txid p.by_parent))
              (take_out x txid entry p))
            _ (sym (remove_with-found x f txid p found) ∙ h) in
        drop_indexes-AtMost n txid entry p1 last (
          for_each_keeps (AtMost n) (remove_with x f) (λ id s s' e. remove_with-AtMost f n id s e)
            (children_of (find_key txid p.by_parent)) (take_out x txid entry p) children
            (take_out-AtMost n txid entry p found (omega (arith, few))))
  ]

  -- Two amounts of fuel that are at least the number of transactions in the pool give one result:
  -- `remove` never runs out of fuel.
  pub remove_with-fuel :
      (f g : ℕ) (txid : Hash) (p : Mempool)
      → length p.txs ≤ f
      → length p.txs ≤ g
      → remove_with x f txid p ≡ remove_with x g txid p
  remove_with-fuel zero g txid p hf hg =
      remove_with-absent x zero txid p (empty txid p.txs hf)
      ∙ sym (remove_with-absent x g txid p (empty txid p.txs hf))
  remove_with-fuel (suc f) zero txid p hf hg =
      remove_with-absent x (suc f) txid p (empty txid p.txs hg)
      ∙ sym (remove_with-absent x zero txid p (empty txid p.txs hg))
  remove_with-fuel (suc f) (suc g) txid p hf hg = elim (Option-cases (find_key txid p.txs)) [
    | inl absent ↦
        remove_with-absent x (suc f) txid p absent
        ∙ sym (remove_with-absent x (suc g) txid p absent)
    | inr (entry, found) ↦
        let same =
          for_each_agree (λ s. AtMost f s × AtMost g s) (remove_with x f) (remove_with x g)
            (λ id s (a, b). remove_with-fuel f g id s a b)
            (λ id s s' e (a, b). (remove_with-AtMost f f id s e a, remove_with-AtMost f g id s e b))
            (children_of (find_key txid p.by_parent)) (take_out x txid entry p)
            (take_out-AtMost f txid entry p found hf, take_out-AtMost g txid entry p found hg) in
        remove_with-found x f txid p found
        ∙ (ap (λ r. r >>= drop_indexes x txid entry) same
            ∙ sym (remove_with-found x g txid p found))
  ]

  no_children :
      (ids : List Hash) (p : Mempool) → AtMost 0 p → for_each (remove_with x 0) ids p ≡ ok p
  no_children [] p h = refl
  no_children (id ∷ ids) p h =
      rw (remove_with-absent x 0 id p (empty id p.txs h)) (no_children ids p h)

  drop_indexes_empty :
      (txid : Hash) (entry : MempoolEntry) (p : Mempool)
      → AtMost 0 p
      → drop_indexes x txid entry p ≡ panicked
  unfolding drop_indexes average_without
  drop_indexes_empty txid entry p h = let n : length p.txs ≡ 0 = omega (arith, h) in ground arith

  -- Removing the only transaction of the pool ends the process: the average is taken over none.
  pub remove_last_panics :
      (txid : Hash) (p : Mempool) (entry : MempoolEntry)
      → find_key txid p.txs ≡ some entry
      → length p.txs ≡ 1
      → remove x txid p ≡ panicked
  unfolding remove
  remove_last_panics txid p entry found one =
      let s = take_out x txid entry p in
      let none_left : AtMost 0 s = take_out-AtMost 0 txid entry p found (omega (arith, one)) in
      remove_with-fuel (length p.txs) 1 txid p (omega arith) (omega (arith, one))
      ∙ (remove_with-found x 0 txid p found
          ∙ (ap (λ r. r >>= drop_indexes x txid entry)
                (no_children (children_of (find_key txid p.by_parent)) s none_left)
              ∙ drop_indexes_empty txid entry s none_left))
