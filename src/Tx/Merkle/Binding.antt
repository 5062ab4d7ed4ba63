-- ===== src/Tx/Merkle/Binding.antt =====
-- The root binds the transactions, as far as the hash function does.
use native.Mathlib.Decide.{dec_lt}
use abc.Prelude.{
  ℕ, zero, suc, ◌+◌, ◌%◌, ◌≡◌, ◌≢◌, ◌⊎◌, refl, ap, sym, ◌∙◌, true, false, List, [], ◌∷◌, ◌++◌, map,
  length, length-map, append_injective, ◌==◌, Bool-cases, inl, inr, arith,
}
use abc.Bytes.{Bytes, zeros, zero_hash, eq_bytes}
use abc.Bytes.Laws.{eq_bytes_iff}
use abc.Types.{Hash, Transaction}
use abc.External.{External}
use abc.Tx.{sha256d, tx_hash}
use abc.Tx.Merkle.{last_or, push_last, combine, merkle_loop, compute_merkle_root}
use abc.Tx.Merkle.Rounds.{
  length-push_last, length-round, merkle_root_of_loop, merkle_loop_step, merkle_loop_done,
}

-- Every hash has 32 bytes.
abbrev All32 : List Hash → Type 0
All32 [] = Unit {0}
All32 (h ∷ hs) = (length h ≡ 32) × All32 hs

-- Two different strings with the same double SHA-256.
abbrev pub Collision : External → Type 0
Collision x = (a : Bytes) × (b : Bytes) × (a ≢ b) × (sha256d x a ≡ sha256d x b)

module _ (x : External) where
  -- Digests have 32 bytes.
  abbrev pub Digests32 : Type 0
  Digests32 = (d : Bytes) → length (x.sha256 d) ≡ 32

  sha256d_injective : (a b : Bytes) → sha256d x a ≡ sha256d x b → (a ≡ b) ⊎ Collision x
  sha256d_injective a b h = elim (Bool-cases (eq_bytes a b)) [
    | inl same ↦ inl ((eq_bytes_iff a b).0 same)
    | inr other ↦ inr (a, b, ground (arith, eq_bytes_iff a b), h)
  ]

  combine_injective :
      (hs hs' : List Hash)
      → length hs ≡ length hs'
      → length hs % 2 ≡ 0
      → All32 hs
      → All32 hs'
      → combine x hs ≡ combine x hs'
      → (hs ≡ hs') ⊎ Collision x
  unfolding combine
  combine_injective [] [] l e p q h = inl refl
  combine_injective [] (b ∷ hs') l e p q h = absurd (omega arith)
  combine_injective (a ∷ hs) [] l e p q h = absurd (omega arith)
  combine_injective (a ∷ []) (b ∷ hs') l e p q h = absurd (omega arith)
  combine_injective (a ∷ b ∷ hs) (c ∷ []) l e p q h = absurd (omega arith)
  combine_injective (a ∷ b ∷ hs) (c ∷ d ∷ hs') l e (pa, (pb, p)) (qc, (qd, q)) h =
      let tails : (hs ≡ hs') ⊎ Collision x =
        combine_injective hs hs' (omega arith) (omega arith) p q (cc) in
      elim (sha256d_injective (a ++ b) (c ++ d) (cc)) [
        | inr clash ↦ inr clash
        | inl e' ↦ elim tails [
          | inr clash ↦ inr clash
          | inl t ↦ let (p', q') = append_injective a b c d (pa ∙ sym qc) e' in inl (cc)
        ]
      ]

  All32-append : (hs ks : List Hash) → All32 hs → All32 ks → All32 (hs ++ ks)
  All32-append [] ks p q = q
  All32-append (h ∷ hs) ks (e, p) q = (e, All32-append hs ks p q)

  last_or-length :
      (d : Hash) (hs : List Hash) → length d ≡ 32 → All32 hs → length (last_or d hs) ≡ 32
  unfolding last_or
  last_or-length d [] e p = e
  last_or-length d (h ∷ hs) e (e', p) = last_or-length h hs e' p

  push_last-All32 : (hs : List Hash) → All32 hs → All32 (push_last hs)
  unfolding push_last
  push_last-All32 hs p = elim (Bool-cases (length hs % 2 == 1)) [
    | inl odd ↦ rw odd (
        All32-append hs (last_or zero_hash hs ∷ []) p
          (last_or-length zero_hash hs (unfold zeros in refl) p, tt))
    | inr even ↦ rw even p
  ]

  combine-All32 : Digests32 → (hs : List Hash) → All32 (combine x hs)
  unfolding combine sha256d
  combine-All32 digests [] = tt
  combine-All32 digests (a ∷ []) = tt
  combine-All32 digests (a ∷ b ∷ hs) = (digests _, combine-All32 digests hs)

  hashes-All32 : Digests32 → (txs : List Transaction) → All32 (map (tx_hash x) txs)
  unfolding tx_hash
  hashes-All32 digests [] = tt
  hashes-All32 digests (t ∷ txs) = (digests _, hashes-All32 digests txs)

  push_last_injective :
      (hs hs' : List Hash) → length hs ≡ length hs' → push_last hs ≡ push_last hs' → hs ≡ hs'
  unfolding push_last
  push_last_injective hs hs' l h = elim (Bool-cases (length hs % 2 == 1)) [
    | inl odd ↦
        let odd' : (length hs' % 2 == 1) ≡ true = rw (← l) odd in
        (append_injective hs (last_or zero_hash hs ∷ []) hs' (last_or zero_hash hs' ∷ []) l
          (ground arith)).0
    | inr even ↦ let even' : (length hs' % 2 == 1) ≡ false = rw (← l) even in ground arith
  ]

  round_injective :
      (hs hs' : List Hash)
      → length hs ≡ length hs'
      → All32 hs
      → All32 hs'
      → combine x (push_last hs) ≡ combine x (push_last hs')
      → (hs ≡ hs') ⊎ Collision x
  round_injective hs hs' l p p' h =
      let e : length (push_last hs) ≡ length hs + length hs % 2 = length-push_last hs in
      let e' : length (push_last hs') ≡ length hs' + length hs' % 2 = length-push_last hs' in
      let even : length (push_last hs) ≡ length (push_last hs') = rw (e, e', l) in
      elim (combine_injective (push_last hs) (push_last hs') even (omega arith)
        (push_last-All32 hs p) (push_last-All32 hs' p') h) [
          | inr clash ↦ inr clash
          | inl same ↦ inl (push_last_injective hs hs' l same)
        ]

  merkle_loop_injective :
      Digests32
      → (f : ℕ) (hs hs' : List Hash) → length hs ≡ length hs'
      → All32 hs
      → All32 hs'
      → merkle_loop x f hs ≡ merkle_loop x f hs'
      → (hs ≡ hs') ⊎ Collision x
  unfolding merkle_loop
  merkle_loop_injective digests zero hs hs' l p p' h = inl h
  merkle_loop_injective digests (suc f) hs hs' l p p' h = elim (dec_lt 1 (length hs)) [
    | yes more ↦
        let next : combine x (push_last hs) ≡ combine x (push_last hs') ⊎ Collision x =
          merkle_loop_injective digests f (combine x (push_last hs)) (combine x (push_last hs'))
            (rw (length-round, length-round, l) refl) (combine-All32 digests (push_last hs))
            (combine-All32 digests (push_last hs'))
            (sym (merkle_loop_step x f hs more) ∙ (h ∙ merkle_loop_step x f hs' (omega arith))) in
        elim next [ inr clash ↦ inr clash | inl same ↦ round_injective hs hs' l p p' same ]
    | no done ↦ inl (
        sym (merkle_loop_done x (suc f) hs (omega arith))
        ∙ (h ∙ merkle_loop_done x (suc f) hs' (omega arith)))
  ]

  -- Two blocks with as many transactions and the same root have the same transactions in the same
  -- order, by their ids; or the blocks show two different strings with one double SHA-256. It is
  -- supposed that digests have 32 bytes.
  pub compute_merkle_root_binds :
      Digests32
      → (txs txs' : List Transaction) → length txs ≡ length txs'
      → compute_merkle_root x txs ≡ compute_merkle_root x txs'
      → (map (tx_hash x) txs ≡ map (tx_hash x) txs') ⊎ Collision x
  unfolding compute_merkle_root
  compute_merkle_root_binds digests [] [] l h = inl refl
  compute_merkle_root_binds digests [] (t ∷ txs') l h = absurd (omega arith)
  compute_merkle_root_binds digests (t ∷ txs) [] l h = absurd (omega arith)
  compute_merkle_root_binds digests (t ∷ txs) (t' ∷ txs') l h =
      let hs : List Hash = map (tx_hash x) (t ∷ txs) in
      let hs' : List Hash = map (tx_hash x) (t' ∷ txs') in
      let f : ℕ = length txs in
      let size : length hs ≡ suc f = length-map (t ∷ txs) (tx_hash x) in
      let size' : length hs' ≡ length (t' ∷ txs') = length-map (t' ∷ txs') (tx_hash x) in
      merkle_loop_injective digests f hs hs' (size ∙ (l ∙ sym size'))
        (hashes-All32 digests (t ∷ txs)) (hashes-All32 digests (t' ∷ txs'))
        (merkle_root_of_loop x f hs (omega arith) (omega arith)
          ∙ (ap (λ r. r ∷ []) h ∙ sym (merkle_root_of_loop x f hs' (omega arith) (omega arith))))
