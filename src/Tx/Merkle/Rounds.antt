-- ===== src/Tx/Merkle/Rounds.antt =====
-- The rounds end with one hash, and a repeated last hash changes nothing.
use mathlib.Core.List.{append_assoc, map-append}
use abc.Prelude.{
  ℕ, zero, suc, ◌+◌, ◌/◌, ◌%◌, ◌≤◌, ◌<◌, ◌≡◌, refl, List, [], ◌∷◌, ◌++◌, map, length, length-append,
  length-map, ◌==◌, Bool-cases, inl, inr, arith,
}
use abc.Bytes.{zero_hash}
use abc.Types.{Hash, Transaction}
use abc.External.{External}
use abc.Tx.{tx_hash}
use abc.Tx.Merkle.{
  last_or, first_or, push_last, combine, merkle_loop, merkle_root_of, compute_merkle_root,
}

-- After the padding the length is even, and at most one more.
pub length-push_last : (hs : List Hash) → length (push_last hs) ≡ length hs + length hs % 2
unfolding push_last
length-push_last hs = elim (Bool-cases (length hs % 2 == 1)) [
  | inl odd ↦ rw odd (ground (arith, length-append hs (last_or zero_hash hs ∷ [])))
  | inr even ↦ rw even (ground arith)
]

push_last_of_even : (hs : List Hash) → length hs % 2 ≡ 0 → push_last hs ≡ hs
unfolding push_last
push_last_of_even hs h = ground arith

last_or-append : (d h : Hash) (hs : List Hash) → last_or d (hs ++ (h ∷ [])) ≡ h
unfolding last_or
last_or-append d h [] = refl
last_or-append d h (a ∷ hs) = last_or-append a h hs

push_last_of_odd :
    (h : Hash) (hs : List Hash)
    → length hs % 2 ≡ 0
    → push_last (hs ++ (h ∷ [])) ≡ hs ++ (h ∷ h ∷ [])
unfolding push_last
push_last_of_odd h hs even =
    let odd : length (hs ++ (h ∷ [])) % 2 ≡ 1 = omega (arith, length-append hs (h ∷ [])) in
    rw (odd, last_or-append) (append_assoc hs (h ∷ []) (h ∷ []))

singleton : (l : List Hash) → length l ≡ 1 → l ≡ first_or zero_hash l ∷ []
singleton [] h = absurd (omega arith)
singleton (a ∷ []) h = refl
singleton (a ∷ b ∷ l) h = absurd (omega arith)

module _ (x : External) where
  pub length-combine : (hs : List Hash) → length (combine x hs) ≡ length hs / 2
  unfolding combine
  length-combine [] = omega arith
  length-combine (a ∷ []) = omega arith
  length-combine (a ∷ b ∷ hs) = omega (arith, length-combine hs)

  pub length-round : (hs : List Hash) → length (combine x (push_last hs)) ≡ (length hs + 1) / 2
  length-round hs = omega (arith, length-combine (push_last hs), length-push_last hs)

  -- With fuel for all but one of the hashes, a list that is not empty ends as one hash.
  pub length-merkle_loop :
      (f : ℕ) (hs : List Hash) → 0 < length hs → length hs ≤ f + 1 → length (merkle_loop x f hs) ≡ 1
  unfolding merkle_loop
  length-merkle_loop zero hs p q = omega arith
  length-merkle_loop (suc f) hs p q =
      ground (arith, length-round hs, length-merkle_loop f (combine x (push_last hs)))

  -- More fuel than that makes no difference.
  pub merkle_loop_fuel :
      (f g : ℕ) (hs : List Hash)
      → length hs ≤ f + 1
      → length hs ≤ g + 1
      → merkle_loop x f hs ≡ merkle_loop x g hs
  unfolding merkle_loop
  merkle_loop_fuel zero zero hs p q = refl
  merkle_loop_fuel zero (suc g) hs p q = ground arith
  merkle_loop_fuel (suc f) zero hs p q = ground arith
  merkle_loop_fuel (suc f) (suc g) hs p q =
      ground (arith, length-round hs, merkle_loop_fuel f g (combine x (push_last hs)))

  -- The root of a list that is not empty is the only hash that is left, at any fuel that is enough.
  pub merkle_root_of_loop :
      (f : ℕ) (hs : List Hash)
      → 0 < length hs
      → length hs ≤ f + 1
      → merkle_loop x f hs ≡ merkle_root_of x hs ∷ []
  unfolding merkle_root_of
  merkle_root_of_loop f [] p q = absurd (omega arith)
  merkle_root_of_loop f (h ∷ hs) p q =
      rw (merkle_loop_fuel f (length (h ∷ hs)) (h ∷ hs) q (omega arith))
        (singleton _ (length-merkle_loop (length (h ∷ hs)) (h ∷ hs) p (omega arith)))

  pub merkle_loop_step :
      (f : ℕ) (hs : List Hash)
      → 1 < length hs
      → merkle_loop x (suc f) hs ≡ merkle_loop x f (combine x (push_last hs))
  unfolding merkle_loop
  merkle_loop_step f hs h = ground arith

  pub merkle_loop_done : (f : ℕ) (hs : List Hash) → length hs ≤ 1 → merkle_loop x f hs ≡ hs
  unfolding merkle_loop
  merkle_loop_done zero hs h = refl
  merkle_loop_done (suc f) hs h = ground arith

  merkle_root_of-push_last :
      (hs : List Hash) → 1 < length hs → merkle_root_of x (push_last hs) ≡ merkle_root_of x hs
  merkle_root_of-push_last hs h =
      let f : ℕ = length hs in
      let e : length (push_last hs) ≡ length hs + length hs % 2 = length-push_last hs in
      let same : merkle_loop x (suc f) (push_last hs) ≡ merkle_loop x (suc f) hs = rw (
        merkle_loop_step f hs h,
        merkle_loop_step f (push_last hs) (omega arith),
        push_last_of_even (push_last hs) (omega arith),
      ) in
      cc (
        same,
        merkle_root_of_loop (suc f) hs (omega arith) (omega arith),
        merkle_root_of_loop (suc f) (push_last hs) (omega arith) (omega arith),
      )

  -- A block whose transactions are of an odd number above one has the root of the block that
  -- lists its last transaction once more.
  pub compute_merkle_root_repeated :
      (txs : List Transaction) (t : Transaction)
      → 0 < length txs
      → length txs % 2 ≡ 0
      → compute_merkle_root x (txs ++ (t ∷ t ∷ [])) ≡ compute_merkle_root x (txs ++ (t ∷ []))
  unfolding compute_merkle_root
  compute_merkle_root_repeated txs t pos even =
      let hs : List Hash = map (tx_hash x) txs in
      let h : Hash = tx_hash x t in
      let size : length hs ≡ length txs = length-map txs (tx_hash x) in
      let more : 1 < length (hs ++ (h ∷ [])) = omega (arith, size, length-append hs (h ∷ [])) in
      rw (map-append, map-append, ← push_last_of_odd h hs (omega (arith, size)))
        (merkle_root_of-push_last (hs ++ (h ∷ [])) more)
