-- ===== src/Bytes/Laws.antt =====
-- Equality of byte strings, and the round trip of big-endian numbers.
use native.Mathlib.Nat.{
  mod-lt, mod-eq_of_lt, div-add-mod', mul-add-mod_self_right, mul-le-mul_right,
}
use abc.Prelude.Powers.{two_pow_add, two_pow_pos}
use abc.Prelude.{
  ℕ, zero, suc, ◌+◌, ◌*◌, ◌/◌, ◌%◌, ◌^◌, ◌<◌, ◌≡◌, refl, ap, ◌∙◌, ◌↔◌, true, [], ◌∷◌, length, arith,
  ◌≤◌,
}
use abc.Bytes.{Bytes, eq_bytes, to_be_bytes, be_value, from_be_bytes}

pub eq_bytes_iff : (a b : Bytes) → (eq_bytes a b ≡ true) ↔ (a ≡ b)
unfolding eq_bytes
eq_bytes_iff [] [] = ((λ _. refl), (λ _. refl))
eq_bytes_iff [] (b ∷ bs) = ((λ h. cc), (λ h. cc))
eq_bytes_iff (a ∷ as') [] = ((λ h. cc), (λ h. cc))
eq_bytes_iff (a ∷ as') (b ∷ bs) =
    (λ h. ground (arith, eq_bytes_iff as' bs), λ h. ground (arith, eq_bytes_iff as' bs))

pub eq_bytes_refl : (a : Bytes) → eq_bytes a a ≡ true
eq_bytes_refl a = (eq_bytes_iff a a).1 refl

pub length-to_be_bytes : (w v : ℕ) → length (to_be_bytes w v) ≡ w
unfolding to_be_bytes
length-to_be_bytes zero v = refl
length-to_be_bytes (suc w) v = ap suc (length-to_be_bytes w v)

mod_digit : (v p : ℕ) → 0 < p → v % (p * 256) ≡ v / p % 256 * p + v % p
mod_digit v p pos =
    let q : ℕ = v / p in
    let r : ℕ = q % 256 * p + v % p in
    let digits : (q / 256 * 256 + q % 256) * p ≡ q * p =
      ap (λ (t : ℕ). t * p) (div-add-mod' q 256) in
    let split : v ≡ q / 256 * (p * 256) + r = omega (arith, div-add-mod' v p, digits) in
    let digit : (q % 256) * p ≤ 255 * p = mul-le-mul_right p (omega arith) in
    let fits : r < p * 256 = omega (arith, digit, mod-lt v pos) in
    ap (λ (t : ℕ). t % (p * 256)) split
    ∙ (mul-add-mod_self_right (q / 256) (p * 256) r ∙ mod-eq_of_lt fits)

be_value-to_be_bytes :
    (w v acc : ℕ) → be_value acc (to_be_bytes w v) ≡ acc * 2 ^ (8 * w) + v % 2 ^ (8 * w)
unfolding be_value to_be_bytes
be_value-to_be_bytes zero v acc = omega arith
be_value-to_be_bytes (suc w) v acc =
    let p : ℕ = 2 ^ (8 * w) in
    let e : 2 ^ (8 * suc w) ≡ p * 256 =
      ap (λ (k : ℕ). 2 ^ k) (omega arith) ∙ two_pow_add (8 * w) 8 in
    rw (e, be_value-to_be_bytes w v (acc * 256 + v / p % 256), mod_digit v p (two_pow_pos (8 * w)))
      (omega arith)

-- A number that fits `w` bytes comes back from its bytes.
pub from_be_bytes-to_be_bytes : (w v : ℕ) → v < 2 ^ (8 * w) → from_be_bytes (to_be_bytes w v) ≡ v
from_be_bytes-to_be_bytes w v h = rw (be_value-to_be_bytes, mod-eq_of_lt h) (omega arith)
