-- ===== src/Utils/Compact/RoundTrip.antt =====
-- What the compact form keeps of a target.
use native.Mathlib.Nat.{
  le_trans, lt-div-mul-add, le-div_iff_mul-le, mul-div_cancel, mul-le-mul_right, div-mul-le_self,
  div-lt_iff_lt-mul,
}
use native.Mathlib.Decide.{dec_lt}
use abc.Prelude.{ap, ◌∙◌, ℕ, zero, suc, ◌+◌, ◌-◌, ◌*◌, ◌/◌, ◌^◌, ◌≤◌, ◌<◌, ◌≡◌, min, arith}
use abc.Prelude.Powers.{two_pow_pos, two_pow_add, two_pow_mono}
use abc.Errors.{ok}
use abc.Utils.Compact.{byte_size, mantissa, compact_to_target, target_to_compact}
use abc.Utils.Compact.Size.{byte_size_lem, lt-byte_size, byte_size-le, byte_size_pos}

mantissa_lem : (m e : ℕ) → m < 2 ^ 24 → mantissa (m + e * 2 ^ 24) ≡ m
unfolding mantissa
mantissa_lem m e h = ground arith

-- A mantissa of 24 bits and an exponent from 3 to 80.
decode_lem :
    (m k : ℕ)
    → m < 2 ^ 24
    → k ≤ 77
    → compact_to_target (m + (k + 3) * 2 ^ 24) ≡ ok (m * 2 ^ (8 * k))
unfolding compact_to_target
decode_lem m zero hm hk = ground (arith, mantissa_lem m 3 hm)
decode_lem m (suc k) hm hk =
    let exp : (m + (suc k + 3) * 2 ^ 24) / 2 ^ 24 ≡ suc k + 3 = omega arith in
    let shift : suc k + 3 - 3 ≡ suc k = omega arith in
    rw (exp, mantissa_lem m (suc k + 3) hm, shift) (ground arith)

quotient-lt : (t k : ℕ) → t < 2 ^ (8 * k + 24) → t / 2 ^ (8 * k) < 2 ^ 24
quotient-lt t k h = (div-lt_iff_lt-mul (two_pow_pos (8 * k))).1 (
    let e : 2 ^ (8 * k + 24) ≡ 2 ^ (8 * k) * 2 ^ 24 = two_pow_add (8 * k) 24 in omega (arith, e, h))

encode_at :
    (t k : ℕ)
    → 0 < t
    → k ≤ 77
    → byte_size t ≡ k + 3
    → t / 2 ^ (8 * k) < 2 ^ 24
    → target_to_compact t ≡ min (t / 2 ^ (8 * k)) 0x7fffff + (k + 3) * 2 ^ 24
unfolding target_to_compact
encode_at t zero pos hk size q = rw size (ground arith)
encode_at t (suc k) pos hk size q =
    let shift : suc k + 3 - 3 ≡ suc k = omega arith in rw (size, shift) (ground arith)

-- A target of 3 to 80 bytes.
encode_lem :
    (t k : ℕ)
    → k ≤ 77
    → 2 ^ (8 * k + 16) ≤ t
    → t < 2 ^ (8 * k + 24)
    → target_to_compact t ≡ min (t / 2 ^ (8 * k)) 0x7fffff + (k + 3) * 2 ^ 24
encode_lem t k hk lo hi =
    let e : 8 * (k + 2) ≡ 8 * k + 16 = omega arith in
    let e' : 8 * (k + 2) + 8 ≡ 8 * k + 24 = omega arith in
    let size : byte_size t ≡ k + 2 + 1 = byte_size_lem t (k + 2) (rw e lo) (rw e' hi) in
    encode_at t k (omega (arith, two_pow_pos (8 * k + 16))) hk (omega (arith, size))
      (quotient-lt t k hi)

scaled_bounds :
    (m k j : ℕ)
    → 2 ^ j ≤ m
    → m < 2 ^ 24
    → (2 ^ (8 * k + j) ≤ m * 2 ^ (8 * k)) × (m * 2 ^ (8 * k) < 2 ^ (8 * k + 24))
scaled_bounds m k j lo hi =
    let p : ℕ = 2 ^ (8 * k) in
    rw (two_pow_add (8 * k) j, two_pow_add (8 * k) 24)
      (
        omega (arith, mul-le-mul_right p lo),
        omega (arith, mul-le-mul_right p hi, two_pow_pos (8 * k)),
      )

-- A compact form whose mantissa has its top byte set and its sign bit clear comes back from the
-- target that it stands for: exponents 3 to 80.
pub target_to_compact-compact_to_target :
    (m k : ℕ)
    → 2 ^ 16 ≤ m
    → m < 2 ^ 23
    → k ≤ 77
    → let bits = m + (k + 3) * 2 ^ 24 in
      (t : ℕ) × (compact_to_target bits ≡ ok t) × (target_to_compact t ≡ bits)
target_to_compact-compact_to_target m k lo hi hk =
    let (low, high) = scaled_bounds m k 16 lo (omega arith) in
    (
      m * 2 ^ (8 * k),
      decode_lem m k (omega arith) hk,
      rw (encode_lem (m * 2 ^ (8 * k)) k hk low high, mul-div_cancel m (two_pow_pos (8 * k)))
          (omega arith),
    )

-- Where the mantissa of a compact form has two bytes and its second byte's top bit set, as that of
-- the genesis block has, the compact form of its target is another one, and stands for a smaller
-- target: the clamp to 23 bits comes before the test of the sign bit.
pub target_to_compact_clamps :
    (m k : ℕ)
    → 2 ^ 15 ≤ m
    → m < 2 ^ 16
    → k ≤ 76
    → (t t' : ℕ) × (compact_to_target (m + (k + 1 + 3) * 2 ^ 24) ≡ ok t)
      × (target_to_compact t ≡ 0x7fffff + (k + 3) * 2 ^ 24)
      × (compact_to_target (target_to_compact t) ≡ ok t')
      × (t' < t)
target_to_compact_clamps m k lo hi hk =
    let p : ℕ = 2 ^ (8 * k) in
    let t : ℕ = m * 256 * p in
    let shift : 2 ^ (8 * (k + 1)) ≡ p * 256 =
      ap (λ (e : ℕ). 2 ^ e) (omega arith) ∙ two_pow_add (8 * k) 8 in
    let (low, high) = scaled_bounds (m * 256) k 23 (omega arith) (omega arith) in
    let encoded : target_to_compact t ≡ 0x7fffff + (k + 3) * 2 ^ 24 =
      rw
        (
          encode_lem t k (omega arith) (le_trans (two_pow_mono {a = 8 * k + 16} (omega arith)) low)
              high,
          mul-div_cancel (m * 256) (two_pow_pos (8 * k)),
        )
        (omega arith) in
    let smaller : 8388608 * p ≤ t = mul-le-mul_right p (omega arith) in
    (
      t,
      0x7fffff * p,
      rw (decode_lem m (k + 1) (omega arith) (omega arith), shift) (ap ok (omega arith)),
      encoded,
      rw encoded (decode_lem 0x7fffff k (omega arith) (omega arith)),
      omega (arith, smaller, two_pow_pos (8 * k)),
    )

clamped_product : (q p t : ℕ) → q * p ≤ t → min q 0x7fffff * p ≤ t
clamped_product q p t h = le_trans (mul-le-mul_right p (omega arith)) h

clamped_product_third :
    (q p t : ℕ) → 1 ≤ q → t < q * p + p → t < p * 2 ^ 24 → t ≤ 3 * (min q 0x7fffff * p)
clamped_product_third q p t pos h h' = elim (dec_lt q 0x7fffff) [
  | yes small ↦
      let e : min q 0x7fffff ≡ q = omega arith in
      let one : 1 * p ≤ q * p = mul-le-mul_right p pos in rw e (omega (arith, one))
  | no large ↦ let e : min q 0x7fffff ≡ 0x7fffff = omega arith in rw e (omega arith)
]

encode_small : (t : ℕ) → byte_size t < 3 → 0 < t → compact_to_target (target_to_compact t) ≡ ok t
unfolding compact_to_target target_to_compact
encode_small t h pos = elim (dec_lt (byte_size t) 2) [
  | yes one ↦
      let size : byte_size t ≡ 1 = omega (arith, byte_size_pos t pos) in
      let bound : t < 2 ^ (8 * 1) = rw size at (lt-byte_size t) in rw size (ground arith)
  | no two ↦
      let size : byte_size t ≡ 2 = omega arith in
      let bound : t < 2 ^ (8 * 2) = rw size at (lt-byte_size t) in rw size (ground arith)
]

-- The compact form of a target of at most 80 bytes stands for no larger a target, and for at
-- least a third of it.
pub target_to_compact_bounds :
    (t : ℕ)
    → 0 < t
    → byte_size t ≤ 80
    → (r : ℕ) × (compact_to_target (target_to_compact t) ≡ ok r) × (r ≤ t) × (t ≤ 3 * r)
target_to_compact_bounds t pos h = elim (dec_lt (byte_size t) 3) [
  | yes small ↦ (t, encode_small t small pos, omega arith, omega arith)
  | no large ↦
      let k : ℕ = byte_size t - 3 in
      let p : ℕ = 2 ^ (8 * k) in
      let q : ℕ = t / p in
      let size : byte_size t ≡ k + 3 = omega arith in
      let bound : t < 2 ^ (8 * k + 24) =
        rw (let e : 8 * k + 24 ≡ 8 * byte_size t = omega arith in e) (lt-byte_size t) in
      let encoded : target_to_compact t ≡ min q 0x7fffff + (k + 3) * 2 ^ 24 =
        encode_at t k pos (omega arith) size (quotient-lt t k bound) in
      let least : p ≤ t = elim (dec_lt t p) [
        | yes short ↦ absurd (omega (arith, byte_size-le t k short))
        | no long ↦ omega arith
      ] in
      (
        min q 0x7fffff * p,
        rw encoded (decode_lem (min q 0x7fffff) k (omega arith) (omega arith)),
        clamped_product q p t (div-mul-le_self t p),
        clamped_product_third q p t
            ((le-div_iff_mul-le (two_pow_pos (8 * k))).1 (omega (arith, least)))
            (lt-div-mul-add (two_pow_pos (8 * k))) (rw two_pow_add at bound),
      )
]
