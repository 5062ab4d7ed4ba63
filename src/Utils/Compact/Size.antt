-- ===== src/Utils/Compact/Size.antt =====
-- `byte_size` is the number of bytes of a number.
use native.Mathlib.Nat.{pow-suc, le_trans}
use abc.Prelude.{ℕ, zero, suc, ◌+◌, ◌*◌, ◌/◌, ◌^◌, ◌≤◌, ◌<◌, ◌≡◌, ◌==◌, Bool-cases, inl, inr, arith}
use abc.Prelude.Powers.{two_pow_pos, two_pow_mono}
use abc.Utils.Compact.{bits_of, byte_size, bits_fuel}

bits_fuel-le : (f n k : ℕ) → n < 2 ^ k → bits_fuel f n ≤ k
unfolding bits_fuel
bits_fuel-le zero n k h = omega arith
bits_fuel-le (suc f) n zero h = ground arith
bits_fuel-le (suc f) n (suc k) h =
    let h' : n < 2 ^ k * 2 = rw (← pow-suc 2 k) h in
    ground (arith, bits_fuel-le f (n / 2) k (omega arith))

bits_fuel-gt : (f n k : ℕ) → n ≤ f → 2 ^ k ≤ n → k < bits_fuel f n
unfolding bits_fuel
bits_fuel-gt zero n k p h = absurd (omega (arith, two_pow_pos k))
bits_fuel-gt (suc f) n zero p h = ground arith
bits_fuel-gt (suc f) n (suc k) p h =
    let h' : 2 ^ k * 2 ≤ n = rw (← pow-suc 2 k) h in
    ground
      (arith, two_pow_pos k, bits_fuel-gt f (n / 2) k (omega (arith, two_pow_pos k)) (omega arith))

-- A number of `s + 1` bytes.
pub byte_size_lem : (t s : ℕ) → 2 ^ (8 * s) ≤ t → t < 2 ^ (8 * s + 8) → byte_size t ≡ s + 1
unfolding bits_of
byte_size_lem t s lo hi =
    omega (arith, bits_fuel-le t t (8 * s + 8) hi, bits_fuel-gt t t (8 * s) (omega arith) lo)

lt-bits_fuel : (f n : ℕ) → n ≤ f → n < 2 ^ bits_fuel f n
unfolding bits_fuel
lt-bits_fuel zero n p = omega arith
lt-bits_fuel (suc f) n p = elim (Bool-cases (n == 0)) [
  | inl z ↦ rw (z, bits_fuel) (ground arith)
  | inr nz ↦
      let half : n / 2 < 2 ^ bits_fuel f (n / 2) = lt-bits_fuel f (n / 2) (ground arith) in
      rw (nz, bits_fuel) (rw pow-suc (omega (arith, half)))
]

-- A number is below the power of 256 that its size says.
pub lt-byte_size : (t : ℕ) → t < 2 ^ (8 * byte_size t)
unfolding bits_of
lt-byte_size t =
    le_trans (lt-bits_fuel t t (omega arith)) (two_pow_mono {a = bits_fuel t t} (omega arith))

pub byte_size-le : (t s : ℕ) → t < 2 ^ (8 * s) → byte_size t ≤ s
unfolding bits_of
byte_size-le t s h = omega (arith, bits_fuel-le t t (8 * s) h)

pub byte_size_pos : (t : ℕ) → 0 < t → 0 < byte_size t
unfolding bits_of
byte_size_pos t h = omega (arith, bits_fuel-gt t t 0 (omega arith) (omega arith))
