-- ===== src/Prelude/Powers.antt =====
-- Powers of two: sums of exponents, and shifts.
use Prim.Native.Nat.{ℕ, zero, suc, ◌+◌, ◌*◌, ◌^◌, ◌≤◌}
use mathlib.Core.Path.{◌≡◌}
use native.Mathlib.Nat.{add-zero, add-suc, pow-suc, one-le-pow, pow-le-pow_right}
use native.Mathlib.Omega.{arith}

pub two_pow_pos : (k : ℕ) → 1 ≤ 2 ^ k
two_pow_pos k = one-le-pow k 2 (omega arith)

pub two_pow_add : (a b : ℕ) → 2 ^ (a + b) ≡ 2 ^ a * 2 ^ b
two_pow_add a zero = rw add-zero (omega arith)
two_pow_add a (suc b) = rw (add-suc, pow-suc 2 (a + b), two_pow_add a b) (rw pow-suc (omega arith))

pub two_pow_mono : {a b : ℕ} → a ≤ b → 2 ^ a ≤ 2 ^ b
two_pow_mono h = pow-le-pow_right (omega arith) h
