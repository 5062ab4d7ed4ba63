-- ===== src/Utils/Checked.antt =====
-- Arithmetic of the standard library on `u64`, as the node uses it.
use abc.Prelude.{
  ℕ, ◌+◌, ◌-◌, ◌*◌, ◌^◌, ◌%◌, ◌≡◌, ◌<◌, ap, Option, none, some, List, [], ◌∷◌, arith, ltb, leb,
  if◌then◌else◌,
}

abbrev pub u32_mod : ℕ
u32_mod = 2 ^ 32

abbrev pub u64_mod : ℕ
u64_mod = 2 ^ 64

-- `u64::checked_add`
abbrev pub checked_add : ℕ → ℕ → Option ℕ
checked_add a b = if ltb (a + b) u64_mod then some (a + b) else none

-- `u64::checked_sub`
abbrev pub checked_sub : ℕ → ℕ → Option ℕ
checked_sub a b = if leb b a then some (a - b) else none

-- `u64::checked_mul`
abbrev pub checked_mul : ℕ → ℕ → Option ℕ
checked_mul a b = if ltb (a * b) u64_mod then some (a * b) else none

-- `u64` subtraction as the release build does it.
abbrev pub wrapping_sub64 : ℕ → ℕ → ℕ
wrapping_sub64 a b = (a + u64_mod - b) % u64_mod

abbrev pub wrapping_add64 : ℕ → ℕ → ℕ
wrapping_add64 a b = (a + b) % u64_mod

-- `values.try_fold(acc, u64::checked_add)`
unfoldable pub try_sum : ℕ → List ℕ → Option ℕ
try_sum acc [] = some acc
try_sum acc (v ∷ vs) = elim (checked_add acc v) [ none ↦ none | some s ↦ try_sum s vs ]

-- The sum without a bound.
abbrev pub sum : List ℕ → ℕ
sum [] = 0
sum (v ∷ vs) = v + sum vs

pub try_sum-eq-some : (acc : ℕ) (vs : List ℕ) {s : ℕ} → try_sum acc vs ≡ some s → s ≡ acc + sum vs
unfolding try_sum
try_sum-eq-some acc [] h = ground arith
try_sum-eq-some acc (v ∷ vs) h = grind (arith, try_sum-eq-some (acc + v) vs)

pub try_sum_complete :
    (acc : ℕ) (vs : List ℕ) → acc + sum vs < u64_mod → try_sum acc vs ≡ some (acc + sum vs)
unfolding try_sum
try_sum_complete acc [] h = ap some (omega arith)
try_sum_complete acc (v ∷ vs) h = ground (arith, try_sum_complete (acc + v) vs)
