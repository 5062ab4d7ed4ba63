-- ===== src/Utils/Compact.antt =====
-- 111/src/utils.rs `compact_to_target` and `target_to_compact`: the 32-bit form of a target. A
-- `BigUint` is a natural number.
pub mod Size
pub mod RoundTrip
mod Tests
use abc.Prelude.{
  ℕ, zero, suc, ◌+◌, ◌-◌, ◌*◌, ◌/◌, ◌%◌, ◌^◌, min, true, false, ltb, leb, ◌==◌, if◌then◌else◌,
}
use abc.Errors.{Result, ok, err, invalid_block}
use abc.Utils.Checked.{u32_mod}

bits_fuel : ℕ → ℕ → ℕ
bits_fuel zero n = 0
bits_fuel (suc f) n = elim (n == 0) [ true ↦ 0 | false ↦ suc (bits_fuel f (n / 2)) ]

-- `BigUint::bits`: the number of binary digits. `n` halvings always reach 0.
unfoldable pub bits_of : ℕ → ℕ
unfolding bits_fuel
bits_of n = bits_fuel n n

-- `(target.bits() + 7) / 8`
abbrev pub byte_size : ℕ → ℕ
byte_size target = (bits_of target + 7) / 8

-- `bits & 0x007fffff`, and bit 23 added back if it is set.
unfoldable pub mantissa : ℕ → ℕ
mantissa bits = let mant = bits % 2 ^ 23 in if bits / 2 ^ 23 % 2 == 1 then mant + 2 ^ 23 else mant

-- The body ends in `bail!`, though its type has no error: the error is kept as one.
unfoldable pub compact_to_target : ℕ → Result ℕ
unfolding mantissa
compact_to_target bits =
    if bits == 0
    then ok 0
    else let exp = bits / 2 ^ 24 in
      if ltb 80 exp
      then err (invalid_block "target exponent too large")
      else let mant = mantissa bits in
        ok (
          if ltb 3 exp
          then mant * 2 ^ (8 * (exp - 3))
          else if ltb exp 3
          then mant / 2 ^ (8 * (3 - exp))
          else mant)

-- The lowest 32-bit digit, clamped to 23 bits.
abbrev pub clamped_digit : ℕ → ℕ
clamped_digit target = min (target % u32_mod) 0x007fffff

-- The mantissa before its sign bit is looked at.
unfoldable pub leading_digits : ℕ → ℕ → ℕ
leading_digits target size =
    if leb size 3
    then (clamped_digit target * 2 ^ (8 * (3 - size))) % u32_mod
    else clamped_digit (target / 2 ^ (8 * (size - 3)))

unfoldable pub target_to_compact : ℕ → ℕ
unfolding leading_digits
target_to_compact target =
    if target == 0
    then 0x1d00ffff
    else let size = byte_size target in
      if ltb 80 size
      then 0x1d00ffff
      else let compact = leading_digits target size in
        if compact / 2 ^ 23 % 2 == 1
        then compact / 2 ^ 8 + (size + 1) * 2 ^ 24
        else compact + size * 2 ^ 24
