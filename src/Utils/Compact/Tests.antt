-- ===== src/Utils/Compact/Tests.antt =====
-- Round trips of targets on concrete bits.
use abc.Errors.{ok}
use abc.Prelude.{ℕ, ◌+◌, ◌*◌, ◌^◌, ◌≡◌, refl, arith}
use abc.Utils.Compact.{bits_of, compact_to_target, target_to_compact}
use abc.Utils.Compact.RoundTrip.{target_to_compact-compact_to_target}

genesis_target : compact_to_target 0x1d00ffff ≡ ok (0xffff * 2 ^ 208)
unfolding compact_to_target
genesis_target = refl

genesis_again : target_to_compact (0xffff * 2 ^ 208) ≡ 0x1c7fffff
unfolding target_to_compact bits_of
genesis_again = refl

-- `test_compact_target_vectors` expects 0x1d00ffff here.
compact_of_max : target_to_compact (2 ^ 256) ≡ 0x21010000
unfolding target_to_compact bits_of
compact_of_max = refl

small : target_to_compact 0xff ≡ 0x0200ff00
unfolding target_to_compact bits_of
small = refl

abbrev bits : ℕ
bits = 0x123456 + (5 + 3) * 2 ^ 24

target_to_compact-compact_to_target_example :
    (t : ℕ) × (compact_to_target bits ≡ ok t) × (target_to_compact t ≡ bits)
target_to_compact-compact_to_target_example =
    target_to_compact-compact_to_target 0x123456 5 (omega arith) (omega arith) (omega arith)
