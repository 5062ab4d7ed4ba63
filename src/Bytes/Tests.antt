-- ===== src/Bytes/Tests.antt =====
-- Bytes of small numbers.
use abc.Bytes.{Bytes, to_be_bytes, to_le_bytes, from_be_bytes}
use abc.Bytes.Laws.{from_be_bytes-to_be_bytes}
use abc.Prelude.{◌≡◌, refl, arith, [], ◌∷◌}

big_endian : to_be_bytes 4 0x0102_03ff ≡ 1 ∷ 2 ∷ 3 ∷ 255 ∷ []
unfolding to_be_bytes
big_endian = refl

little_endian : to_le_bytes 3 0x0102_03 ≡ 3 ∷ 2 ∷ 1 ∷ []
unfolding to_le_bytes
little_endian = refl

from_be_bytes-to_be_bytes_example : from_be_bytes (to_be_bytes 4 70000) ≡ 70000
from_be_bytes-to_be_bytes_example = from_be_bytes-to_be_bytes 4 70000 (omega arith)

abbrev short_id : Bytes
short_id = 5 ∷ 6 ∷ []
