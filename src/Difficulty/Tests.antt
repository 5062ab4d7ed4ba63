-- ===== src/Difficulty/Tests.antt =====
-- The median of times, and a period of the chain.
use abc.Bytes.{eq_bytes, to_be_bytes, be_value}
use abc.Difficulty.{
  insert_sorted, sort_times, get_time, median, clamp_time, retarget, block_time, recent_times,
  get_median_timestamp, calculate_next_bits,
}
use abc.Difficulty.Bits.{calculate_next_bits_bounds, genesis_target}
use abc.Errors.{ok}
use abc.External.{default, put_cf}
use abc.Prelude.{ℕ, ◌*◌, ◌^◌, ◌≡◌, ◌≤◌, ◌/◌, refl, none, [], ◌∷◌, arith}
use abc.Sample.{sample, MapDb}
use abc.Store.{height_key, block_key, hdr_key, load_block_from_db, load_header}
use abc.Types.{BlockHeader, Block}
use abc.Utils.Compact.{bits_of, mantissa, compact_to_target, leading_digits, target_to_compact}
use abc.Utxo.Write.{write}

program : Unit {0}
unfolding eq_bytes to_be_bytes be_value height_key block_key hdr_key load_block_from_db load_header
    bits_of mantissa compact_to_target leading_digits target_to_compact insert_sorted sort_times
    get_time median clamp_time retarget block_time recent_times get_median_timestamp
    calculate_next_bits
program = tt

median_of_three : median (30 ∷ 10 ∷ 20 ∷ []) ≡ ok 20
unfolding program
median_of_three = refl

abbrev header_at : ℕ → BlockHeader
header_at t = record {
  version = 1;
  prev_hash = [];
  merkle_root = [];
  timestamp = t;
  bits = 0x1c7fffff;
  nonce = 0;
}

abbrev block_at : ℕ → Block
block_at t = record { header = header_at t; txs = [] }

-- The first block of a period, and the last one a day later.
abbrev db : MapDb
db =
    write sample (λ c k. none)
      (put_cf default (height_key 0) (1 ∷ [])
        ∷ put_cf default (block_key (1 ∷ [])) (sample.serialize_block (block_at 1000))
        ∷ put_cf default (height_key 2015) (2 ∷ [])
        ∷ put_cf default (block_key (2 ∷ [])) (sample.serialize_block (block_at 87400))
        ∷ [])

calculate_next_bits_bounds_example :
    (bits r : ℕ) × (calculate_next_bits sample db 2016 ≡ ok bits)
    × (compact_to_target bits ≡ ok r)
    × (r ≤ 0x7fffff * 2 ^ 200 * 4)
    × (r ≤ genesis_target)
    × (0x7fffff * 2 ^ 200 / 4 ≤ 3 * r)
unfolding program
calculate_next_bits_bounds_example =
    calculate_next_bits_bounds sample db 2016 (0x7fffff * 2 ^ 200) 87400 (header_at 1000)
      (header_at 87400) refl refl refl refl refl (omega arith) (omega arith)
