-- ===== src/Difficulty/Bits.antt =====
-- The target of the next bits, against that of the block before.
use abc.Prelude.{ℕ, ◌*◌, ◌%◌, ◌^◌, ◌≡◌, refl, arith, leb, if◌then◌else◌, ◌+◌, ◌-◌, ◌≤◌, ◌/◌}
use abc.Errors.{ok}
use abc.Difficulty.Retarget.{retarget_bounds}
use abc.Utils.Compact.{mantissa, compact_to_target, target_to_compact}
use abc.Utils.Compact.Size.{byte_size-le}
use abc.Utils.Compact.RoundTrip.{target_to_compact_bounds}
use abc.Types.{BlockHeader}
use abc.External.{External}
use abc.Store.{load_header}
use abc.Difficulty.{retarget, calculate_next_bits, get_median_timestamp}
use abc.Utils.Checked.{u32_mod, wrapping_sub64}
use abc.Utils.Constants.{difficulty_adjust_interval}

abbrev pub genesis_target : ℕ
genesis_target = 0xffff * 2 ^ 208

compact_to_target-genesis : compact_to_target 0x1d00ffff ≡ ok genesis_target
unfolding compact_to_target mantissa
compact_to_target-genesis = refl

module _ (x : External) where
  open x use {Db}

  -- At a height where the bits are adjusted, when the headers of the period and the times of the
  -- last blocks can be read and the old target is at least 4 and not above that of the genesis
  -- block: there are next bits, they encode a target, it is at most four times the old one and not
  -- above that of the genesis block, and a quarter of the old one is at most three times it.
  pub calculate_next_bits_bounds :
      (db : Db) (height old m : ℕ) (start last : BlockHeader)
      → height % difficulty_adjust_interval ≡ 0
      → load_header x db (wrapping_sub64 height difficulty_adjust_interval) ≡ ok start
      → load_header x db (wrapping_sub64 height 1) ≡ ok last
      → compact_to_target last.bits ≡ ok old
      → get_median_timestamp x db (wrapping_sub64 height 1) ≡ ok m
      → 4 ≤ old
      → old ≤ genesis_target
      → (bits r : ℕ) × (calculate_next_bits x db height ≡ ok bits)
        × (compact_to_target bits ≡ ok r)
        × (r ≤ old * 4)
        × (r ≤ genesis_target)
        × (old / 4 ≤ 3 * r)
  unfolding calculate_next_bits
  calculate_next_bits_bounds db height old m start last turn first loaded target times lo hi =
      let time = (last.timestamp + u32_mod - start.timestamp) % u32_mod in
      let (quarter, four, genesis) = retarget_bounds genesis_target old time hi in
      let n : ℕ = if leb last.timestamp m then old else retarget genesis_target old time in
      let n-lo : old / 4 ≤ n = ground arith in
      let n-hi : n ≤ old * 4 = ground arith in
      let n-genesis : n ≤ genesis_target = ground arith in
      let (r, decodes, below, above) =
        target_to_compact_bounds n (omega arith) (byte_size-le n 80 (omega arith)) in
      (
        target_to_compact n,
        r,
        rw turn (rw (first, loaded, target, compact_to_target-genesis, times) refl),
        decodes,
        omega arith,
        omega arith,
        omega arith,
      )
