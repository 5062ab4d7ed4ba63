-- ===== src/Difficulty/Retarget.antt =====
-- The bounds of a new target.
use native.Mathlib.Nat.{mul-le-mul_left}
use abc.Prelude.{ℕ, ◌*◌, ◌/◌, ◌≤◌, ◌≡◌, arith}
use abc.Difficulty.{clamp_time, retarget}
use abc.Utils.Constants.{expected_time}

-- The time that counts is at least a quarter and at most four times the expected one.
clamp_time_bounds :
    (t : ℕ) → (expected_time / 4 ≤ clamp_time t) × (clamp_time t ≤ expected_time * 4)
unfolding clamp_time
clamp_time_bounds t = (ground arith, ground arith)

-- From an old target below that of the genesis block, the new target is at least a quarter of it,
-- at most four times it, and not above that of the genesis block.
pub retarget_bounds :
    (genesis old t : ℕ)
    → old ≤ genesis
    → (old / 4 ≤ retarget genesis old t)
      × (retarget genesis old t ≤ old * 4)
      × (retarget genesis old t ≤ genesis)
unfolding retarget
retarget_bounds genesis old t h = (ground arith, ground arith, ground arith)

-- A period of the expected length leaves the target as it is.
pub retarget_on_time : (genesis old : ℕ) → old ≤ genesis → retarget genesis old expected_time ≡ old
unfolding retarget clamp_time
retarget_on_time genesis old h = ground arith

clamp_time_mono : (s t : ℕ) → s ≤ t → clamp_time s ≤ clamp_time t
unfolding clamp_time
clamp_time_mono s t h = ground arith

-- The longer the period took, the easier the next one is.
pub retarget_mono : (genesis old s t : ℕ) → s ≤ t → retarget genesis old s ≤ retarget genesis old t
unfolding retarget
retarget_mono genesis old s t h =
    let scaled : old * clamp_time s ≤ old * clamp_time t =
      mul-le-mul_left old (clamp_time_mono s t h) in
    ground arith
