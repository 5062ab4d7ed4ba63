-- ===== src/Utils/Subsidy/Tests.antt =====
-- Values of the reward.
use abc.Prelude.{◌≡◌, refl}
use abc.Utils.Subsidy.{subsidy}

second_period : subsidy 2_100_000 ≡ 5_000_000_000
unfolding subsidy
second_period = refl
