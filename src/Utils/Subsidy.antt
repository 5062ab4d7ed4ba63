-- ===== src/Utils/Subsidy.antt =====
-- 111/src/utils.rs `subsidy`, and the sums of it that the supply checks of 111/src/chain.rs take.
pub mod Bounds
mod Tests
use abc.Prelude.{ℕ, zero, suc, ◌+◌, ◌/◌, ◌≤◌, ◌≡◌, leb, if◌then◌else◌}
use abc.Utils.Constants.{halving_interval, max_subsidy_halvings, tail_subsidy, initial_subsidy}

-- `x >> k`, bit by bit.
unfoldable pub shr : ℕ → ℕ → ℕ
shr x zero = x
shr x (suc k) = shr x k / 2

-- `checked_shr` fails at 64 bits only, which the test before it rules out.
unfoldable pub subsidy : ℕ → ℕ
unfolding shr
subsidy height =
    let halvings = height / halving_interval in
    if leb max_subsidy_halvings halvings then tail_subsidy else shr initial_subsidy halvings

-- `for h in 0..n { total += subsidy(h) }`, without a bound.
unfoldable pub calculated_supply : ℕ → ℕ
calculated_supply zero = 0
calculated_supply (suc n) = calculated_supply n + subsidy n
