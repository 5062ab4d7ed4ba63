-- ===== src/Utils/Constants.antt =====
-- 111/src/utils.rs: the constants that the other modules use.
use abc.Prelude.{ℕ, ◌*◌, ◌^◌}

abbrev pub max_block_size : ℕ
max_block_size = 4_000_000

abbrev pub coinbase_maturity : ℕ
coinbase_maturity = 100

abbrev pub halving_interval : ℕ
halving_interval = 2_100_000

abbrev pub difficulty_adjust_interval : ℕ
difficulty_adjust_interval = 2016

abbrev pub target_block_time : ℕ
target_block_time = 60

abbrev pub expected_time : ℕ
expected_time = target_block_time * difficulty_adjust_interval

abbrev pub prune_depth : ℕ
prune_depth = 10080

abbrev pub reorg_max_depth : ℕ
reorg_max_depth = 2016

abbrev pub min_fee_per_byte : ℕ
min_fee_per_byte = 10

abbrev pub max_ring_size : ℕ
max_ring_size = 20

abbrev pub max_package_depth : ℕ
max_package_depth = 50

abbrev pub max_package_size : ℕ
max_package_size = 1_000_000

abbrev pub initial_subsidy : ℕ
initial_subsidy = 10_000_000_000

abbrev pub tail_subsidy : ℕ
tail_subsidy = 500_000_000

abbrev pub max_subsidy_halvings : ℕ
max_subsidy_halvings = 64

abbrev pub anon_fee_multiplier_numerator : ℕ
anon_fee_multiplier_numerator = 3

abbrev pub anon_fee_multiplier_denominator : ℕ
anon_fee_multiplier_denominator = 2

abbrev pub two_pow_256 : ℕ
two_pow_256 = 2 ^ 256

-- In milliseconds.
abbrev pub orphan_ttl : ℕ
orphan_ttl = 3_600_000

abbrev pub genesis_timestamp : ℕ
genesis_timestamp = 1732060800
