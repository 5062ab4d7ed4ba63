-- ===== src/Utils/Subsidy/Bounds.antt =====
-- How the block reward falls, and what it adds up to.
use native.Mathlib.Nat.{mul-le-mul_right}
use abc.Prelude.{ℕ, zero, suc, ◌+◌, ◌-◌, ◌*◌, ◌/◌, ◌%◌, ◌^◌, ◌≤◌, ◌<◌, ◌≡◌, ◌⊎◌, inl, inr, arith}
use native.Mathlib.Nat.{add-zero, add-suc}
use native.Mathlib.Decide.{dec_lt}
use abc.Utils.Constants.{halving_interval, max_subsidy_halvings, tail_subsidy, initial_subsidy}
use abc.Utils.Subsidy.{shr, subsidy, calculated_supply}

shr-suc-le : (x k : ℕ) → shr x (suc k) * 2 ≤ shr x k
unfolding shr
shr-suc-le x k = omega arith

shr_antitone : (x j d : ℕ) → shr x (j + d) ≤ shr x j
shr_antitone x j zero = rw add-zero (omega arith)
shr_antitone x j (suc d) = rw add-suc (omega (arith, shr-suc-le x (j + d), shr_antitone x j d))

-- Before height 134,400,000, where the tail begins, the reward never rises with the height.
pub subsidy_antitone :
    (h k : ℕ) → h ≤ k → k < max_subsidy_halvings * halving_interval → subsidy k ≤ subsidy h
unfolding subsidy
subsidy_antitone h k p q =
    let j : ℕ = h / halving_interval in
    let d : ℕ = k / halving_interval - j in
    let e : k / halving_interval ≡ j + d = omega arith in
    rw e (ground (arith, shr_antitone initial_subsidy j d))

-- One block of a period, and the first block of the next.
same_period :
    (t s r b : ℕ) → t + 4_200_000 * s ≤ b + r * s → t + s + 4_200_000 * s ≤ b + (r + 1) * s
same_period t s r b h = omega arith

next_period :
    (t s s' b : ℕ)
    → t + 4_200_000 * s ≤ b + 2_099_999 * s
    → s' * 2 ≤ s
    → t + s + 4_200_000 * s' ≤ b + 0 * s'
next_period t s s' b h k = omega arith

subsidy_before_tail :
    (n : ℕ)
    → n < max_subsidy_halvings * halving_interval
    → subsidy n ≡ shr initial_subsidy (n / halving_interval)
unfolding subsidy
subsidy_before_tail n p = ground arith

-- What is paid so far, and what two full periods at the present rate would add.
supply_potential :
    (n : ℕ)
    → n ≤ max_subsidy_halvings * halving_interval
    → calculated_supply n + 4_200_000 * shr initial_subsidy (n / halving_interval)
      ≤ 2 * halving_interval * initial_subsidy
        + n % halving_interval * shr initial_subsidy (n / halving_interval)
unfolding calculated_supply
supply_potential zero p = unfold shr in omega arith
supply_potential (suc n) p =
    let j : ℕ = n / halving_interval in
    let s : ℕ = shr initial_subsidy j in
    let t : ℕ = calculated_supply n in
    let b : ℕ = 2 * halving_interval * initial_subsidy in
    let before : t + 4_200_000 * s ≤ b + n % halving_interval * s =
      supply_potential n (omega arith) in
    rw (subsidy_before_tail n p) (elim (dec_lt (n % halving_interval) 2_099_999) [
      | yes q ↦
          let same : suc n / halving_interval ≡ j = omega arith in
          let on : suc n % halving_interval ≡ n % halving_interval + 1 = omega arith in
          rw (same, on) (same_period t s (n % halving_interval) b before)
      | no q ↦
          let up : suc n / halving_interval ≡ suc j = omega arith in
          let on : suc n % halving_interval ≡ 0 = omega arith in
          let last : n % halving_interval ≡ 2_099_999 = omega arith in
          rw (up, on)
            (next_period t s (shr initial_subsidy (suc j)) b (rw last at before)
              (shr-suc-le initial_subsidy j))
    ])

-- Up to the tail, the rewards of the first `n` heights add up to at most twice what the first
-- period pays, so their sum fits a `u64`.
pub calculated_supply-lt :
    (n : ℕ)
    → n ≤ max_subsidy_halvings * halving_interval
    → (calculated_supply n ≤ 2 * halving_interval * initial_subsidy)
      × (calculated_supply n < 2 ^ 64)
calculated_supply-lt n p =
    let r : ℕ = n % halving_interval in
    let s : ℕ = shr initial_subsidy (n / halving_interval) in
    let small : r * s ≤ 4_200_000 * s = mul-le-mul_right s (omega arith) in
    let bound : calculated_supply n ≤ 2 * halving_interval * initial_subsidy =
      omega (arith, supply_potential n p, small) in
    (bound, omega (arith, bound))

-- From the 34th halving, height 71,400,000, to the tail at 134,400,000 nothing is paid at all;
-- from there on every block pays the tail reward.
pub subsidy_gap_and_tail :
    (h : ℕ)
    → 34 * halving_interval ≤ h
    → ((h < max_subsidy_halvings * halving_interval) × (subsidy h ≡ 0))
      ⊎ ((max_subsidy_halvings * halving_interval ≤ h) × (subsidy h ≡ tail_subsidy))
unfolding subsidy shr
subsidy_gap_and_tail h p = elim (dec_lt h (max_subsidy_halvings * halving_interval)) [
  | yes q ↦ inl (q, omega (arith, subsidy_antitone (34 * halving_interval) h p q))
  | no q ↦ inr (omega arith, ground arith)
]
