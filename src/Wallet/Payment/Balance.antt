-- ===== src/Wallet/Payment/Balance.antt =====
-- 111/src/main.rs `Wallet::create_tx`: what the outputs of a payment add up to.
use abc.Errors.{◌>>◌, bail_if, anyhow, ok}
use abc.Prelude.{
  ℕ, zero, suc, ◌+◌, ◌*◌, ◌%◌, ◌^◌, ◌≤◌, ◌<◌, ◌≡◌, refl, ap, ◌∙◌, List, [], ◌∷◌, length, leb, ltb,
  arith, Bool-cases, inl, inr,
}
use abc.Utils.Checked.{u64_mod, wrapping_add64, wrapping_sub64}
use abc.Wallet.{Utxo}
use abc.Wallet.Payment.{
  insert_by_value, sort_by_value, select, settle_fee, first_fee, next_fee, Plan, make_plan,
  outputs_count,
}
use native.Mathlib.Nat.{le_trans, mod-le, mul-le-mul_right}

abbrev pub total : List Utxo → ℕ
total [] = 0
total (u ∷ us) = u.value + total us

insert_by_value-total :
    (u : Utxo) (us : List Utxo) → total (insert_by_value u us) ≡ u.value + total us
unfolding insert_by_value
insert_by_value-total u [] = refl
insert_by_value-total u (v ∷ vs) = ground (arith, insert_by_value-total u vs)

length-insert_by_value : (u : Utxo) (us : List Utxo) → length (insert_by_value u us) ≡ length us + 1
unfolding insert_by_value
length-insert_by_value u [] = refl
length-insert_by_value u (v ∷ vs) = ground (arith, length-insert_by_value u vs)

sort_by_value-total : (us : List Utxo) → total (sort_by_value us) ≡ total us
unfolding sort_by_value
sort_by_value-total [] = refl
sort_by_value-total (u ∷ us) =
    insert_by_value-total u (sort_by_value us) ∙ ap (λ n. u.value + n) (sort_by_value-total us)

length-sort_by_value : (us : List Utxo) → length (sort_by_value us) ≡ length us
unfolding sort_by_value
length-sort_by_value [] = refl
length-sort_by_value (u ∷ us) =
    let longer = length-insert_by_value u (sort_by_value us) in
    let same = length-sort_by_value us in omega arith

select-total :
    (enough s : ℕ) (us : List Utxo)
    → s + total us < 2 ^ 64
    → ((select enough s us).1 ≡ s + total (select enough s us).0)
      × (length (select enough s us).0 ≤ length us)
      × (total (select enough s us).0 ≤ total us)
unfolding select
select-total enough s [] h = (omega arith, omega arith, omega arith)
select-total enough s (u ∷ us) h =
    let small : wrapping_add64 s u.value ≡ s + u.value = omega arith in
    let (rest, shorter, less) = select-total enough (s + u.value) us (omega arith) in
    elim (Bool-cases (leb enough (s + u.value))) [
      | inl done ↦ rw (small, done) (omega arith, omega arith, omega arith)
      | inr more ↦ rw (small, more) (rest ∙ omega arith, omega arith, omega arith)
    ]

fee_le : (a b rate : ℕ) → a ≤ b → a * rate % u64_mod ≤ b * rate
fee_le a b rate h = le_trans (mod-le (a * rate) u64_mod) (mul-le-mul_right rate h)

settle_fee-le :
    (turns n rate left fee : ℕ)
    → fee ≤ (n * 110 + 94) * rate
    → settle_fee turns n rate left fee ≤ (n * 110 + 94) * rate
unfolding settle_fee
settle_fee-le zero n rate left fee h = h
settle_fee-le (suc turns) n rate left fee h =
    let change = wrapping_sub64 left fee in
    let next =
      fee_le (26 + n * 106 + outputs_count change * 34 + n * 4) (n * 110 + 94) rate
        (ground arith) in
    let rest = settle_fee-le turns n rate left (next_fee n rate change) next in
    ground (arith, rest, h)

-- A plan pays the amount and the fee from what its inputs are worth.
unfoldable pub Affords : ℕ → Plan → Type 0
Affords amount p =
    (p.input_sum ≡ total p.inputs) × (amount + p.fee ≤ p.input_sum) × (p.input_sum < 2 ^ 64)

checked_plan :
    (amount : ℕ) (inputs : List Utxo) (input_sum fee : ℕ) (p : Plan)
    → input_sum ≡ 0 + total inputs
    → amount + fee < 2 ^ 64
    → input_sum < 2 ^ 64
    → (bail_if (ltb input_sum amount) (anyhow "Insufficient funds")
        >> (bail_if
              (ltb input_sum (wrapping_add64 amount fee))
              (anyhow "Insufficient funds (fees included)")
            >> ok (record { inputs = inputs; input_sum = input_sum; fee = fee })))
      ≡ ok p
    → Affords amount p
unfolding Affords
checked_plan amount inputs input_sum fee p sums small fits h =
    let whole : wrapping_add64 amount fee ≡ amount + fee = omega arith in
    ground (arith, h, sums, whole, fits)

pub make_plan-Affords :
    (amount fee_rate : ℕ) (utxos : List Utxo) (p : Plan)
    → total utxos < 2 ^ 64
    → amount + (length utxos * 110 + 94) * fee_rate < 2 ^ 64
    → make_plan amount fee_rate utxos ≡ ok p
    → Affords amount p
unfolding make_plan Affords
make_plan-Affords amount fee_rate utxos p small cheap h =
    let sorted = sort_by_value utxos in
    let enough = wrapping_add64 amount 100_000 in
    let same = sort_by_value-total utxos in
    let (sums, shorter, less) = select-total enough 0 sorted (omega (arith, same)) in
    let n = length (select enough 0 sorted).0 in
    let fewer = length-sort_by_value utxos in
    let left = wrapping_sub64 (select enough 0 sorted).1 amount in
    let bounded =
      settle_fee-le 20 n fee_rate left (first_fee n fee_rate)
        (fee_le (n * 106 + 26 + 34) (n * 110 + 94) fee_rate (omega arith)) in
    let most =
      mul-le-mul_right {m = n * 110 + 94} {n = length utxos * 110 + 94} fee_rate
        (omega (arith, shorter, fewer)) in
    checked_plan amount (select enough 0 sorted).0 (select enough 0 sorted).1
      (settle_fee 20 n fee_rate left (first_fee n fee_rate)) p sums
      (omega (arith, bounded, most, cheap)) (omega (arith, sums, less, same, small)) h
