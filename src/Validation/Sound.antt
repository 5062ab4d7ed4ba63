-- ===== src/Validation/Sound.antt =====
-- What a transparent transaction that is accepted has shown, and that nothing more is asked.
use native.Mathlib.Decide.{dec_lt}
use native.Mathlib.Nat.{le_trans}
use abc.Bytes.{Bytes, from_be_bytes, utxo_key}
use abc.Errors.{ok}
use abc.External.{External, coinbase, utxo}
use abc.Prelude.{
  ◌⊎◌, ℕ, ◌+◌, ◌-◌, ◌*◌, ◌^◌, ◌≤◌, ◌<◌, ◌≡◌, refl, ap, false, some, List, [], ◌∷◌, map, length,
  arith, Option-cases, inl, inr, ltb, ◌↔◌, ◌%◌, ◌&&◌,
}
use abc.Tx.{tx_size, is_coinbase}
use abc.Types.{Hash, TxInput, TxOutput, Transaction}
use abc.Utils.Checked.{sum, try_sum-eq-some, try_sum_complete, u32_mod}
use abc.Utils.Constants.{coinbase_maturity, min_fee_per_byte}
use abc.Validation.{
  contains_outpoint, output_values, check_maturity, check_inputs, sum_utxos, required_fee,
  check_fee, validate_transaction, any_open_sequence,
}
use abc.Validation.Outpoints.{
  All, outpoint, Fresh, contains_outpoint-false, contains_outpoint-of-ne, Fresh-nil_iff, Distinct,
}

module _ (x : External) where
  open x use {Db, get_cf, deserialize_output}

  module _ (db : Db) where
    -- A coinbase recorded under the id is at least 100 blocks old.
    abbrev pub IsMature : ℕ → Hash → Type 0
    IsMature height txid =
        (b : Bytes)
        → get_cf db coinbase txid ≡ some b
        → (length b ≡ 8) × (coinbase_maturity ≤ height - from_be_bytes b)

    -- The unspent output of an input is stored, and has this value.
    abbrev pub IsWorth : TxInput → ℕ → Type 0
    IsWorth i v =
        (b : Bytes) × (o : TxOutput) × (get_cf db utxo (utxo_key i.txid i.vout) ≡ some b)
        × (deserialize_output b ≡ some o)
        × (o.value ≡ v)

    -- The values of the inputs, one by one.
    abbrev pub Worth : List TxInput → List ℕ → Type 0
    Worth [] [] = Unit
    Worth (i ∷ is) (v ∷ vs) = IsWorth i v × Worth is vs
    Worth _ _ = ⊥

    check_maturity-ok : (h : ℕ) (t : Hash) → check_maturity x db h t ≡ ok tt → IsMature h t
    unfolding check_maturity
    check_maturity-ok h t e b found = ground arith

    check_maturity_complete : (h : ℕ) (t : Hash) → IsMature h t → check_maturity x db h t ≡ ok tt
    unfolding check_maturity
    check_maturity_complete h t m = elim (Option-cases (get_cf db coinbase t)) [
      | inl absent ↦ rw (absent, check_maturity)
      | inr (b, found) ↦ ground (arith, m b found)
    ]

    check_inputs_step :
        (h : ℕ) (seen : List (Hash × ℕ)) (i : TxInput) (is : List TxInput)
        → check_inputs x db h seen (i ∷ is) ≡ ok tt
        → (contains_outpoint i.txid i.vout seen ≡ false)
          × (check_maturity x db h i.txid ≡ ok tt)
          × (check_inputs x db h (outpoint i ∷ seen) is ≡ ok tt)
    unfolding check_inputs
    check_inputs_step h seen i is e = ground arith

    check_inputs-ok :
        (h : ℕ) (seen : List (Hash × ℕ)) (is : List TxInput)
        → check_inputs x db h seen is ≡ ok tt
        → Fresh seen (map outpoint is) × All (λ i. IsMature h i.txid) is
    check_inputs-ok h seen [] e = (tt, tt)
    check_inputs-ok h seen (i ∷ is) e =
        let (fresh, mature, rest) = check_inputs_step h seen i is e in
        let (f, m) = check_inputs-ok h (outpoint i ∷ seen) is rest in
        (
          (contains_outpoint-false i.txid i.vout seen fresh, f),
          (check_maturity-ok h i.txid mature, m),
        )

    check_inputs_complete :
        (h : ℕ) (seen : List (Hash × ℕ)) (is : List TxInput)
        → Fresh seen (map outpoint is)
        → All (λ i. IsMature h i.txid) is
        → check_inputs x db h seen is ≡ ok tt
    unfolding check_inputs
    check_inputs_complete h seen [] f m = refl
    check_inputs_complete h seen (i ∷ is) (ne, f) (m, ms) =
        rw (contains_outpoint-of-ne i.txid i.vout seen ne, check_maturity_complete h i.txid m)
          (check_inputs_complete h (outpoint i ∷ seen) is f ms)

    sum_utxos_step :
        (acc : ℕ) (i : TxInput) (is : List TxInput) {r : ℕ}
        → sum_utxos x db acc (i ∷ is) ≡ ok r
        → (b : Bytes) × (o : TxOutput) × (get_cf db utxo (utxo_key i.txid i.vout) ≡ some b)
          × (deserialize_output b ≡ some o)
          × (acc + o.value < 2 ^ 64)
          × (sum_utxos x db (acc + o.value) is ≡ ok r)
    unfolding sum_utxos
    sum_utxos_step acc i is e = ground arith

    sum_utxos-ok :
        (acc : ℕ) (is : List TxInput) {r : ℕ}
        → acc < 2 ^ 64
        → sum_utxos x db acc is ≡ ok r
        → (vs : List ℕ) × Worth is vs × (r ≡ acc + sum vs) × (r < 2 ^ 64)
    unfolding sum_utxos
    sum_utxos-ok acc [] small e = ([], tt, ground arith, ground arith)
    sum_utxos-ok acc (i ∷ is) small e =
        let (b, o, found, read, fits, rest) = sum_utxos_step acc i is e in
        let (vs, worth, total, bound) = sum_utxos-ok (acc + o.value) is fits rest in
        (o.value ∷ vs, ((b, o, found, read, refl), worth), omega arith, bound)

    sum_utxos_complete :
        (acc : ℕ) (is : List TxInput) (vs : List ℕ)
        → Worth is vs
        → acc + sum vs < 2 ^ 64
        → sum_utxos x db acc is ≡ ok (acc + sum vs)
    unfolding sum_utxos
    sum_utxos_complete acc [] [] w h = ap ok (omega arith)
    sum_utxos_complete acc [] (v ∷ vs) w h = absurd w
    sum_utxos_complete acc (i ∷ is) [] w h = absurd w
    sum_utxos_complete acc (i ∷ is) (v ∷ vs) ((b, o, found, read, e), w) h =
        ground (arith, sum_utxos_complete (acc + v) is vs w)

  -- The outputs and the fee are covered by an input sum.
  check_fee-ok :
      (tx : Transaction) (input_sum : ℕ)
      → tx.is_anonymous ≡ false
      → check_fee x tx input_sum ≡ ok tt
      → sum (output_values tx.outputs) + tx_size x tx * min_fee_per_byte ≤ input_sum
  unfolding check_fee required_fee
  check_fee-ok tx input_sum plain e = grind (arith, try_sum-eq-some 0 (output_values tx.outputs))

  check_fee_complete :
      (tx : Transaction) (input_sum : ℕ)
      → tx.is_anonymous ≡ false
      → input_sum < 2 ^ 64
      → sum (output_values tx.outputs) + tx_size x tx * min_fee_per_byte ≤ input_sum
      → check_fee x tx input_sum ≡ ok tt
  unfolding check_fee required_fee
  check_fee_complete tx input_sum plain small h =
      ground (arith, try_sum_complete 0 (output_values tx.outputs))

  -- What a transparent transaction needs.
  pub record IsPayment (tx : Transaction) (best_height : ℕ) (db : Db) (height : ℕ) : Type 0 where
    -- The lock time has passed, or no input asks for it.
    pub unlocked : (tx.lock_time ≤ best_height % u32_mod) ⊎ (any_open_sequence tx.inputs ≡ false)
    -- No output is spent twice.
    pub distinct : Distinct (map outpoint tx.inputs)
    pub mature : All (λ i. IsMature db height i.txid) tx.inputs
    -- Every input names a stored unspent output; these are their values.
    pub values : List ℕ
    pub worth : Worth db tx.inputs values
    pub fits : sum values < 2 ^ 64
    -- The outputs and the fee of ten units a byte are covered.
    pub covered : sum (output_values tx.outputs) + tx_size x tx * min_fee_per_byte ≤ sum values

  module _ (tx : Transaction) (best_height : ℕ) (db : Db) (height : ℕ) where
    validate_transaction_steps :
        is_coinbase tx ≡ false
        → tx.is_anonymous ≡ false
        → validate_transaction x tx best_height db height ≡ ok tt
        → ((ltb (best_height % u32_mod) tx.lock_time && any_open_sequence tx.inputs) ≡ false)
          × (check_inputs x db height [] tx.inputs ≡ ok tt)
          × (s : ℕ) × (sum_utxos x db 0 tx.inputs ≡ ok s)
          × (check_fee x tx s ≡ ok tt)
    unfolding validate_transaction
    validate_transaction_steps c plain h = ground arith

    lock_of_test :
        (ltb (best_height % u32_mod) tx.lock_time && any_open_sequence tx.inputs) ≡ false
        → (tx.lock_time ≤ best_height % u32_mod) ⊎ (any_open_sequence tx.inputs ≡ false)
    lock_of_test h = elim (dec_lt (best_height % u32_mod) tx.lock_time) [
      | yes later ↦ inr (ground arith)
      | no passed ↦ inl (omega arith)
    ]

    test_of_lock :
        (tx.lock_time ≤ best_height % u32_mod) ⊎ (any_open_sequence tx.inputs ≡ false)
        → (ltb (best_height % u32_mod) tx.lock_time && any_open_sequence tx.inputs) ≡ false
    test_of_lock (inl h) = ground arith
    test_of_lock (inr h) = ground arith

    validate_transaction-ok :
        is_coinbase tx ≡ false
        → tx.is_anonymous ≡ false
        → validate_transaction x tx best_height db height ≡ ok tt
        → IsPayment tx best_height db height
    validate_transaction-ok c plain h =
        let (lock, inputs, s, total, paid) = validate_transaction_steps c plain h in
        let (fresh, ripe) = check_inputs-ok db height [] tx.inputs inputs in
        let (vs, w, e, small) = sum_utxos-ok db 0 tx.inputs (omega arith) total in
        let cover : sum (output_values tx.outputs) + tx_size x tx * min_fee_per_byte ≤ s =
          check_fee-ok tx s plain paid in
        record {
          unlocked = lock_of_test lock;
          distinct = (Fresh-nil_iff (map outpoint tx.inputs)).0 fresh;
          mature = ripe;
          values = vs;
          worth = w;
          fits = omega arith;
          covered = omega arith;
        }

    validate_transaction_complete :
        is_coinbase tx ≡ false
        → tx.is_anonymous ≡ false
        → IsPayment tx best_height db height
        → validate_transaction x tx best_height db height ≡ ok tt
    unfolding validate_transaction
    validate_transaction_complete c plain p =
        let small : 0 + sum p.values < 2 ^ 64 = le_trans (omega arith) p.fits in
        simp
          (
            c,
            plain,
            test_of_lock p.unlocked,
            check_inputs_complete db height [] tx.inputs
                ((Fresh-nil_iff (map outpoint tx.inputs)).1 p.distinct) p.mature,
            sum_utxos_complete db 0 tx.inputs p.values p.worth small,
          )
          (check_fee_complete tx (0 + sum p.values) plain small (le_trans p.covered (omega arith)))

    -- A transparent transaction that is no coinbase is accepted exactly when its lock time has passed
    -- or no input asks for it, and its inputs name stored, mature, distinct outputs whose sum fits 64
    -- bits and covers its outputs and its fee.
    pub validate_transaction_iff :
        is_coinbase tx ≡ false
        → tx.is_anonymous ≡ false
        → (validate_transaction x tx best_height db height ≡ ok tt)
          ↔ IsPayment tx best_height db height
    validate_transaction_iff c plain =
        (validate_transaction-ok c plain, validate_transaction_complete c plain)
