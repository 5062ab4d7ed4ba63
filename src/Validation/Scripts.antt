-- ===== src/Validation/Scripts.antt =====
-- Acceptance does not look at signature scripts: `validate_script_with_timeout` has no caller.
use mathlib.Core.Path.{fun_ext}
use abc.Utils.Checked.{u32_mod}
use abc.Errors.{bail_if, invalid_lock_time, ◌>>◌}
use abc.Prelude.{ℕ, ◌≡◌, refl, sym, ◌∙◌, false, List, [], ◌∷◌, map, ◌%◌, ltb, ◌&&◌, if◌then◌else◌}
use abc.Errors.{Result, ok, ◌>>=◌}
use abc.Types.{Hash, TxInput, Transaction}
use abc.External.{External}
use abc.Tx.{is_coinbase_inputs, tx_size}
use abc.Validation.{
  any_open_sequence, check_inputs, sum_utxos, required_fee, check_fee, validate_transaction,
}

-- An input without its signature script.
abbrev pub strip : TxInput → TxInput
strip i = record i { script_sig = [] }

is_coinbase-strip : (is : List TxInput) → is_coinbase_inputs (map strip is) ≡ is_coinbase_inputs is
unfolding is_coinbase_inputs
is_coinbase-strip [] = refl
is_coinbase-strip (i ∷ []) = refl
is_coinbase-strip (i ∷ j ∷ is) = refl

any_open_sequence-strip :
    (is : List TxInput) → any_open_sequence (map strip is) ≡ any_open_sequence is
unfolding any_open_sequence
any_open_sequence-strip [] = refl
any_open_sequence-strip (i ∷ is) = rw (any_open_sequence-strip is)

module _ (x : External) where
  open x use {Db}

  check_inputs-strip :
      (db : Db) (h : ℕ) (seen : List (Hash × ℕ)) (is : List TxInput)
      → check_inputs x db h seen (map strip is) ≡ check_inputs x db h seen is
  unfolding check_inputs
  check_inputs-strip db h seen [] = refl
  check_inputs-strip db h seen (i ∷ is) =
      simp (check_inputs-strip db h ((i.txid, i.vout) ∷ seen) is)

  sum_utxos-strip :
      (db : Db) (acc : ℕ) (is : List TxInput)
      → sum_utxos x db acc (map strip is) ≡ sum_utxos x db acc is
  unfolding sum_utxos
  sum_utxos-strip db acc [] = refl
  sum_utxos-strip db acc (i ∷ is) = simp (λ (s : ℕ). sum_utxos-strip db s is)

  check_fee-same :
      (tx tx' : Transaction) (s : ℕ)
      → tx.is_anonymous ≡ tx'.is_anonymous
      → tx.outputs ≡ tx'.outputs
      → tx_size x tx ≡ tx_size x tx'
      → check_fee x tx s ≡ check_fee x tx' s
  unfolding check_fee required_fee
  check_fee-same tx tx' s a o e = simp (a, o, e)

  -- The verdict on a transparent transaction, by what it depends on.
  abbrev verdict : Db → ℕ → ℕ → List TxInput → ℕ → (ℕ → Result (Unit {0})) → Result (Unit {0})
  verdict db best_height height is lock fee = if is_coinbase_inputs is then ok tt else (do
    bail_if (ltb (best_height % u32_mod) lock && any_open_sequence is) invalid_lock_time
    check_inputs x db height [] is
    input_sum ← sum_utxos x db 0 is
    fee input_sum)

  validate_transaction-verdict :
      (tx : Transaction) (best_height : ℕ) (db : Db) (height : ℕ)
      → tx.is_anonymous ≡ false
      → validate_transaction x tx best_height db height
        ≡ verdict db best_height height (map strip tx.inputs) tx.lock_time (check_fee x tx)
  unfolding validate_transaction
  validate_transaction-verdict tx best_height db height a =
      simp
        (a, is_coinbase-strip, any_open_sequence-strip, check_inputs-strip db, sum_utxos-strip db)

  -- Two transparent transactions that agree but for the signature scripts of their inputs, and
  -- are of one size, get the same verdict: no signature is ever looked at.
  pub validate_transaction_ignores_scripts :
      (tx tx' : Transaction) (best_height : ℕ) (db : Db) (height : ℕ)
      → tx.is_anonymous ≡ false
      → tx'.is_anonymous ≡ false
      → map strip tx.inputs ≡ map strip tx'.inputs
      → tx.outputs ≡ tx'.outputs
      → tx.lock_time ≡ tx'.lock_time
      → tx_size x tx ≡ tx_size x tx'
      → validate_transaction x tx best_height db height
        ≡ validate_transaction x tx' best_height db height
  validate_transaction_ignores_scripts tx tx' best_height db height a a' is o l e =
      let fees : check_fee x tx ≡ check_fee x tx' =
        fun_ext (λ s. check_fee-same tx tx' s (a ∙ sym a') o e) in
      let same : verdict db best_height height (map strip tx.inputs) tx.lock_time (check_fee x tx)
          ≡ verdict db best_height height (map strip tx'.inputs) tx'.lock_time (check_fee x tx') =
        λ i. verdict db best_height height (is i) (l i) (fees i) in
      validate_transaction-verdict tx best_height db height a
      ∙ (same ∙ sym (validate_transaction-verdict tx' best_height db height a'))
