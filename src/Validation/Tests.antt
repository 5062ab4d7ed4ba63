-- ===== src/Validation/Tests.antt =====
-- A payment of one output, valid and not.
use abc.Bytes.{Bytes, eq_bytes, to_be_bytes, be_value, utxo_key, anon_key, zeros}
use abc.Errors.{ok, err, double_spend, missing_utxo}
use abc.External.{utxo, put_cf}
use abc.Prelude.{◌≡◌, ◌↔◌, refl, true, false, none, [], ◌∷◌}
use abc.Sample.{sample, MapDb, apply_op}
use abc.Tx.{is_coinbase_inputs, tx_size}
use abc.Types.{TxInput, TxOutput, Transaction}
use abc.Utils.Checked.{try_sum}
use abc.Validation.{
  contains_outpoint, any_open_sequence, check_maturity, check_inputs, sum_utxos, required_fee,
  check_fee, validate_transaction,
}
use abc.Validation.Scripts.{validate_transaction_ignores_scripts}
use abc.Validation.Sound.{IsPayment, validate_transaction_iff}

program : Unit {0}
unfolding eq_bytes to_be_bytes be_value utxo_key anon_key zeros is_coinbase_inputs tx_size try_sum
    contains_outpoint any_open_sequence check_maturity check_inputs sum_utxos required_fee check_fee
    validate_transaction
program = tt

abbrev coin : Bytes
coin = to_be_bytes 32 77

abbrev stored : TxOutput
stored = record { value = 1000; script_pubkey = 1 ∷ 2 ∷ []; commitment = none }

abbrev db : MapDb
db = apply_op (λ c k. none) (put_cf utxo (utxo_key coin 3) (sample.serialize_output stored))

abbrev spend : TxInput
spend = record { txid = coin; vout = 3; script_sig = []; sequence = 0 }

abbrev payment : Transaction
payment = record {
  version = 1;
  is_anonymous = false;
  inputs = spend ∷ [];
  outputs = record { value = 900; script_pubkey = []; commitment = none } ∷ [];
  lock_time = 5;
  range_proofs = [];
}

accepted : validate_transaction sample payment 10 db 11 ≡ ok tt
unfolding program
accepted = refl

twice_spent :
    validate_transaction sample (record payment { inputs = spend ∷ spend ∷ [] }) 10 db 11
    ≡ err double_spend
unfolding program
twice_spent = refl

unknown_output :
    validate_transaction sample
      (record payment { inputs = record spend { vout = 4 } ∷ [] })
      10
      db
      11
    ≡ err missing_utxo
unfolding program
unknown_output = refl

validate_transaction_iff_example :
    (validate_transaction sample payment 10 db 11 ≡ ok tt) ↔ IsPayment sample payment 10 db 11
unfolding program
validate_transaction_iff_example = validate_transaction_iff sample payment 10 db 11 refl refl

-- A forged script passes as well as the true one.
validate_transaction_ignores_scripts_example :
    validate_transaction sample payment 10 db 11
    ≡ validate_transaction sample
        (record payment { inputs = record spend { script_sig = 6 ∷ 6 ∷ [] } ∷ [] })
        10
        db
        11
validate_transaction_ignores_scripts_example =
    validate_transaction_ignores_scripts sample payment
      (record payment { inputs = record spend { script_sig = 6 ∷ 6 ∷ [] } ∷ [] }) 10 db 11 refl refl
      refl refl refl (unfold tx_size in refl)

abbrev hidden : Transaction
hidden = record payment { is_anonymous = true; outputs = [] }
