-- ===== src/Wallet/Tests.antt =====
-- A wallet of two outputs.
use abc.Bytes.{eq_bytes, to_le_bytes, be_value, Bytes, to_be_bytes}
use abc.Errors.{Result, ok}
use abc.External.{Secp}
use abc.Prelude.{ℕ, ◌+◌, ◌≡◌, ◌≤◌, refl, true, none, some, List, [], ◌∷◌, ◌++◌, length, map, arith}
use abc.Sample.{sample, MapDb}
use abc.Script.{set_script, sighash, slice}
use abc.Tx.{sha256d, p2pkh_script, hash160, tx_hash}
use abc.Types.{Hash, Transaction}
use abc.Utils.Checked.{sum}
use abc.Utxo.{addr_key}
use abc.Wallet.{Utxo, WalletKeys, Entry, read_entry, fold_entries, fold_key}
use abc.Wallet.Entries.{index_entries, fold_result, fold_key-index_entries}
use abc.Wallet.Payment.{
  insert_by_value, sort_by_value, select, settle_fee, change_outputs, make_outputs, sign_inputs,
  Plan, make_plan, pay_from,
}
use abc.Wallet.Payment.Balance.{total}
use abc.Wallet.Payment.Pays.{values_of, outpoint_of, pay_from_balances}

program : Unit {0}
unfolding insert_by_value sort_by_value select settle_fee make_plan change_outputs make_outputs
    sign_inputs pay_from set_script sighash sha256d to_le_bytes to_be_bytes be_value p2pkh_script
    hash160 tx_hash read_entry addr_key slice fold_entries fold_key index_entries fold_result
    eq_bytes
program = tt

abbrev secp : Secp
secp = record {
  Signature = Bytes;
  PublicKey = Bytes;
  signature_from_der = λ b. some b;
  public_key_from_slice = λ b. some b;
  verify_ecdsa = λ m s k. true;
}

abbrev keys : WalletKeys
keys = record {
  public_key = λ path. some (path.0 ∷ path.1 ∷ []);
  sign = λ path h. 48 ∷ path.1 ∷ [];
  address_to_pubkey_hash = λ a. some a;
  deserialize_index = λ b. some (length b, 0);
}

abbrev coin : ℕ → ℕ → Utxo
coin n v = record {
  txid = n ∷ [];
  vout = n;
  value = v;
  confirmations = 100;
  script_pubkey = 118 ∷ [];
  height = 0;
  derivation_path = (0, n);
  is_confirmed = true;
}

abbrev coins : List Utxo
coins = coin 1 30_000 ∷ coin 2 500_000 ∷ []

abbrev paid : Result (Transaction × Hash)
paid = pay_from sample secp keys (7 ∷ []) 200_000 10 3 none coins

abbrev value_or_empty : Result (Transaction × Hash) → Transaction × Hash
value_or_empty (ok r) = r
value_or_empty _ = (
  record {
    version = 0;
    is_anonymous = true;
    inputs = [];
    outputs = [];
    lock_time = 0;
    range_proofs = [];
  },
  [],
)

abbrev payment : Transaction
payment = (value_or_empty paid).0

-- The larger output pays; the change is what the fee of 2,040 leaves.
change_left : values_of payment.outputs ≡ 200_000 ∷ 297_960 ∷ []
unfolding program
change_left = refl

pay_from_balances_example :
    (p : Plan) × (make_plan 200_000 10 coins ≡ ok p)
    × (map outpoint_of payment.inputs ≡ map (λ u. (u.txid, u.vout)) p.inputs)
    × (p.input_sum ≡ total p.inputs)
    × (sum (values_of payment.outputs) + p.fee ≤ p.input_sum)
unfolding program
pay_from_balances_example =
    pay_from_balances sample secp keys (7 ∷ []) 200_000 10 3 none coins payment
      (value_or_empty paid).1 (omega arith) (omega arith) refl

abbrev txid : Hash
txid = to_be_bytes 32 77

-- Two entries of the fifth key, and one of another address.
abbrev entries : List Entry
entries = (txid, 3, 1000) ∷ (to_be_bytes 32 78, 0, 2000) ∷ []

abbrev past : List (Bytes × Bytes)
past = (addr_key sample (9 ∷ []) txid 3, to_be_bytes 8 5) ∷ []

abbrev items : MapDb → Bytes → List (Bytes × Bytes)
items db prefix = index_entries sample (0 ∷ 4 ∷ []) entries ++ past

abbrev add_value : ℕ × ℕ → Entry → ℕ → Result ℕ
add_value path (t, vout, value) sum = ok (sum + value)

abbrev no_entries : MapDb
no_entries c k = none

fold_key-index_entries_example :
    fold_key sample keys items add_value no_entries (0, 4) 0
    ≡ fold_result (add_value (0, 4)) entries 0
unfolding program
fold_key-index_entries_example =
    fold_key-index_entries sample keys items add_value no_entries (0, 4) (0 ∷ 4 ∷ []) (0 ∷ 4 ∷ [])
      entries past 0 refl refl refl
      (refl, omega arith, omega arith, (refl, omega arith, omega arith, tt)) refl refl

added : fold_key sample keys items add_value no_entries (0, 4) 0 ≡ ok 3000
unfolding program
added = refl
