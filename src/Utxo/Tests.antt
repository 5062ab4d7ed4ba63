-- ===== src/Utxo/Tests.antt =====
-- A block's transactions run on a small database.
use abc.Bytes.{Bytes, eq_bytes, to_be_bytes, be_value, utxo_key, anon_key, zeros, zero_hash}
use abc.Errors.{◌>>=◌, Result, ok, err, missing_utxo}
use abc.External.{utxo, put_cf}
use abc.Prelude.{ap, inl, ◌≡◌, ◌+◌, ◌≤◌, ◌≢◌, refl, false, none, [], ◌∷◌, arith, inr, ℕ, List}
use abc.Sample.{sample, MapDb, apply_op, map_rocks-IsRocks, sample-Digests32}
use abc.Tx.{is_coinbase_inputs, sha256d, hash160, tx_hash, tx_size, u32_max}
use abc.Types.{TxInput, TxOutput, Transaction}
use abc.Utils.Checked.{try_sum, sum}
use abc.Utxo.{
  Acc, connect, disconnect, xor_hash, hash_utxo_entry, addr_key, coinbase_action, key_image_action,
  spend_action, inputs_action, addr_action, output_action, outputs_action, handle_utxo_action,
  txs_action, apply_utxo_changes,
}
use abc.Utxo.Coinbase.{txs_action-supply-le}
use abc.Utxo.Reorg.{reorg_fails}
use abc.Utxo.Supply.{handle_utxo_action-supply, AllSpend}
use abc.Utxo.Write.{write}
use abc.Validation.{
  contains_outpoint, any_open_sequence, check_maturity, check_inputs, sum_utxos, required_fee,
  check_fee, validate_transaction,
}

program : Unit {0}
unfolding eq_bytes to_be_bytes be_value utxo_key anon_key zeros is_coinbase_inputs tx_size try_sum
    contains_outpoint any_open_sequence check_maturity check_inputs sum_utxos required_fee check_fee
    validate_transaction sha256d hash160 tx_hash xor_hash hash_utxo_entry addr_key coinbase_action
    key_image_action spend_action inputs_action addr_action output_action outputs_action
    handle_utxo_action txs_action apply_utxo_changes
program = tt

abbrev coin : Bytes
coin = to_be_bytes 32 77

abbrev stored : TxOutput
stored = record { value = 1000; script_pubkey = 1 ∷ 2 ∷ []; commitment = none }

abbrev db : MapDb
db = apply_op (λ c k. none) (put_cf utxo (utxo_key coin 3) (sample.serialize_output stored))

abbrev spend : TxInput
spend = record { txid = coin; vout = 3; script_sig = []; sequence = 0 }

abbrev payment : Transaction
payment = record {
  version = 1;
  is_anonymous = false;
  inputs = spend ∷ [];
  outputs = record { value = 900; script_pubkey = []; commitment = none } ∷ [];
  lock_time = 5;
  range_proofs = [];
}

abbrev reward : Transaction
reward = record payment { inputs = record spend { txid = zero_hash; vout = u32_max } ∷ [] }

abbrev start : Acc
start = record { batch = []; rollback_ops = []; set_hash = zero_hash; supply = 5000 }

supply_after :
    (handle_utxo_action sample db connect 11 payment start >>= (λ a. ok a.supply)) ≡ ok 4900
unfolding program
supply_after = refl

abbrev after : Result Acc → Acc
after (ok a) = a
after _ = start

abbrev connected : Acc
connected = after (handle_utxo_action sample db connect 11 payment start)

-- The transaction does not spend itself.
other : coin ≢ tx_hash sample payment
unfolding program
other e = omega (arith, ap (be_value 0) e)

reorg_fails_example :
    handle_utxo_action sample (write sample db connected.batch) disconnect 11 payment start
    ≡ err missing_utxo
unfolding program
reorg_fails_example =
    reorg_fails sample map_rocks-IsRocks sample-Digests32 db 11 payment spend [] start start refl
      refl refl refl other refl

handle_utxo_action-supply_example :
    (vs : List ℕ) × AllSpend sample db false (spend ∷ []) vs
    × (connected.supply + sum vs ≡ 5000 + sum (900 ∷ []))
unfolding program
handle_utxo_action-supply_example = handle_utxo_action-supply sample db 11 payment start refl refl

abbrev block_connected : Acc
block_connected = after (txs_action sample db connect 11 (reward ∷ payment ∷ []) start)

txs_action-supply-le_example : block_connected.supply ≤ 5000
unfolding program
txs_action-supply-le_example =
    txs_action-supply-le sample db 10 11 (reward ∷ payment ∷ []) start
      (inl refl, (inr (refl, refl, refl), tt)) refl
