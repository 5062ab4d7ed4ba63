-- ===== src/Validation.antt =====
-- 111/src/tx.rs `validate_transaction` and `validate_anonymous_tx`, over one state of the
-- database. Reads of the database do not fail here, and the column families are there.
pub mod Outpoints
pub mod Sound
pub mod Scripts
pub mod Anonymous
mod Tests
use abc.Prelude.{
  ℕ, ◌+◌, ◌-◌, ◌*◌, ◌/◌, ◌%◌, Bool, true, false, ◌&&◌, ◌||◌, not, Option, none, some, List, [], ◌∷◌,
  ◌++◌, map, length, take, drop, ltb, ◌==◌, if◌then◌else◌,
}
use abc.Bytes.{Bytes, eq_bytes, from_be_bytes, utxo_key, anon_key}
use abc.Errors.{
  Result, ok, err, ◌>>=◌, ◌>>◌, bail_if, ok_or, anyhow, double_spend, coinbase_immature,
  missing_utxo, value_overflow, invalid_script, invalid_key_image, invalid_commitment,
  invalid_range_proof, invalid_lock_time, invalid_tx, insufficient_fee,
}
use abc.Types.{Hash, TxInput, TxOutput, Transaction}
use abc.External
use abc.External.{External, coinbase, utxo, anonymous, key_images}
use abc.Tx.{u32_max, is_coinbase, Outputs, get_output, tx_hash, tx_size}
use abc.Utils.Checked.{u32_mod, u64_mod, checked_add, checked_sub, checked_mul, try_sum}
use abc.Utils.Constants.{
  coinbase_maturity, max_ring_size, min_fee_per_byte, anon_fee_multiplier_numerator,
  anon_fee_multiplier_denominator,
}

-- `seen.contains(&(txid, vout))`
unfoldable pub contains_outpoint : Hash → ℕ → List (Hash × ℕ) → Bool
contains_outpoint txid vout [] = false
contains_outpoint txid vout ((t, v) ∷ seen) =
    (eq_bytes txid t && vout == v) || contains_outpoint txid vout seen

-- `seen.contains(&key_image)`
unfoldable pub contains_hash : Hash → List Hash → Bool
contains_hash h [] = false
contains_hash h (k ∷ seen) = eq_bytes h k || contains_hash h seen

-- `tx.inputs.iter().any(|i| i.sequence != u32::MAX)`
unfoldable pub any_open_sequence : List TxInput → Bool
any_open_sequence [] = false
any_open_sequence (i ∷ is) = not (i.sequence == u32_max) || any_open_sequence is

abbrev pub output_values : List TxOutput → List ℕ
output_values = map (λ o. o.value)

module _ (x : External) where
  open x use {
    Db, get_cf, deserialize_output, key_image_from_slice, Clsag, deserialize_clsag, ring_len,
    clsag_verify, Point, decompress, commit, add_points, eq_points, RangeProof, deserialize_proof,
    batch_verify,
  }

  -- A coinbase output is spent only 100 blocks after it was made.
  unfoldable pub check_maturity : Db → ℕ → Hash → Result (Unit {0})
  check_maturity db height txid = elim (get_cf db coinbase txid) [
    | none ↦ ok tt
    | some b ↦
        if length b == 8
        then bail_if (ltb (height - from_be_bytes b) coinbase_maturity) coinbase_immature
        else err (anyhow "Invalid cb height bytes")
  ]

  -- The first loop over the inputs, on the outpoints seen so far.
  unfoldable pub check_inputs : Db → ℕ → List (Hash × ℕ) → List TxInput → Result (Unit {0})
  check_inputs db height seen [] = ok tt
  check_inputs db height seen (vin ∷ vins) = do
    bail_if (contains_outpoint vin.txid vin.vout seen) double_spend
    check_maturity db height vin.txid
    check_inputs db height ((vin.txid, vin.vout) ∷ seen) vins

  -- The second loop, of a transparent transaction: what its inputs are worth.
  unfoldable pub sum_utxos : Db → ℕ → List TxInput → Result ℕ
  sum_utxos db input_sum [] = ok input_sum
  sum_utxos db input_sum (vin ∷ vins) = do
    value ← ok_or (get_cf db utxo (utxo_key vin.txid vin.vout)) missing_utxo
    o ← ok_or (deserialize_output value) (anyhow "Deserialize utxo failed")
    s ← ok_or (checked_add input_sum o.value) value_overflow
    sum_utxos db s vins

  -- The outputs that an anonymous transaction's inputs name, as far as they are there.
  unfoldable pub anon_outputs : Db → Outputs → List TxInput → Result Outputs
  anon_outputs db m [] = ok m
  anon_outputs db m (vin ∷ vins) = elim (get_cf db anonymous (anon_key vin.txid vin.vout)) [
    | none ↦ anon_outputs db m vins
    | some value ↦ do
      o ← ok_or (deserialize_output value) (anyhow "Deserialize anon failed")
      anon_outputs db (((vin.txid, vin.vout), o) ∷ m) vins
  ]

  abbrev pub decompress_commitment : Bytes → Result Point
  decompress_commitment b = ok_or (decompress b) invalid_commitment

  -- The loop over the inputs of `validate_anonymous_tx`: their sum, and their commitments.
  unfoldable pub check_ring_inputs :
      Db → Hash → Outputs → List Hash → ℕ → List Point → List TxInput → Result (ℕ × List Point)
  check_ring_inputs db msg_hash outputs seen input_sum comms [] = ok (input_sum, comms)
  check_ring_inputs db msg_hash outputs seen input_sum comms (vin ∷ vins) = do
    bail_if (ltb (length vin.script_sig) 32) invalid_script
    key_image ← ok_or (key_image_from_slice (take 32 vin.script_sig)) invalid_key_image
    bail_if (contains_hash key_image seen) double_spend
    elim (get_cf db key_images key_image) [ none ↦ ok tt | some spent ↦ err double_spend ]
    clsag ← ok_or (deserialize_clsag (drop 32 vin.script_sig)) (anyhow "Deserialize clsag error")
    bail_if (ltb max_ring_size (ring_len clsag) || ring_len clsag == 0) invalid_script
    bail_if (not (clsag_verify clsag msg_hash key_image)) (anyhow "Clsag verify error")
    out ← ok_or (get_output vin.txid vin.vout outputs) missing_utxo
    s ← ok_or (checked_add input_sum out.value) value_overflow
    b ← ok_or out.commitment invalid_commitment
    comm ← decompress_commitment b
    check_ring_inputs db msg_hash outputs (key_image ∷ seen) s (comms ++ (comm ∷ [])) vins

  -- `tx.outputs.iter().zip(&tx.range_proofs)`, each pair queued.
  unfoldable pub queue_proofs :
      List (RangeProof × Point × ℕ)
      → List TxOutput
      → List Bytes
      → Result (List (RangeProof × Point × ℕ))
  queue_proofs batch (out ∷ outs) (proof_bytes ∷ proofs) = do
    proof ← ok_or (deserialize_proof proof_bytes) (anyhow "Deserialize proof error")
    b ← ok_or out.commitment invalid_commitment
    comm ← decompress_commitment b
    queue_proofs (batch ++ ((proof, comm, out.value) ∷ [])) outs proofs
  queue_proofs batch _ _ = ok batch

  unfoldable pub sum_points : Point → List Point → Point
  sum_points acc [] = acc
  sum_points acc (p ∷ ps) = sum_points (add_points acc p) ps

  unfoldable pub sum_output_commitments : Point → List TxOutput → Result Point
  sum_output_commitments acc [] = ok acc
  sum_output_commitments acc (out ∷ outs) = do
    b ← ok_or out.commitment invalid_commitment
    comm ← decompress_commitment b
    sum_output_commitments (add_points acc comm) outs

  unfoldable pub validate_anonymous_tx : Transaction → Outputs → Db → Result (Unit {0})
  validate_anonymous_tx tx outputs db = do
    (input_sum, comms) ← check_ring_inputs db (tx_hash x tx) outputs [] 0 [] tx.inputs
    output_sum ← ok_or (try_sum 0 (output_values tx.outputs)) value_overflow
    fee ← ok_or (checked_sub input_sum output_sum) value_overflow
    batch ← queue_proofs [] tx.outputs tx.range_proofs
    bail_if (not (batch_verify batch)) invalid_range_proof
    sum_output_comm ← sum_output_commitments (commit 0 0) tx.outputs
    let sum_input_comm = sum_points (commit 0 0) comms
    bail_if (not (eq_points sum_input_comm (add_points sum_output_comm (commit fee 0))))
        invalid_commitment

  -- The least fee: half as much again for an anonymous transaction, in `u128`; the caller
  -- compares its low 64 bits.
  unfoldable pub required_fee : Transaction → Result ℕ
  required_fee tx =
      if tx.is_anonymous
      then ok (
          (tx_size x tx * min_fee_per_byte * anon_fee_multiplier_numerator
            + (anon_fee_multiplier_denominator - 1))
          / anon_fee_multiplier_denominator)
      else ok_or (checked_mul (tx_size x tx) min_fee_per_byte) value_overflow

  -- From `output_sum` on.
  unfoldable pub check_fee : Transaction → ℕ → Result (Unit {0})
  check_fee tx input_sum = do
    output_sum ← ok_or (try_sum 0 (output_values tx.outputs)) value_overflow
    bail_if (ltb input_sum output_sum) (invalid_tx "Outputs exceed inputs")
    fee ← ok_or (checked_sub input_sum output_sum) value_overflow
    required ← required_fee tx
    bail_if (ltb fee (required % u64_mod)) insufficient_fee

  -- Its arguments: the best height of the chain, its database, and the height of the block.
  unfoldable pub validate_transaction : Transaction → ℕ → Db → ℕ → Result (Unit {0})
  validate_transaction tx best_height db height = if is_coinbase tx then ok tt else (do
    bail_if (ltb (best_height % u32_mod) tx.lock_time && any_open_sequence tx.inputs)
        invalid_lock_time
    check_inputs db height [] tx.inputs
    input_sum ← (if tx.is_anonymous then ok 0 else sum_utxos db 0 tx.inputs)
    (if tx.is_anonymous
        then anon_outputs db [] tx.inputs >>= (λ outs. validate_anonymous_tx tx outs db)
        else ok tt)
    check_fee tx input_sum)
