-- ===== src/BlockValidation.antt =====
-- 111/src/chain.rs `validate_block`: the checks of a block, over one state of the database, with the
-- clock and the checkpoints of the configuration as arguments.
pub mod Accepted
pub mod Fees
pub mod Transparent
mod Tests
use abc.Prelude.{
  ℕ, ◌+◌, ◌*◌, ◌/◌, ◌%◌, Bool, true, false, ◌||◌, not, Option, none, some, List, [], ◌∷◌, ◌++◌, map,
  ltb, leb, ◌==◌, if◌then◌else◌,
}
use abc.Bytes.{Bytes, eq_bytes, from_be_bytes}
use abc.Difficulty.{get_median_timestamp, calculate_next_bits}
use abc.Errors.{
  Result, ok, err, ◌>>=◌, ◌>>◌, bail_if, ok_or, anyhow, invalid_block, insufficient_pow,
  invalid_coinbase_fee, invalid_commitment, invalid_range_proof, invalid_timestamp, attack_detected,
}
use abc.Types.{Hash, TxInput, TxOutput, Transaction, Block}
use abc.External.{External}
use abc.Tx.{is_coinbase, Outputs, get_output, fee, block_size, header_hash}
use abc.Tx.Merkle.{compute_merkle_root}
use abc.Utils.Checked.{u32_mod, wrapping_sub64, checked_add, try_sum}
use abc.Utils.Compact.{compact_to_target}
use abc.Utils.Constants.{max_block_size}
use abc.Utils.Subsidy.{subsidy}
use abc.Utxo.{output_cf, output_key}
use abc.Validation.{decompress_commitment, queue_proofs, sum_points, validate_transaction}

-- `utxos` and `anon_outputs`.
pub record Spent : Type 0 where
  pub utxos : Outputs
  pub anon_outputs : Outputs

abbrev pub outputs_of : Bool → Spent → Outputs
outputs_of true s = s.anon_outputs
outputs_of false s = s.utxos

abbrev pub insert_output : Bool → (Hash × ℕ) → TxOutput → Spent → Spent
insert_output true k o s = record s { anon_outputs = (k, o) ∷ s.anon_outputs }
insert_output false k o s = record s { utxos = (k, o) ∷ s.utxos }

-- `block.txs.is_empty() || !block.txs[0].is_coinbase()`
abbrev pub lacks_coinbase : List Transaction → Bool
lacks_coinbase [] = true
lacks_coinbase (tx ∷ txs) = not (is_coinbase tx)

-- `block.txs[1..]`, when the list is not empty.
abbrev pub after_first : List Transaction → List Transaction
after_first [] = []
after_first (tx ∷ txs) = txs

-- `outputs.is_empty() || outputs[0].value != expected`
abbrev pub pays_other : ℕ → List TxOutput → Bool
pays_other expected [] = true
pays_other expected (o ∷ os) = not (o.value == expected)

-- `block.txs[0]`
abbrev pub first_pays_other : ℕ → List Transaction → Bool
first_pays_other expected [] = true
first_pays_other expected (tx ∷ txs) = pays_other expected tx.outputs

module _ (x : External) where
  open x use {
    Db, get_cf, deserialize_output, Point, commit, add_points, eq_points, RangeProof, batch_verify,
  }

  -- The outputs that the inputs of a transaction name, as far as they are stored.
  unfoldable pub collect_inputs : Db → Bool → Spent → List TxInput → Result Spent
  collect_inputs db anon s [] = ok s
  collect_inputs db anon s (vin ∷ vins) =
      elim (get_cf db (output_cf anon) (output_key anon vin.txid vin.vout)) [
        | none ↦ collect_inputs db anon s vins
        | some value ↦ do
          o ← ok_or (deserialize_output value) (anyhow "Deserialize output failed")
          collect_inputs db anon (insert_output anon (vin.txid, vin.vout) o s) vins
      ]

  unfoldable pub collect_outputs : Db → Spent → List Transaction → Result Spent
  collect_outputs db s [] = ok s
  collect_outputs db s (tx ∷ txs) = do
    s' ← collect_inputs db tx.is_anonymous s tx.inputs
    collect_outputs db s' txs

  -- Every transaction but the first.
  unfoldable pub validate_all : Db → ℕ → ℕ → List Transaction → Result (Unit {0})
  validate_all db best_height height [] = ok tt
  validate_all db best_height height (tx ∷ txs) = do
    validate_transaction x tx best_height db height
    validate_all db best_height height txs

  abbrev pub fee_of : Spent → Transaction → ℕ
  fee_of s tx = fee tx (outputs_of tx.is_anonymous s)

  -- The commitments of the outputs that are spent.
  unfoldable pub spent_commitments : Outputs → List Point → List TxInput → Result (List Point)
  spent_commitments m comms [] = ok comms
  spent_commitments m comms (vin ∷ vins) = elim (get_output vin.txid vin.vout m) [
    | none ↦ spent_commitments m comms vins
    | some out ↦ elim out.commitment [
      | none ↦ spent_commitments m comms vins
      | some b ↦ do
        comm ← decompress_commitment x b
        spent_commitments m (comms ++ (comm ∷ [])) vins
    ]
  ]

  -- The commitments of the outputs that are made.
  unfoldable pub made_commitments : List Point → List TxOutput → Result (List Point)
  made_commitments comms [] = ok comms
  made_commitments comms (out ∷ outs) = elim out.commitment [
    | none ↦ made_commitments comms outs
    | some b ↦ do comm ← decompress_commitment x b; made_commitments (comms ++ (comm ∷ [])) outs
  ]

  -- `block_input_commitments`, `block_output_commitments` and the queue of the batch verifier.
  unfoldable pub block_commitments :
      Outputs
      → List Point
      → List Point
      → List (RangeProof × Point × ℕ)
      → List Transaction
      → Result (List Point × List Point × List (RangeProof × Point × ℕ))
  block_commitments m ins outs batch [] = ok (ins, outs, batch)
  block_commitments m ins outs batch (tx ∷ txs) = elim tx.is_anonymous [
    | false ↦ block_commitments m ins outs batch txs
    | true ↦ do
      ins' ← spent_commitments m ins tx.inputs
      outs' ← made_commitments outs tx.outputs
      batch' ← queue_proofs x batch tx.outputs tx.range_proofs
      block_commitments m ins' outs' batch' txs
  ]

  -- From `batch_verifier` on: the range proofs, and the balance of the commitments.
  unfoldable pub check_commitments : Outputs → ℕ → List Transaction → Result (Unit {0})
  check_commitments m total_fees txs = do
    (ins, outs, batch) ← block_commitments m [] [] [] txs
    bail_if (not (batch_verify batch)) invalid_range_proof
    let sum_block_inputs = sum_points x (commit 0 0) ins
    let sum_block_outputs = sum_points x (commit 0 0) outs
    bail_if (not (eq_points sum_block_inputs (add_points sum_block_outputs (commit total_fees 0))))
        invalid_commitment

  -- The time of the block, and the checkpoint of its height.
  unfoldable pub check_time : Db → ℕ → ℕ → (ℕ → Option Hash) → Hash → ℕ → Result (Unit {0})
  check_time db now_ms timestamp checkpoint_hashes hash height = do
    median_time ← get_median_timestamp x db (wrapping_sub64 height 1)
    let current_time = (now_ms / 1000) % u32_mod
    bail_if (leb timestamp median_time || ltb ((current_time + 7200) % u32_mod) timestamp)
        invalid_timestamp
    elim (checkpoint_hashes height) [
      | none ↦ ok tt
      | some expected_hash ↦ bail_if (not (eq_bytes hash expected_hash)) attack_detected
    ]

  -- The transactions of a block: they are valid, and the first one pays the subsidy and the fees.
  unfoldable pub check_transactions : Db → ℕ → ℕ → List Transaction → Result (Spent × ℕ)
  check_transactions db best_height height txs = do
    bail_if (lacks_coinbase txs) (invalid_block "No coinbase")
    s ← collect_outputs db (record { utxos = []; anon_outputs = [] }) (after_first txs)
    validate_all db best_height height (after_first txs)
    total_fees ← ok_or (try_sum 0 (map (fee_of s) (after_first txs))) invalid_coinbase_fee
    expected ← ok_or (checked_add (subsidy height) total_fees) invalid_coinbase_fee
    bail_if (first_pays_other expected txs) invalid_coinbase_fee
    ok (s, total_fees)

  unfoldable pub validate_block : Db → ℕ → ℕ → (ℕ → Option Hash) → Block → ℕ → Result (Unit {0})
  validate_block db best_height now_ms checkpoint_hashes block height = do
    bail_if (ltb max_block_size (block_size x block)) (invalid_block "Block too large")
    hash ← header_hash x block.header
    target ← compact_to_target block.header.bits
    bail_if (ltb target (from_be_bytes hash)) insufficient_pow
    next_bits ← calculate_next_bits x db height
    bail_if (not (block.header.bits == next_bits)) (invalid_block "Invalid bits")
    bail_if (not (eq_bytes block.header.merkle_root (compute_merkle_root x block.txs)))
        (invalid_block "Invalid Merkle root")
    (s, total_fees) ← check_transactions db best_height height block.txs
    check_commitments s.anon_outputs total_fees block.txs
    check_time db now_ms block.header.timestamp checkpoint_hashes hash height
