-- ===== src/BlockValidation/Tests.antt =====
-- A block of one coinbase on a chain of one block.
use abc.BlockValidation.{check_commitments, validate_block, Spent}
use abc.BlockValidation.Accepted.{IsChecked, validate_block-ok}
use abc.BlockValidation.Transparent.{
  validate_block_refuses_payments, CommitmentsBind, SizesPositive,
}
use abc.Bytes.{to_be_bytes, from_be_bytes}
use abc.Difficulty.{calculate_next_bits}
use abc.Errors.{ok, err, invalid_timestamp}
use abc.Prelude.{ℕ, ◌≡◌, refl, true, [], ◌∷◌, arith, ◌≤◌}
use abc.Sample.{sample}
use abc.SampleChain.{validation, db, reward, block, no_checkpoints}
use abc.Tx.{is_coinbase, header_hash, tx_size}
use abc.Tx.Merkle.{compute_merkle_root}
use abc.Types.{Hash}
use abc.Utils.Compact.{compact_to_target}
use abc.Validation.Outpoints.{All}

accepted : validate_block sample db 0 1_060_000 no_checkpoints block 1 ≡ ok tt
unfolding validation
accepted = refl

too_early :
    validate_block sample db 0 1_060_000 no_checkpoints
      (record block { header = record (block.header) { timestamp = 1000 } })
      1
    ≡ err invalid_timestamp
unfolding validation
too_early = refl

validate_block-ok_example :
    (hash : Hash) × (target : ℕ) × (p : Spent × ℕ) × (header_hash sample block.header ≡ ok hash)
    × (compact_to_target 0x1c7fffff ≡ ok target)
    × (from_be_bytes hash ≤ target)
    × (calculate_next_bits sample db 1 ≡ ok 0x1c7fffff)
    × (block.header.merkle_root ≡ compute_merkle_root sample block.txs)
    × IsChecked sample db 0 1 block.txs p
    × (check_commitments sample p.0.anon_outputs p.1 block.txs ≡ ok tt)
unfolding validation
validate_block-ok_example = validate_block-ok sample db 0 1_060_000 no_checkpoints block 1 refl

sample-CommitmentsBind : CommitmentsBind sample
sample-CommitmentsBind v small h = ground arith

sample-SizesPositive : SizesPositive sample
unfolding tx_size to_be_bytes
sample-SizesPositive tx = omega arith

validate_block_refuses_payments_example : All (λ tx. is_coinbase tx ≡ true) (reward ∷ [])
unfolding validation
validate_block_refuses_payments_example =
    validate_block_refuses_payments sample sample-CommitmentsBind sample-SizesPositive db 0
      1_060_000 no_checkpoints block 1 (refl, tt) refl
