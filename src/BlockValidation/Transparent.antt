-- ===== src/BlockValidation/Transparent.antt =====
-- Blocks of transparent transactions: which are accepted.
use abc.Prelude.{
  ℕ, ◌*◌, ◌^◌, ◌≤◌, ◌<◌, ◌≡◌, ◌⊎◌, inl, inr, refl, true, List, [], ◌∷◌, map, arith, Option,
  Bool-cases,
}
use abc.BlockValidation.{
  Spent, validate_all, fee_of, block_commitments, check_commitments, validate_block,
}
use abc.BlockValidation.Accepted.{IsChecked, validate_block-ok}
use abc.BlockValidation.Fees.{
  Agrees, AllPlain, Collected, outputs-Agrees, outputs-Collected, fee-ge,
}
use abc.Errors.{ok, >>=-eq-ok}
use abc.External.{External}
use abc.Tx.{Outputs, get_output, fee, tx_size, is_coinbase}
use abc.Types.{Hash, Transaction, Block}
use abc.Utils.Checked.{sum}
use abc.Utils.Constants.{min_fee_per_byte}
use abc.Validation.{validate_transaction, sum_points}
use abc.Validation.Outpoints.{All}
use abc.Validation.Sound.{validate_transaction_iff}

module _ (x : External) where
  open x use {Db, commit, add_points, eq_points, RangeProof}

  -- The commitments bind: no sum of zero hides another amount of 64 bits.
  abbrev pub CommitmentsBind : Type 0
  CommitmentsBind =
      (v : ℕ)
      → v < 2 ^ 64
      → eq_points (commit 0 0) (add_points (commit 0 0) (commit v 0)) ≡ true
      → v ≡ 0

  -- The encoding of a transaction is not empty.
  abbrev pub SizesPositive : Type 0
  SizesPositive = (tx : Transaction) → 0 < tx_size x tx

  module _ (db : Db) (best height : ℕ) where
    -- A payment among valid transactions makes the fees positive.
    fees_or_coinbases :
        SizesPositive
        → (s : Spent) (txs : List Transaction) → AllPlain x db txs
        → Agrees x db s.utxos
        → All (λ tx. All (Collected x db s.utxos) tx.inputs) txs
        → validate_all x db best height txs ≡ ok tt
        → (0 < sum (map (fee_of x s) txs)) ⊎ All (λ tx. is_coinbase tx ≡ true) txs
    unfolding validate_all
    fees_or_coinbases sizes s [] plain agrees known valid = inr tt
    fees_or_coinbases sizes s (tx ∷ txs) (plain, plains) agrees (known, knowns) valid =
        let (one, here, rest) = >>=-eq-ok (validate_transaction x tx best db height) _ valid in
        elim (Bool-cases (is_coinbase tx)) [
          | inl coinbase ↦ elim (fees_or_coinbases sizes s txs plains agrees knowns rest) [
            | inl positive ↦ inl (omega (arith, positive))
            | inr others ↦ inr (coinbase, others)
          ]
          | inr other ↦
              let pays : tx_size x tx * min_fee_per_byte ≤ fee tx s.utxos =
                fee-ge x db s.utxos tx best height agrees known
                  ((validate_transaction_iff x tx best db height other plain).0 here) in
              let same : fee_of x s tx ≡ fee tx s.utxos = simp plain in
              inl (omega (arith, pays, same, sizes tx))
        ]

  -- Without anonymous transactions there are no commitments.
  no_commitments :
      (db : Db) (m : Outputs) (txs : List Transaction)
      → AllPlain x db txs
      → block_commitments x m [] [] [] txs ≡ ok ([], [], [])
  unfolding block_commitments
  no_commitments db m [] plain = refl
  no_commitments db m (tx ∷ txs) (plain, plains) = simp plain (no_commitments db m txs plains)

  no_fees :
      CommitmentsBind
      → (db : Db) (m : Outputs) (fees : ℕ) (txs : List Transaction) → fees < 2 ^ 64
      → AllPlain x db txs
      → check_commitments x m fees txs ≡ ok tt
      → fees ≡ 0
  unfolding check_commitments sum_points
  no_fees bind db m fees txs small plain h =
      bind fees small (ground (arith, no_commitments db m txs plain))

  only_coinbases :
      CommitmentsBind
      → SizesPositive
      → (db : Db) (best height : ℕ) (txs : List Transaction) (p : Spent × ℕ) → AllPlain x db txs
      → IsChecked x db best height txs p
      → check_commitments x p.0.anon_outputs p.1 txs ≡ ok tt
      → All (λ tx. is_coinbase tx ≡ true) txs
  unfolding get_output
  only_coinbases bind sizes db best height [] p plain checked balance = tt
  only_coinbases bind sizes db best height (tx ∷ txs) p (plain, plains) checked balance =
      let (first, collected, valid, total, fits, pays) = checked in
      let none_first : Agrees x db [] = λ t v o h. ground arith in
      let free : p.1 ≡ 0 =
        no_fees bind db p.0.anon_outputs p.1 (tx ∷ txs) (omega arith) (plain, plains) balance in
      elim (fees_or_coinbases db best height sizes p.0 txs plains
        (outputs-Agrees x db _ txs plains none_first collected)
        (outputs-Collected x db _ txs plains collected) valid) [
          | inl positive ↦ absurd (omega (arith, positive, free, total))
          | inr others ↦ (ground arith, others)
        ]

  -- A block without anonymous transactions is accepted only if each of its transactions is a
  -- coinbase: the fees of a payment are on one side of the balance of commitments alone. It is
  -- supposed that commitments bind and that no encoding of a transaction is empty.
  pub validate_block_refuses_payments :
      CommitmentsBind
      → SizesPositive
      → (db : Db) (best now : ℕ) (checkpoints : ℕ → Option Hash) (block : Block) (height : ℕ)
      → AllPlain x db block.txs
      → validate_block x db best now checkpoints block height ≡ ok tt
      → All (λ tx. is_coinbase tx ≡ true) block.txs
  validate_block_refuses_payments bind sizes db best now checkpoints block height plain h =
      let (hash, target, p, _, _, _, _, _, checked, balance) =
        validate_block-ok x db best now checkpoints block height h in
      let (first, collected, valid, total, fits, pays) = checked in
      only_coinbases bind sizes db best height block.txs p plain checked balance
