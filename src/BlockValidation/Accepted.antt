-- ===== src/BlockValidation/Accepted.antt =====
-- What an accepted block has shown.
use mathlib.Core.Path.{subst}
use abc.Prelude.{
  ltb, ◌==◌, not, ℕ, ◌+◌, ◌^◌, ◌≤◌, ◌<◌, ◌≡◌, refl, ap, ◌∙◌, true, false, List, [], map, arith,
  Option, Bool,
}
use abc.Bytes.Laws.{eq_bytes_iff}
use abc.Utils.Constants.{max_block_size}
use abc.Bytes.{eq_bytes, from_be_bytes}
use abc.BlockValidation.{
  Spent, after_first, lacks_coinbase, first_pays_other, collect_outputs, validate_all, fee_of,
  check_commitments, check_transactions, validate_block,
}
use abc.Difficulty.{calculate_next_bits}
use abc.Utils.Compact.{compact_to_target}
use abc.Utils.Subsidy.{subsidy}
use abc.Errors.{
  ChainError, insufficient_pow, invalid_block, invalid_coinbase_fee, bail_if, ok_or, ok, >>=-eq-ok,
  ok_injective,
}
use abc.External.{External}
use abc.Tx.{header_hash, block_size}
use abc.Tx.Merkle.{compute_merkle_root}
use abc.Types.{Hash, Transaction, Block}
use abc.Utils.Checked.{checked_add, sum, try_sum, try_sum-eq-some}

bail_if-ok : (b : Bool) (e : ChainError) {u : Unit {0}} → bail_if b e ≡ ok u → b ≡ false
bail_if-ok true e h = ground arith
bail_if-ok false e h = refl

module _ (x : External) where
  open x use {Db}

  module _ (db : Db) (best height : ℕ) where
    -- What the checks of the transactions show of the outputs collected and the fees.
    abbrev pub IsChecked : List Transaction → Spent × ℕ → Type 0
    IsChecked txs p =
        (lacks_coinbase txs ≡ false)
        × (collect_outputs x db (record { utxos = []; anon_outputs = [] }) (after_first txs)
            ≡ ok p.0)
        × (validate_all x db best height (after_first txs) ≡ ok tt)
        × (p.1 ≡ sum (map (fee_of x p.0) (after_first txs)))
        × (subsidy height + p.1 < 2 ^ 64)
        × (first_pays_other (subsidy height + p.1) txs ≡ false)

    fees_lem :
        (txs : List Transaction) (s : Spent) {fees expected : ℕ}
        → ok_or (try_sum 0 (map (fee_of x s) txs)) invalid_coinbase_fee ≡ ok fees
        → ok_or (checked_add (subsidy height) fees) invalid_coinbase_fee ≡ ok expected
        → (fees ≡ sum (map (fee_of x s) txs))
          × (expected ≡ subsidy height + fees)
          × (subsidy height + fees < 2 ^ 64)
    fees_lem txs s e f =
        (grind (arith, try_sum-eq-some 0 (map (fee_of x s) txs)), ground arith, ground arith)

    check_transactions-ok :
        (txs : List Transaction) {p : Spent × ℕ}
        → check_transactions x db best height txs ≡ ok p
        → IsChecked txs p
    unfolding check_transactions
    check_transactions-ok txs h =
        let (u1, first, r1) =
          >>=-eq-ok (bail_if (lacks_coinbase txs) (invalid_block "No coinbase")) _ h in
        let (s, collected, r2) =
          >>=-eq-ok
            (collect_outputs x db (record { utxos = []; anon_outputs = [] }) (after_first txs)) _
            r1 in
        let (u3, valid, r3) = >>=-eq-ok (validate_all x db best height (after_first txs)) _ r2 in
        let (fees, e4, r4) =
          >>=-eq-ok (ok_or (try_sum 0 (map (fee_of x s) (after_first txs))) invalid_coinbase_fee) _
            r3 in
        let (expected, e5, r5) =
          >>=-eq-ok (ok_or (checked_add (subsidy height) fees) invalid_coinbase_fee) _ r4 in
        let (u6, pays, r6) =
          >>=-eq-ok (bail_if (first_pays_other expected txs) invalid_coinbase_fee) _ r5 in
        let (total, is, fits) = fees_lem (after_first txs) s e4 e5 in
        let pays' : bail_if (first_pays_other (subsidy height + fees) txs) invalid_coinbase_fee
            ≡ ok u6 =
          rw is at pays in
        subst (IsChecked txs) (ok_injective r6)
          (bail_if-ok _ _ first, collected, valid, total, fits, bail_if-ok _ _ pays')

  -- An accepted block has the work and the bits that its header and the chain ask for, and the
  -- root of its transactions; its first transaction is a coinbase whose first output is worth the
  -- subsidy and the fees of the others, without overflow, and the others are valid.
  pub validate_block-ok :
      (db : Db) (best now : ℕ) (checkpoints : ℕ → Option Hash) (block : Block) (height : ℕ)
      → validate_block x db best now checkpoints block height ≡ ok tt
      → (hash : Hash) × (target : ℕ) × (p : Spent × ℕ) × (header_hash x block.header ≡ ok hash)
        × (compact_to_target block.header.bits ≡ ok target)
        × (from_be_bytes hash ≤ target)
        × (calculate_next_bits x db height ≡ ok block.header.bits)
        × (block.header.merkle_root ≡ compute_merkle_root x block.txs)
        × IsChecked db best height block.txs p
        × (check_commitments x p.0.anon_outputs p.1 block.txs ≡ ok tt)
  unfolding validate_block
  validate_block-ok db best now checkpoints block height h =
      let (u1, small, r1) = >>=-eq-ok (bail_if (ltb max_block_size (block_size x block)) _) _ h in
      let (hash, hashed, r2) = >>=-eq-ok (header_hash x block.header) _ r1 in
      let (target, decoded, r3) = >>=-eq-ok (compact_to_target block.header.bits) _ r2 in
      let (u4, work, r4) =
        >>=-eq-ok (bail_if (ltb target (from_be_bytes hash)) insufficient_pow) _ r3 in
      let (bits, next, r5) = >>=-eq-ok (calculate_next_bits x db height) _ r4 in
      let (u6, same, r6) = >>=-eq-ok (bail_if (not (block.header.bits == bits)) _) _ r5 in
      let (u7, root, r7) =
        >>=-eq-ok
          (bail_if (not (eq_bytes block.header.merkle_root (compute_merkle_root x block.txs))) _) _
          r6 in
      let (p, transactions, r8) = >>=-eq-ok (check_transactions x db best height block.txs) _ r7 in
      let (u9, balance, r9) = >>=-eq-ok (check_commitments x p.0.anon_outputs p.1 block.txs) _ r8 in
      let same_bits : bits ≡ block.header.bits =
        grind (arith, bail_if-ok (not (block.header.bits == bits)) _ same) in
      (
        hash,
        target,
        p,
        hashed,
        decoded,
        grind (arith, bail_if-ok (ltb target (from_be_bytes hash)) _ work),
        next ∙ ap ok same_bits,
        grind (
          arith,
          bail_if-ok (not (eq_bytes block.header.merkle_root (compute_merkle_root x block.txs))) _
              root,
          eq_bytes_iff block.header.merkle_root (compute_merkle_root x block.txs),
        ),
        check_transactions-ok db best height block.txs transactions,
        balance,
      )
