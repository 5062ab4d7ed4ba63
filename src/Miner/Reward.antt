-- ===== src/Miner/Reward.antt =====
-- 111/src/miner.rs `miner_task`: what the coinbase of a template pays, and when its block passes.
use abc.BlockValidation.{
  Spent, pays_other, first_pays_other, validate_block, collect_outputs, after_first, fee_of,
}
use abc.BlockValidation.Accepted.{validate_block-ok}
use abc.Bytes.{Bytes}
use abc.Chain.{Chain}
use abc.Difficulty.{calculate_next_bits}
use abc.Errors.{ok_injective, ok, >>=-eq-ok}
use abc.External.{External}
use abc.Mempool.{Mempool}
use abc.Mempool.Select.{select_txs}
use abc.Miner.{Template, make_template, make_coinbase, set_reward, make_block, total_fees}
use abc.Prelude.{
  sym, ap, ◌∙◌, Option, ℕ, none, some, ◌%◌, ◌-◌, false, ◌≡◌, refl, List, [], ◌∷◌, map, arith, ◌+◌,
}
use abc.Tx.{get_output, create_coinbase, input_value, fee}
use abc.Types.{Hash, TxInput, Transaction}
use abc.Utils.Checked.{u64_mod, sum, try_sum}
use abc.Utils.Compact.{compact_to_target}
use abc.Utils.Constants.{max_block_size}
use abc.Utils.Subsidy.{subsidy}

no_inputs : (vins : List TxInput) → try_sum 0 (map (input_value []) vins) ≡ some 0
unfolding try_sum input_value get_output
no_inputs [] = refl
no_inputs (vin ∷ vins) = no_inputs vins

no_fee : (tx : Transaction) → fee tx [] ≡ 0
unfolding fee
no_fee tx = ground (arith, no_inputs tx.inputs)

no_fees : (txs : List Transaction) → try_sum 0 (map (λ tx. fee tx []) txs) ≡ some 0
unfolding try_sum
no_fees [] = refl
no_fees (tx ∷ txs) = ground (arith, no_fee tx, no_fees txs)

total_fees-eq-ok : (txs : List Transaction) → total_fees txs ≡ ok 0
unfolding total_fees
total_fees-eq-ok txs = rw (no_fees txs) refl

module _ (x : External) where
  -- The coinbase of a template pays the subsidy alone.
  coinbase_pays :
      (height fees : ℕ) (extra pubkey : Bytes) (dest : Option Bytes) {tx : Transaction} (e : ℕ)
      → fees ≡ 0
      → make_coinbase x height extra pubkey dest fees ≡ ok tx
      → pays_other e tx.outputs ≡ false
      → e ≡ subsidy height
  unfolding make_coinbase create_coinbase set_reward
  coinbase_pays height fees extra pubkey none e z h p = ground (arith, z, h, p)
  coinbase_pays height fees extra pubkey (some d) e z h p = ground (arith, z, h, p)

  template_pays :
      (chain : Chain x) (mempool : Mempool) (now_ms : ℕ) (extra pubkey : Bytes)
      (dest : Option Bytes) (t : Template) (e : ℕ)
      → make_template x chain mempool now_ms extra pubkey dest ≡ ok t
      → first_pays_other e t.txs ≡ false
      → e ≡ subsidy t.height
  unfolding make_template
  template_pays chain mempool now_ms extra pubkey dest t e h p =
      let height = (chain.best_height + 1) % u64_mod in
      let selected = select_txs x (max_block_size - 1000) mempool in
      let (bits, e1, r1) = >>=-eq-ok (calculate_next_bits x chain.db height) _ h in
      let (fees, e2, r2) = >>=-eq-ok (total_fees selected) _ r1 in
      let (tx, e3, r3) = >>=-eq-ok (make_coinbase x height extra pubkey dest fees) _ r2 in
      let (target, e4, r4) = >>=-eq-ok (compact_to_target bits) _ r3 in
      let made = sym (ok_injective r4) in
      let none_paid = ok_injective (sym e2 ∙ total_fees-eq-ok selected) in
      let txs = ap (λ (u : Template). u.txs) made in
      let at_height = ap (λ (u : Template). u.height) made in
      coinbase_pays height fees extra pubkey dest e none_paid e3 (rw txs at p)
      ∙ ap subsidy (sym at_height)

  -- The block of a template passes validation only if its transactions pay no fees, by the outputs
  -- that the database has: the miner adds up their fees without those outputs.
  pub make_block_pays_no_fees :
      (chain : Chain x) (mempool : Mempool) (now_ms : ℕ) (extra pubkey : Bytes)
      (dest : Option Bytes) (t : Template) (nonce later : ℕ) (db : x.Db) (best now : ℕ)
      (checkpoints : ℕ → Option Hash)
      → make_template x chain mempool now_ms extra pubkey dest ≡ ok t
      → validate_block x db best now checkpoints (make_block x t nonce later) t.height ≡ ok tt
      → (s : Spent) × (collect_outputs x db
            (record { utxos = []; anon_outputs = [] })
            (after_first t.txs)
          ≡ ok s)
        × (sum (map (fee_of x s) (after_first t.txs)) ≡ 0)
  unfolding make_block
  make_block_pays_no_fees chain mempool now_ms extra pubkey dest t nonce later db best now
        checkpoints h v =
      let (hash, target, p, e1, e2, e3, e4, e5, checked, e6) =
        validate_block-ok x db best now checkpoints (make_block x t nonce later) t.height v in
      let (coin, collected, valid, fees, fits, pays) = checked in
      let even = template_pays chain mempool now_ms extra pubkey dest t _ h pays in
      (p.0, collected, omega (arith, fees, even))
