-- ===== src/Wallet/Payment/Pays.antt =====
-- 111/src/main.rs `Wallet::create_tx`: what a payment spends, and what its outputs add up to.
use abc.Bytes.{Bytes}
use abc.Errors.{anyhow, ok_injective, ok, ok_or, >>=-eq-ok}
use abc.External.{External, Secp}
use abc.Prelude.{
  ℕ, zero, suc, ◌+◌, ◌-◌, ◌*◌, ◌^◌, ◌≤◌, ◌<◌, ◌≡◌, refl, ap, ◌∙◌, false, Option, List, [], ◌∷◌,
  ◌++◌, length, map, arith,
}
use abc.Script.{sighash, set_script}
use abc.Types.{Hash, TxInput, TxOutput, Transaction}
use abc.Utils.Checked.{wrapping_sub64, sum}
use abc.Wallet.{Utxo, WalletKeys}
use abc.Wallet.Payment.{
  Plan, make_plan, input_of, change_outputs, make_outputs, sign_inputs, pay_from,
}
use abc.Wallet.Payment.Balance.{total, Affords, make_plan-Affords}

abbrev pub values_of : List TxOutput → List ℕ
values_of outs = map (λ o. o.value) outs

-- What an input spends.
abbrev pub outpoint_of : TxInput → Hash × ℕ
outpoint_of vin = (vin.txid, vin.vout)

set_script-outpoints :
    (i : ℕ) (script : Bytes) (vins vins' : List TxInput)
    → set_script i script vins ≡ ok vins'
    → map outpoint_of vins' ≡ map outpoint_of vins
unfolding set_script
set_script-outpoints i script [] vins' h = cc h
set_script-outpoints zero script (vin ∷ vins) vins' h = rw (← ok_injective h) refl
set_script-outpoints (suc i) script (vin ∷ vins) vins' h =
    let (rest, back, same) = >>=-eq-ok (set_script i script vins) (λ rest. ok (vin ∷ rest)) h in
    rw (← ok_injective same)
      (ap (λ os. outpoint_of vin ∷ os) (set_script-outpoints i script vins rest back))

module _ (x : External) (secp : Secp) (k : WalletKeys) where
  change_outputs-le :
      (change_index change : ℕ) (change_addr : Option Bytes) (outs : List TxOutput)
      → change_outputs x secp k change_index change change_addr ≡ ok outs
      → sum (values_of outs) ≤ change
  unfolding change_outputs
  change_outputs-le change_index change change_addr outs h = ground (arith, h)

  make_outputs-le :
      (to : Bytes) (amount change_index : ℕ) (change_addr : Option Bytes) (p : Plan)
      (outs : List TxOutput)
      → Affords amount p
      → make_outputs x secp k to amount change_index change_addr p ≡ ok outs
      → sum (values_of outs) + p.fee ≤ p.input_sum
  unfolding make_outputs Affords
  make_outputs-le to amount change_index change_addr p outs (same, affords, fits) h =
      let change = wrapping_sub64 (wrapping_sub64 p.input_sum amount) p.fee in
      let exact : change ≡ p.input_sum - amount - p.fee = omega arith in
      let (to_pkh, known, h') =
        >>=-eq-ok (ok_or (k.address_to_pubkey_hash to) (anyhow "Invalid address")) _ h in
      let (rest, made, h'') =
        >>=-eq-ok (change_outputs x secp k change_index change change_addr) _ h' in
      let less = change_outputs-le change_index change change_addr rest made in
      rw (← ok_injective h'') (omega (arith, less, exact, affords))

  sign_inputs-kept :
      (i : ℕ) (us : List Utxo) (tx tx' : Transaction)
      → sign_inputs x secp k i us tx ≡ ok tx'
      → (tx'.outputs ≡ tx.outputs) × (map outpoint_of tx'.inputs ≡ map outpoint_of tx.inputs)
  unfolding sign_inputs
  sign_inputs-kept i [] tx tx' h = rw (ok_injective h) (refl, refl)
  sign_inputs-kept i (u ∷ us) tx tx' h =
      let (pk, known, h1) =
        >>=-eq-ok (ok_or (k.public_key u.derivation_path) (anyhow "derive_priv")) _ h in
      let (hash, hashed, h2) = >>=-eq-ok (sighash x secp tx i u.script_pubkey 1) _ h1 in
      let script = k.sign u.derivation_path hash ++ ((1 ∷ []) ++ pk) in
      let (inputs, set, h3) = >>=-eq-ok (set_script i script tx.inputs) _ h2 in
      let (outs, points) = sign_inputs-kept (i + 1) us (record tx { inputs = inputs }) tx' h3 in
      (outs, points ∙ set_script-outpoints i script tx.inputs inputs set)

  outpoints-input_of :
      (us : List Utxo) → map outpoint_of (map input_of us) ≡ map (λ u. (u.txid, u.vout)) us
  outpoints-input_of [] = refl
  outpoints-input_of (u ∷ us) = ap (λ os. (u.txid, u.vout) ∷ os) (outpoints-input_of us)

  -- The inputs of a payment name the outputs of its plan, and its outputs and the fee are not more than
  -- what those are worth, when what the wallet has, and the amount with the fee of all of it, fit 64 bits.
  pub pay_from_balances :
      (to : Bytes) (amount fee_rate change_index : ℕ) (change_addr : Option Bytes)
      (utxos : List Utxo) (tx : Transaction) (hash : Hash)
      → total utxos < 2 ^ 64
      → amount + (length utxos * 110 + 94) * fee_rate < 2 ^ 64
      → pay_from x secp k to amount fee_rate change_index change_addr utxos ≡ ok (tx, hash)
      → (p : Plan) × (make_plan amount fee_rate utxos ≡ ok p)
        × (map outpoint_of tx.inputs ≡ map (λ u. (u.txid, u.vout)) p.inputs)
        × (p.input_sum ≡ total p.inputs)
        × (sum (values_of tx.outputs) + p.fee ≤ p.input_sum)
  unfolding pay_from Affords
  pay_from_balances to amount fee_rate change_index change_addr utxos tx hash small cheap h =
      let (p, planned, h1) = >>=-eq-ok (make_plan amount fee_rate utxos) _ h in
      let affords = make_plan-Affords amount fee_rate utxos p small cheap planned in
      let (outs, made, h2) =
        >>=-eq-ok (make_outputs x secp k to amount change_index change_addr p) _ h1 in
      let unsigned : Transaction = record {
        version = 1;
        is_anonymous = false;
        inputs = map input_of p.inputs;
        outputs = outs;
        lock_time = 0;
        range_proofs = [];
      } in
      let (signed, back, h3) = >>=-eq-ok (sign_inputs x secp k 0 p.inputs unsigned) _ h2 in
      let (same, points) = sign_inputs-kept 0 p.inputs unsigned signed back in
      let result : signed ≡ tx = ap (λ r. r.0) (ok_injective h3) in
      let less = make_outputs-le to amount change_index change_addr p outs affords made in
      (
        p,
        planned,
        rw (← result) (points ∙ outpoints-input_of p.inputs),
        affords.0,
        rw (← result, same) less,
      )
