-- ===== src/Utxo/Supply.antt =====
-- What a connected transaction does to the supply, and to the hash of the set of outputs.
use abc.Prelude.{
  ℕ, ◌+◌, ◌<◌, ◌≡◌, Bool, true, false, some, List, [], ◌∷◌, arith, refl, ap, sym, ◌∙◌,
  if◌then◌else◌, ◌^◌,
}
use abc.Bytes.{Bytes}
use abc.Errors.{ok, ◌>>=◌, >>=-eq-ok, ok_injective}
use abc.Types.{Hash, TxInput, TxOutput, Transaction}
use abc.External.{External}
use abc.Tx.{is_coinbase, tx_hash}
use abc.Utils.Checked.{sum}
use abc.Utxo.{
  Acc, connect, output_cf, output_key, key_image_action, spend_action, inputs_action, output_action,
  outputs_action, addr_action, handle_utxo_action,
}
use abc.Validation.{output_values}

module _ (x : External) where
  open x use {Db, get_cf, deserialize_output}

  -- The value of the stored output that an input names, in the family of its kind.
  abbrev pub Spends : Db → Bool → TxInput → ℕ → Type 0
  Spends db anon i v =
      (b : Bytes) × (o : TxOutput) × (get_cf db (output_cf anon) (output_key anon i.txid i.vout)
        ≡ some b)
      × (deserialize_output b ≡ some o)
      × (o.value ≡ v)

  abbrev pub AllSpend : Db → Bool → List TxInput → List ℕ → Type 0
  AllSpend db anon [] [] = Unit
  AllSpend db anon (i ∷ is) (v ∷ vs) = Spends db anon i v × AllSpend db anon is vs
  AllSpend db anon _ _ = ⊥

  module _ (db : Db) (height : ℕ) where
    spend-supply :
        (anon : Bool) (i : TxInput) (a : Acc) {a' : Acc}
        → spend_action x db connect anon i a ≡ ok a'
        → (b : Bytes) × (o : TxOutput) × (get_cf db (output_cf anon) (output_key anon i.txid i.vout)
            ≡ some b)
          × (deserialize_output b ≡ some o)
          × (a'.supply + o.value ≡ a.supply)
    unfolding spend_action
    spend-supply anon i a h = ground arith

    key_image-supply :
        (anon : Bool) (i : TxInput) (a : Acc) {a' : Acc}
        → (if anon then key_image_action x db connect height i a else ok a) ≡ ok a'
        → a'.supply ≡ a.supply
    unfolding key_image_action
    key_image-supply true i a h = ground arith
    key_image-supply false i a h = ap (λ (c : Acc). c.supply) (sym (ok_injective h))

    inputs-supply :
        (anon : Bool) (is : List TxInput) (a : Acc) {a' : Acc}
        → inputs_action x db connect height anon is a ≡ ok a'
        → (vs : List ℕ) × AllSpend db anon is vs × (a'.supply + sum vs ≡ a.supply)
    unfolding inputs_action
    inputs-supply anon [] a h = ([], tt, ground (arith, ok_injective h))
    inputs-supply anon (i ∷ is) a h =
        let (a1, key, rest) =
          >>=-eq-ok (if anon then key_image_action x db connect height i a else ok a) _ h in
        let (a2, spent, rest') = >>=-eq-ok (spend_action x db connect anon i a1) _ rest in
        let (b, o, found, read, less) = spend-supply anon i a1 spent in
        let (vs, worth, total) = inputs-supply anon is a2 rest' in
        (
          o.value ∷ vs,
          ((b, o, found, read, refl), worth),
          omega (arith, key_image-supply anon i a key, less, total),
        )

    handle_other :
        (tx : Transaction) (a : Acc)
        → is_coinbase tx ≡ false
        → handle_utxo_action x db connect height tx a ≡ (
            inputs_action x db connect height tx.is_anonymous tx.inputs a
            >>= outputs_action x db connect tx.is_anonymous (tx_hash x tx) 0 tx.outputs)
    unfolding handle_utxo_action
    handle_other tx a c = simp c

    output-supply :
        (anon : Bool) (txid : Hash) (vout : ℕ) (out : TxOutput) (a : Acc) {a' : Acc}
        → output_action x db connect anon txid vout out a ≡ ok a'
        → (a'.supply ≡ a.supply + out.value) × (a'.supply < 2 ^ 64)
    unfolding output_action addr_action
    output-supply true txid vout out a h = ground arith
    output-supply false txid vout out a h = ground arith

    outputs-supply :
        (anon : Bool) (txid : Hash) (vout : ℕ) (outs : List TxOutput) (a : Acc) {a' : Acc}
        → outputs_action x db connect anon txid vout outs a ≡ ok a'
        → a'.supply ≡ a.supply + sum (output_values outs)
    unfolding outputs_action
    outputs-supply anon txid vout [] a h =
        omega (arith, ap (λ (c : Acc). c.supply) (ok_injective h))
    outputs-supply anon txid vout (out ∷ outs) a h =
        let (a1, first, rest) = >>=-eq-ok (output_action x db connect anon txid vout out a) _ h in
        let (more, fits) = output-supply anon txid vout out a first in
        omega (arith, more, outputs-supply anon txid (vout + 1) outs a1 rest)

    -- A connected transaction that is no coinbase takes the values of the outputs that it spends
    -- from the supply, and adds those of its own.
    pub handle_utxo_action-supply :
        (tx : Transaction) (a : Acc) {a' : Acc}
        → is_coinbase tx ≡ false
        → handle_utxo_action x db connect height tx a ≡ ok a'
        → (vs : List ℕ) × AllSpend db tx.is_anonymous tx.inputs vs
          × (a'.supply + sum vs ≡ a.supply + sum (output_values tx.outputs))
    handle_utxo_action-supply tx a c h =
        let (a1, first, rest) =
          >>=-eq-ok (inputs_action x db connect height tx.is_anonymous tx.inputs a) _
            (sym (handle_other tx a c) ∙ h) in
        let (vs, spends, taken) = inputs-supply tx.is_anonymous tx.inputs a first in
        (
          vs,
          spends,
          omega (arith, taken, outputs-supply tx.is_anonymous (tx_hash x tx) 0 tx.outputs a1 rest),
        )
