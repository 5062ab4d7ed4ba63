-- ===== src/BlockValidation/Fees.antt =====
-- The fees of transparent transactions, by the outputs that a block's check collects.
use mathlib.Core.Path.{subst}
use abc.Prelude.{
  Bool-cases, ℕ, ◌+◌, ◌*◌, ◌≤◌, ◌≡◌, ◌⊎◌, inl, inr, refl, sym, ◌&&◌, ◌==◌, false, some, none, List,
  [], ◌∷◌, map, arith, Option-cases,
}
use abc.Bytes.{Bytes, eq_bytes, utxo_key}
use abc.Bytes.Laws.{eq_bytes_iff, eq_bytes_refl}
use abc.BlockValidation.{Spent, insert_output, collect_inputs, collect_outputs}
use abc.Errors.{ok, >>=-eq-ok, ok_injective}
use abc.External.{External, utxo}
use abc.Tx.{Outputs, get_output, input_value, fee, tx_size}
use abc.Types.{Hash, TxInput, TxOutput, Transaction}
use abc.Utils.Checked.{sum, try_sum, try_sum_complete}
use abc.Utils.Constants.{min_fee_per_byte}
use abc.Validation.{output_values}
use abc.Validation.Outpoints.{All}
use abc.Validation.Sound.{IsWorth, Worth, IsPayment}

-- The map has an output for the input.
abbrev pub Known : Outputs → TxInput → Type 0
Known m i = (o : TxOutput) × (get_output i.txid i.vout m ≡ some o)

self :
    (m : Outputs) (i : TxInput) (o : TxOutput)
    → get_output i.txid i.vout (((i.txid, i.vout), o) ∷ m) ≡ some o
unfolding get_output
self m i o = ground (arith, eq_bytes_refl i.txid)

Known-insert :
    (m : Outputs) (t : Hash) (v : ℕ) (o : TxOutput) (i : TxInput)
    → Known m i
    → Known (((t, v), o) ∷ m) i
unfolding get_output
Known-insert m t v o i (o', found) = elim (Bool-cases (eq_bytes i.txid t && i.vout == v)) [
  | inl same ↦ (o, simp same)
  | inr other ↦ (o', simp (other, found))
]

module _ (x : External) where
  open x use {Db, get_cf, deserialize_output}

  module _ (db : Db) where
    -- An output of the map is the stored one.
    abbrev pub Agrees : Outputs → Type 0
    Agrees m =
        (t : Hash) (v : ℕ) (o : TxOutput)
        → get_output t v m ≡ some o
        → (b : Bytes) × (get_cf db utxo (utxo_key t v) ≡ some b) × (deserialize_output b ≡ some o)

    Agrees-insert :
        (m : Outputs) (t : Hash) (v : ℕ) (o : TxOutput) (b : Bytes)
        → get_cf db utxo (utxo_key t v) ≡ some b
        → deserialize_output b ≡ some o
        → Agrees m
        → Agrees (((t, v), o) ∷ m)
    unfolding get_output
    Agrees-insert m t v o b found read agrees t' v' o' h =
        elim (Bool-cases (eq_bytes t' t && v' == v)) [
          | inl same ↦
              let key : t' ≡ t = ground (arith, eq_bytes_iff t' t) in
              let index : v' ≡ v = ground arith in
              let value : o ≡ o' = ground arith in (b, rw (key, index) found, rw (sym value) read)
          | inr other ↦ agrees t' v' o' (ground arith)
        ]

    -- The first input of those that are collected: it is not stored, or it joins the map.
    collect_step :
        (s : Spent) (vin : TxInput) (vins : List TxInput) {s' : Spent}
        → collect_inputs x db false s (vin ∷ vins) ≡ ok s'
        → ((get_cf db utxo (utxo_key vin.txid vin.vout) ≡ none)
            × (collect_inputs x db false s vins ≡ ok s'))
          ⊎ ((b : Bytes) × (o : TxOutput) × (get_cf db utxo (utxo_key vin.txid vin.vout) ≡ some b)
              × (deserialize_output b ≡ some o)
              × (collect_inputs x db false (insert_output false (vin.txid, vin.vout) o s) vins
                  ≡ ok s'))
    unfolding collect_inputs
    collect_step s vin vins h = elim (Option-cases (get_cf db utxo (utxo_key vin.txid vin.vout))) [
      | inl absent ↦ inl (absent, ground arith)
      | inr (b, found) ↦ elim (Option-cases (deserialize_output b)) [
        | inl broken ↦ ground arith
        | inr (o, read) ↦ inr (b, o, found, read, ground arith)
      ]
    ]

    inputs-Agrees :
        (s : Spent) (vins : List TxInput) {s' : Spent}
        → Agrees s.utxos
        → collect_inputs x db false s vins ≡ ok s'
        → Agrees s'.utxos
    unfolding collect_inputs
    inputs-Agrees s [] agrees h = subst (λ (c : Spent). Agrees c.utxos) (ok_injective h) agrees
    inputs-Agrees s (vin ∷ vins) agrees h = elim (collect_step s vin vins h) [
      | inl (absent, rest) ↦ inputs-Agrees s vins agrees rest
      | inr (b, o, found, read, rest) ↦
          inputs-Agrees (insert_output false (vin.txid, vin.vout) o s) vins
            (Agrees-insert s.utxos vin.txid vin.vout o b found read agrees) rest
    ]

    inputs-keep :
        (s : Spent) (vins : List TxInput) (i : TxInput) {s' : Spent}
        → Known s.utxos i
        → collect_inputs x db false s vins ≡ ok s'
        → Known s'.utxos i
    unfolding collect_inputs
    inputs-keep s [] i known h = subst (λ (c : Spent). Known c.utxos i) (ok_injective h) known
    inputs-keep s (vin ∷ vins) i known h = elim (collect_step s vin vins h) [
      | inl (absent, rest) ↦ inputs-keep s vins i known rest
      | inr (b, o, found, read, rest) ↦
          inputs-keep (insert_output false (vin.txid, vin.vout) o s) vins i
            (Known-insert s.utxos vin.txid vin.vout o i known) rest
    ]

    -- Stored inputs are known once they were collected.
    abbrev Stored : TxInput → Type 0
    Stored i = (v : ℕ) × IsWorth x db i v

    inputs-Known :
        (s : Spent) (vins : List TxInput) {s' : Spent}
        → collect_inputs x db false s vins ≡ ok s'
        → All (λ i. Stored i → Known s'.utxos i) vins
    inputs-Known s [] h = tt
    inputs-Known s (vin ∷ vins) h = elim (collect_step s vin vins h) [
      | inl (absent, rest) ↦
          (λ (v, (b, o, found, read, worth)). ground arith, inputs-Known s vins rest)
      | inr (b, o, found, read, rest) ↦
          let s1 = insert_output false (vin.txid, vin.vout) o s in
          (
            λ stored. inputs-keep s1 vins vin (o, self s.utxos vin o) rest,
            inputs-Known s1 vins rest,
          )
    ]

    -- The same for the inputs of all transactions.
    abbrev pub AllPlain : List Transaction → Type 0
    AllPlain = All (λ tx. tx.is_anonymous ≡ false)

    outputs_step :
        (s : Spent) (tx : Transaction) (txs : List Transaction) {s' : Spent}
        → tx.is_anonymous ≡ false
        → collect_outputs x db s (tx ∷ txs) ≡ ok s'
        → (s1 : Spent) × (collect_inputs x db false s tx.inputs ≡ ok s1)
          × (collect_outputs x db s1 txs ≡ ok s')
    unfolding collect_outputs
    outputs_step s tx txs plain h =
        >>=-eq-ok (collect_inputs x db false s tx.inputs) _ (rw plain at h)

    pub outputs-Agrees :
        (s : Spent) (txs : List Transaction) {s' : Spent}
        → AllPlain txs
        → Agrees s.utxos
        → collect_outputs x db s txs ≡ ok s'
        → Agrees s'.utxos
    unfolding collect_outputs
    outputs-Agrees s [] plain agrees h =
        subst (λ (c : Spent). Agrees c.utxos) (ok_injective h) agrees
    outputs-Agrees s (tx ∷ txs) (plain, plains) agrees h =
        let (s1, first, rest) = outputs_step s tx txs plain h in
        outputs-Agrees s1 txs plains (inputs-Agrees s tx.inputs agrees first) rest

    outputs-keep :
        (s : Spent) (txs : List Transaction) (i : TxInput) {s' : Spent}
        → AllPlain txs
        → Known s.utxos i
        → collect_outputs x db s txs ≡ ok s'
        → Known s'.utxos i
    unfolding collect_outputs
    outputs-keep s [] i plain known h =
        subst (λ (c : Spent). Known c.utxos i) (ok_injective h) known
    outputs-keep s (tx ∷ txs) i (plain, plains) known h =
        let (s1, first, rest) = outputs_step s tx txs plain h in
        outputs-keep s1 txs i plains (inputs-keep s tx.inputs i known first) rest

    abbrev pub Collected : Outputs → TxInput → Type 0
    Collected m i = Stored i → Known m i

    Collected-later :
        (s : Spent) (txs : List Transaction) (is : List TxInput) {s' : Spent}
        → AllPlain txs
        → collect_outputs x db s txs ≡ ok s'
        → All (Collected s.utxos) is
        → All (Collected s'.utxos) is
    Collected-later s txs [] plain h p = tt
    Collected-later s txs (i ∷ is) plain h (p, ps) =
        (λ stored. outputs-keep s txs i plain (p stored) h, Collected-later s txs is plain h ps)

    pub outputs-Collected :
        (s : Spent) (txs : List Transaction) {s' : Spent}
        → AllPlain txs
        → collect_outputs x db s txs ≡ ok s'
        → All (λ tx. All (Collected s'.utxos) tx.inputs) txs
    outputs-Collected s [] plain h = tt
    outputs-Collected s (tx ∷ txs) (plain, plains) h =
        let (s1, first, rest) = outputs_step s tx txs plain h in
        (
          Collected-later s1 txs tx.inputs plains rest (inputs-Known s tx.inputs first),
          outputs-Collected s1 txs plains rest,
        )

    -- By such a map an input is worth what is stored.
    values_of :
        (m : Outputs) (is : List TxInput) (vs : List ℕ)
        → Agrees m
        → All (Collected m) is
        → Worth x db is vs
        → map (input_value m) is ≡ vs
    unfolding input_value
    values_of m [] [] agrees known w = refl
    values_of m [] (v ∷ vs) agrees known w = absurd w
    values_of m (i ∷ is) [] agrees known w = absurd w
    values_of m (i ∷ is) (v ∷ vs) agrees (known, knowns) (w, ws) =
        let (o, here) = known (v, w) in
        let (b, found, read) = agrees i.txid i.vout o here in
        let (b', o', found', read', worth) = w in
        let rest : map (input_value m) is ≡ vs = values_of m is vs agrees knowns ws in
        let same : o.value ≡ v = ground arith in
        let head : input_value m i ≡ v = ground arith in simp (head, rest)

    -- The fee of a payment is the least one, or more.
    pub fee-ge :
        (m : Outputs) (tx : Transaction) (best height : ℕ)
        → Agrees m
        → All (Collected m) tx.inputs
        → IsPayment x tx best db height
        → tx_size x tx * min_fee_per_byte ≤ fee tx m
    unfolding fee
    fee-ge m tx best height agrees known p =
        let values : map (input_value m) tx.inputs ≡ p.values =
          values_of m tx.inputs p.values agrees known p.worth in
        let ins : try_sum 0 (map (input_value m) tx.inputs) ≡ some (0 + sum p.values) =
          rw values (try_sum_complete 0 p.values (omega (arith, p.fits))) in
        let outs : try_sum 0 (output_values tx.outputs)
            ≡ some (0 + sum (output_values tx.outputs)) =
          try_sum_complete 0 (output_values tx.outputs) (omega (arith, p.fits, p.covered)) in
        ground (arith, ins, outs, p.covered)
