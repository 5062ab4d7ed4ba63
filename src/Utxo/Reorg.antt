-- ===== src/Utxo/Reorg.antt =====
-- A transaction that was connected cannot be disconnected: its inputs are looked up in the state
-- from which connecting it deleted them.
use abc.Prelude.{
  ℕ, ◌+◌, ◌%◌, ◌≡◌, ◌≢◌, false, ◌&&◌, none, List, [], ◌∷◌, ◌++◌, length, arith, refl, sym, ◌∙◌,
}
use abc.Bytes.{Bytes, eq_bytes, to_be_bytes, utxo_key}
use abc.Bytes.Laws.{eq_bytes_iff, eq_bytes_refl}
use abc.Bytes.Keys.{utxo_key_txid}
use mathlib.Core.Path.{subst}
use abc.Utils.Checked.{u32_mod}
use abc.Errors.{>>=-eq-ok, ok_injective}
use abc.External.{addr_index}
use abc.Utxo.{addr_key, Action, outputs_in_order}
use abc.Tx.Merkle.Binding.{Digests32}
use abc.Errors.{◌>>=◌}
use abc.Errors.{ok, err, missing_utxo}
use abc.Types.{Hash, TxInput, TxOutput, Transaction}
use abc.External.{Cf, eq_cf, utxo, WriteOp, put_cf, delete_cf, IsRocks, External}
use abc.Tx.{is_coinbase, tx_hash, sha256d}
use abc.Utxo.{
  Acc, connect, disconnect, addr_action, output_action, outputs_action, spend_action, inputs_action,
  handle_utxo_action,
}
use abc.Utxo.Write.{write, get_cf-write}

module _ (x : External) (laws : IsRocks x.rocks) where
  open x use {Db, get_cf}

  module _ (db : Db) (k : Bytes) where
    -- Once the batch is written, the key is not in the family `utxo`.
    abbrev Absent : List WriteOp → Type 0
    Absent ops = get_cf (write x db ops) utxo k ≡ none

    delete-Absent :
        (ops : List WriteOp) (c : Cf) (j : Bytes)
        → Absent ops
        → Absent (ops ++ (delete_cf c j ∷ []))
    delete-Absent ops c j h = ground (arith, get_cf-write x laws db ops (delete_cf c j) utxo k)

    delete_self-Absent : (ops : List WriteOp) → Absent (ops ++ (delete_cf utxo k ∷ []))
    delete_self-Absent ops =
        ground (arith, eq_bytes_refl k, get_cf-write x laws db ops (delete_cf utxo k) utxo k)

    put-Absent :
        (ops : List WriteOp) (c : Cf) (j v : Bytes)
        → (eq_cf c utxo && eq_bytes j k) ≡ false
        → Absent ops
        → Absent (ops ++ (put_cf c j v ∷ []))
    put-Absent ops c j v other h = ground (arith, get_cf-write x laws db ops (put_cf c j v) utxo k)

    -- A transparent input is deleted, and no earlier deletion is lost.
    spend-batch :
        (snapshot : Db) (vin : TxInput) (a : Acc) {a' : Acc}
        → spend_action x snapshot connect false vin a ≡ ok a'
        → a'.batch ≡ a.batch ++ (delete_cf utxo (utxo_key vin.txid vin.vout) ∷ [])
    unfolding spend_action
    spend-batch snapshot vin a h = ground arith

    inputs-Absent :
        (snapshot : Db) (height : ℕ) (vins : List TxInput) (a : Acc) {a' : Acc}
        → Absent a.batch
        → inputs_action x snapshot connect height false vins a ≡ ok a'
        → Absent a'.batch
    unfolding inputs_action
    inputs-Absent snapshot height [] a p h = subst (λ (c : Acc). Absent c.batch) (ok_injective h) p
    inputs-Absent snapshot height (vin ∷ vins) a p h =
        let (a1, first, rest) =
          >>=-eq-ok (spend_action x snapshot connect false vin a)
            (inputs_action x snapshot connect height false vins) h in
        let p1 : Absent a1.batch =
          rw (spend-batch snapshot vin a first)
            (delete-Absent a.batch utxo (utxo_key vin.txid vin.vout) p) in
        inputs-Absent snapshot height vins a1 p1 rest

    output-batch :
        (snapshot : Db) (txid : Hash) (vout : ℕ) (out : TxOutput) (a : Acc) {a' : Acc}
        → output_action x snapshot connect false txid vout out a ≡ ok a'
        → a'.batch
          ≡ (a.batch
              ++ (put_cf utxo (utxo_key txid (vout % u32_mod)) (x.serialize_output out) ∷ []))
            ++ (put_cf addr_index
                  (addr_key x out.script_pubkey txid (vout % u32_mod))
                  (to_be_bytes 8 out.value)
                ∷ [])
    unfolding output_action addr_action
    output-batch snapshot txid vout out a h = ground arith

    output-Absent :
        (snapshot : Db) (txid : Hash) (vout : ℕ) (out : TxOutput) (a : Acc) {a' : Acc}
        → ((v : ℕ) → utxo_key txid v ≢ k)
        → Absent a.batch
        → output_action x snapshot connect false txid vout out a ≡ ok a'
        → Absent a'.batch
    output-Absent snapshot txid vout out a other p h =
        let key : Bytes = utxo_key txid (vout % u32_mod) in
        let ne : eq_bytes key k ≡ false =
          ground (arith, eq_bytes_iff key k, other (vout % u32_mod)) in
        rw (output-batch snapshot txid vout out a h) (
          put-Absent (a.batch ++ (put_cf utxo key (x.serialize_output out) ∷ [])) addr_index
            (addr_key x out.script_pubkey txid (vout % u32_mod)) (to_be_bytes 8 out.value) refl
            (put-Absent a.batch utxo key (x.serialize_output out) ne p))

    outputs-Absent :
        (snapshot : Db) (txid : Hash) (vout : ℕ) (outs : List TxOutput) (a : Acc) {a' : Acc}
        → ((v : ℕ) → utxo_key txid v ≢ k)
        → Absent a.batch
        → outputs_action x snapshot connect false txid vout outs a ≡ ok a'
        → Absent a'.batch
    unfolding outputs_action
    outputs-Absent snapshot txid vout [] a other p h =
        subst (λ (c : Acc). Absent c.batch) (ok_injective h) p
    outputs-Absent snapshot txid vout (out ∷ outs) a other p h =
        let (a1, first, rest) =
          >>=-eq-ok (output_action x snapshot connect false txid vout out a)
            (outputs_action x snapshot connect false txid (vout + 1) outs) h in
        outputs-Absent snapshot txid (vout + 1) outs a1 other
          (output-Absent snapshot txid vout out a other p first) rest

  handle_plain :
      (snapshot : Db) (act : Action) (height : ℕ) (tx : Transaction) (a : Acc)
      → is_coinbase tx ≡ false
      → tx.is_anonymous ≡ false
      → handle_utxo_action x snapshot act height tx a ≡ (
          inputs_action x snapshot act height false tx.inputs a
          >>= outputs_action x snapshot act false
              (tx_hash x tx)
              0
              (outputs_in_order x act tx.outputs))
  unfolding handle_utxo_action
  handle_plain snapshot act height tx a c plain = simp (c, plain)

  -- Connecting a transparent transaction leaves its first input's key absent.
  connected-Absent :
      (db snapshot : Db) (height : ℕ) (tx : Transaction) (vin : TxInput) (vins : List TxInput)
      (a : Acc) {a' : Acc}
      → is_coinbase tx ≡ false
      → tx.is_anonymous ≡ false
      → tx.inputs ≡ vin ∷ vins
      → ((v : ℕ) → utxo_key (tx_hash x tx) v ≢ utxo_key vin.txid vin.vout)
      → handle_utxo_action x snapshot connect height tx a ≡ ok a'
      → get_cf (write x db a'.batch) utxo (utxo_key vin.txid vin.vout) ≡ none
  unfolding inputs_action
  connected-Absent db snapshot height tx vin vins a c plain ins other h =
      let k : Bytes = utxo_key vin.txid vin.vout in
      let (a1, inputs, outputs) =
        >>=-eq-ok (inputs_action x snapshot connect height false tx.inputs a) _
          (sym (handle_plain snapshot connect height tx a c plain) ∙ h) in
      let inputs' : inputs_action x snapshot connect height false (vin ∷ vins) a ≡ ok a1 =
        rw ins at inputs in
      let (a2, first, rest) =
        >>=-eq-ok (spend_action x snapshot connect false vin a)
          (inputs_action x snapshot connect height false vins) inputs' in
      let gone : Absent db k a2.batch =
        rw (spend-batch db k snapshot vin a first) (delete_self-Absent db k a.batch) in
      outputs-Absent db k snapshot (tx_hash x tx) 0 tx.outputs a1 other
        (inputs-Absent db k snapshot height vins a2 gone rest) outputs

  -- Disconnecting it fails on its first input.
  disconnect-missing :
      (db : Db) (height : ℕ) (tx : Transaction) (vin : TxInput) (vins : List TxInput) (a : Acc)
      → is_coinbase tx ≡ false
      → tx.is_anonymous ≡ false
      → tx.inputs ≡ vin ∷ vins
      → get_cf db utxo (utxo_key vin.txid vin.vout) ≡ none
      → handle_utxo_action x db disconnect height tx a ≡ err missing_utxo
  unfolding inputs_action spend_action
  disconnect-missing db height tx vin vins a c plain ins gone =
      rw (handle_plain db disconnect height tx a c plain) (simp (ins, gone))

  -- Connecting a transparent transaction that spends something and writing its batch, and then
  -- disconnecting it from what was written, fails: the output that its first input spent is not
  -- there any more. It is supposed that ids are hashes of 32 bytes, that the transaction does not
  -- spend itself and that the database reads back what was written.
  pub reorg_fails :
      Digests32 x
      → (db : Db) (height : ℕ) (tx : Transaction) (vin : TxInput) (vins : List TxInput) (a b : Acc)
        {a' : Acc}
      → is_coinbase tx ≡ false
      → tx.is_anonymous ≡ false
      → tx.inputs ≡ vin ∷ vins
      → length vin.txid ≡ 32
      → vin.txid ≢ tx_hash x tx
      → handle_utxo_action x db connect height tx a ≡ ok a'
      → handle_utxo_action x (write x db a'.batch) disconnect height tx b ≡ err missing_utxo
  unfolding tx_hash sha256d
  reorg_fails digests db height tx vin vins a b {a'} c plain ins size other h =
      let ne : (v : ℕ) → utxo_key (tx_hash x tx) v ≢ utxo_key vin.txid vin.vout = λ v e.
        other (sym (utxo_key_txid (tx_hash x tx) vin.txid v vin.vout (digests _ ∙ sym size) e)) in
      disconnect-missing (write x db a'.batch) height tx vin vins b c plain ins
        (connected-Absent db db height tx vin vins a c plain ins ne h)
