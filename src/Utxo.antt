-- ===== src/Utxo.antt =====
-- 111/src/chain.rs `handle_utxo_action` and `apply_utxo_changes`: what connecting or disconnecting
-- a block does to the outputs, the key images, the coinbase heights and the address index, as
-- entries of a write batch with the entries that would undo them. The names that the source uses
-- without declaring them (`height`, `cf_key_images`) are arguments here, as its callers have them.
pub mod Write
pub mod Supply
pub mod Reorg
pub mod Coinbase
mod Tests
use Prim.Native.Nat.{bit_xor}
use abc.Prelude.{
  ℕ, zero, suc, ◌+◌, ◌-◌, ◌%◌, Bool, true, false, Option, none, some, List, [], ◌∷◌, ◌++◌, length,
  take, ltb, if◌then◌else◌,
}
use mathlib.Core.List.{reverse}
use abc.Bytes.{Bytes, to_be_bytes, utxo_key, anon_key}
use abc.Errors.{
  Result, ok, err, ◌>>=◌, ◌>>◌, bail_if, ok_or, anyhow, double_spend, missing_utxo, value_overflow,
  invalid_script, invalid_key_image,
}
use abc.Types.{Hash, TxInput, TxOutput, Transaction, Block}
use abc.External.{
  Cf, default, utxo, anonymous, key_images, coinbase, addr_index, WriteOp, put_cf, delete_cf,
  External,
}
use abc.Tx.{is_coinbase, sha256d, hash160, tx_hash}
use abc.Utils.Checked.{u32_mod, checked_add, checked_sub}

-- `Action`
pub data Action : Type 0 where
  connect disconnect : Action

abbrev pub is_connect : Action → Bool
is_connect connect = true
is_connect disconnect = false

-- `xor_hash`, byte by byte.
unfoldable pub xor_hash : Hash → Hash → Hash
xor_hash (a ∷ as') (b ∷ bs) = bit_xor a b ∷ xor_hash as' bs
xor_hash as' _ = as'

-- What the loops change: the batch, the undo entries (a key's old value, or none), the hash of the
-- set of unspent outputs, and the supply.
pub record Acc : Type 0 where
  pub batch : List WriteOp
  pub rollback_ops : List (Cf × Bytes × Option Bytes)
  pub set_hash : Hash
  pub supply : ℕ

-- One entry for the batch, and one to undo it.
abbrev pub push : WriteOp → List (Cf × Bytes × Option Bytes) → Acc → Acc
push op undo a = record a { batch = a.batch ++ (op ∷ []); rollback_ops = a.rollback_ops ++ undo }

-- `if let Some(prev) = ... { rollback_ops.push((cf, key, Some(prev))) }`
abbrev pub undo_of : Cf → Bytes → Option Bytes → List (Cf × Bytes × Option Bytes)
undo_of cf key none = []
undo_of cf key (some prev) = (cf, key, some prev) ∷ []

abbrev pub output_cf : Bool → Cf
output_cf true = anonymous
output_cf false = utxo

abbrev pub output_key : Bool → Hash → ℕ → Bytes
output_key true = anon_key
output_key false = utxo_key

module _ (x : External) where
  open x use {Db, get_cf, serialize_output, deserialize_output, key_image_from_slice}

  -- `hash_utxo_entry`
  unfoldable pub hash_utxo_entry : Hash → ℕ → TxOutput → Hash
  hash_utxo_entry txid vout output = sha256d x (
      txid
      ++ (to_be_bytes 4 vout
          ++ (to_be_bytes 8 output.value
              ++ (output.script_pubkey
                  ++ elim output.commitment [ none ↦ [] | some comm ↦ comm ]))))

  -- `b"addr:" + hash160(script_pubkey) + txid + vout`
  unfoldable pub addr_key : Bytes → Hash → ℕ → Bytes
  addr_key script txid vout =
      (b'a' ∷ b'd' ∷ b'd' ∷ b'r' ∷ b':' ∷ []) ++ (hash160 x script ++ (txid ++ to_be_bytes 4 vout))

  -- The branch of `handle_utxo_action` for a coinbase.
  unfoldable pub coinbase_action : Db → Action → ℕ → Hash → Acc → Acc
  coinbase_action snapshot connect height txid a =
      push (put_cf coinbase txid (to_be_bytes 8 height)) ((coinbase, txid, none) ∷ []) a
  coinbase_action snapshot disconnect height txid a =
      push (delete_cf coinbase txid) (undo_of coinbase txid (get_cf snapshot coinbase txid)) a

  -- The key image of an anonymous input.
  unfoldable pub key_image_action : Db → Action → ℕ → TxInput → Acc → Result Acc
  key_image_action snapshot action height vin a = do
    bail_if (ltb (length vin.script_sig) 32) invalid_script
    key_image ← ok_or (key_image_from_slice (take 32 vin.script_sig)) invalid_key_image
    elim action [
      | connect ↦ elim (get_cf snapshot key_images key_image) [
        | some exists ↦ err double_spend
        | none ↦ ok (
            push (put_cf key_images key_image (to_be_bytes 8 height))
              ((key_images, key_image, none) ∷ []) a)
      ]
      | disconnect ↦ ok (
          push (delete_cf key_images key_image)
            (undo_of key_images key_image (get_cf snapshot key_images key_image)) a)
    ]

  -- The output that an input spends leaves the set, or comes back.
  unfoldable pub spend_action : Db → Action → Bool → TxInput → Acc → Result Acc
  spend_action snapshot action anon vin a = do
    let key = output_key anon vin.txid vin.vout
    let cf = output_cf anon
    prev ← ok_or (get_cf snapshot cf key) missing_utxo
    prev_out ← ok_or (deserialize_output prev) (anyhow "Deserialize prev_out failed")
    let set_hash = xor_hash a.set_hash (hash_utxo_entry vin.txid vin.vout prev_out)
    elim action [
      | connect ↦ do
        supply ← ok_or (checked_sub a.supply prev_out.value) value_overflow
        ok (
            push (delete_cf cf key) ((cf, key, some prev) ∷ [])
              (record a { set_hash = set_hash; supply = supply }))
      | disconnect ↦ do
        supply ← ok_or (checked_add a.supply prev_out.value) value_overflow
        ok (
            push (put_cf cf key prev) ((cf, key, none) ∷ [])
              (record a { set_hash = set_hash; supply = supply }))
    ]

  -- The two loops over the inputs.
  unfoldable pub inputs_action : Db → Action → ℕ → Bool → List TxInput → Acc → Result Acc
  inputs_action snapshot action height anon [] a = ok a
  inputs_action snapshot action height anon (vin ∷ vins) a = do
    a' ← (if anon then key_image_action snapshot action height vin a else ok a)
    a'' ← spend_action snapshot action anon vin a'
    inputs_action snapshot action height anon vins a''

  -- The index of addresses, for a transparent output.
  unfoldable pub addr_action : Db → Action → Hash → ℕ → TxOutput → Acc → Acc
  addr_action snapshot connect txid vout out a =
      push (put_cf addr_index (addr_key out.script_pubkey txid vout) (to_be_bytes 8 out.value))
        ((addr_index, addr_key out.script_pubkey txid vout, none) ∷ []) a
  addr_action snapshot disconnect txid vout out a =
      let key = addr_key out.script_pubkey txid vout in
      push (delete_cf addr_index key) (undo_of addr_index key (get_cf snapshot addr_index key)) a

  -- An output of the transaction joins the set, or leaves it.
  unfoldable pub output_action : Db → Action → Bool → Hash → ℕ → TxOutput → Acc → Result Acc
  output_action snapshot action anon txid vout out a = do
    let key = output_key anon txid (vout % u32_mod)
    let cf = output_cf anon
    let set_hash = xor_hash a.set_hash (hash_utxo_entry txid (vout % u32_mod) out)
    a' ← elim action [
      | connect ↦ do
        supply ← ok_or (checked_add a.supply out.value) value_overflow
        ok (
            push (put_cf cf key (serialize_output out)) ((cf, key, none) ∷ [])
              (record a { set_hash = set_hash; supply = supply }))
      | disconnect ↦ do
        supply ← ok_or (checked_sub a.supply out.value) value_overflow
        ok (
            push (delete_cf cf key) (undo_of cf key (get_cf snapshot cf key))
              (record a { set_hash = set_hash; supply = supply }))
    ]
    ok (if anon then a' else addr_action snapshot action txid (vout % u32_mod) out a')

  -- `for (vout, out) in outputs_iter`, from the number `vout` on.
  unfoldable pub outputs_action : Db → Action → Bool → Hash → ℕ → List TxOutput → Acc → Result Acc
  outputs_action snapshot action anon txid vout [] a = ok a
  outputs_action snapshot action anon txid vout (out ∷ outs) a = do
    a' ← output_action snapshot action anon txid vout out a
    outputs_action snapshot action anon txid (vout + 1) outs a'

  -- `tx.outputs.iter().enumerate()`, or `tx.outputs.iter().rev().enumerate()`.
  abbrev pub outputs_in_order : Action → List TxOutput → List TxOutput
  outputs_in_order connect outs = outs
  outputs_in_order disconnect outs = reverse outs

  unfoldable pub handle_utxo_action : Db → Action → ℕ → Transaction → Acc → Result Acc
  handle_utxo_action snapshot action height tx a =
      if is_coinbase tx then ok (coinbase_action snapshot action height (tx_hash x tx) a) else (do
        a' ← inputs_action snapshot action height tx.is_anonymous tx.inputs a
        outputs_action snapshot action tx.is_anonymous (tx_hash x tx) 0
            (outputs_in_order action tx.outputs) a')

  -- The loop over the transactions.
  unfoldable pub txs_action : Db → Action → ℕ → List Transaction → Acc → Result Acc
  txs_action snapshot action height [] a = ok a
  txs_action snapshot action height (tx ∷ txs) a = do
    a' ← handle_utxo_action snapshot action height tx a
    txs_action snapshot action height txs a'

  -- `DB_KEY_UTXO_SET_HASH` and `DB_KEY_TOTAL_SUPPLY`.
  abbrev pub key_utxo_set_hash : Bytes
  key_utxo_set_hash =
      b'u' ∷ b't' ∷ b'x' ∷ b'o' ∷ b'_' ∷ b's' ∷ b'e' ∷ b't' ∷ b'_' ∷ b'h' ∷ b'a' ∷ b's' ∷ b'h' ∷ []

  abbrev pub key_total_supply : Bytes
  key_total_supply =
      b't' ∷ b'o' ∷ b't' ∷ b'a' ∷ b'l' ∷ b'_' ∷ b's' ∷ b'u' ∷ b'p' ∷ b'p' ∷ b'l' ∷ b'y' ∷ []

  -- `apply_utxo_changes`, from the hash and the supply in memory.
  unfoldable pub apply_utxo_changes : Db → Action → ℕ → Block → Acc → Result Acc
  apply_utxo_changes snapshot action height block a = do
    a' ← txs_action snapshot action height block.txs a
    ok (record a' {
      batch =
          a'.batch
          ++ (put_cf default key_utxo_set_hash a'.set_hash
              ∷ put_cf default key_total_supply (to_be_bytes 8 a'.supply)
              ∷ []);
    })
