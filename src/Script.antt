-- ===== src/Script.antt =====
-- 111/src/tx.rs `validate_script_with_timeout` and `Transaction::sighash`. The body of the timeout
-- does not wait for anything, so that it is not cut off. A hash of 32 bytes is always a message.
pub mod Keys
pub mod Standard
mod Tests
use abc.Prelude.{
  ℕ, zero, suc, ◌+◌, ◌-◌, Bool, ◌&&◌, ◌||◌, not, List, [], ◌∷◌, ◌++◌, map, length, take, drop, ltb,
  ◌==◌, if◌then◌else◌,
}
use abc.Bytes.{Bytes, eq_bytes, to_le_bytes}
use abc.Errors.{
  Result, ok, err, panicked, ◌>>=◌, ◌>>◌, bail_if, ok_or, anyhow, invalid_script, invalid_signature,
}
use abc.External.{External, Secp}
use abc.Tx.{sha256d, hash160}
use abc.Types.{Hash, TxInput, TxOutput, Transaction}

-- `bytes[i]`
unfoldable pub get_byte : Bytes → ℕ → Result ℕ
get_byte [] i = panicked
get_byte (b ∷ bs) zero = ok b
get_byte (b ∷ bs) (suc i) = get_byte bs i

-- `bytes[from..to]`
unfoldable pub slice : Bytes → ℕ → ℕ → Result Bytes
slice bytes from to =
    if ltb to from || ltb (length bytes) to
    then panicked
    else ok (take (to - from) (drop from bytes))

-- `inputs[i].script_sig = script`
unfoldable pub set_script : ℕ → Bytes → List TxInput → Result (List TxInput)
set_script i script [] = panicked
set_script zero script (vin ∷ vins) = ok (record vin { script_sig = script } ∷ vins)
set_script (suc i) script (vin ∷ vins) = do rest ← set_script i script vins; ok (vin ∷ rest)

abbrev pub clear_script : TxInput → TxInput
clear_script vin = record vin { script_sig = [] }

-- A signature with the type of its hash behind it.
abbrev pub split_signature : Bytes → Result (Bytes × ℕ)
split_signature sig = do
  bail_if (length sig == 0) invalid_script
  sighash_type ← get_byte sig (length sig - 1)
  sig_der ← slice sig 0 (length sig - 1)
  ok (sig_der, sighash_type)

-- `script_pubkey[0] != 0x76 || ...`, of 25 bytes.
unfoldable pub is_p2pkh : Bytes → Result Bool
is_p2pkh script = do
  b0 ← get_byte script 0
  b1 ← get_byte script 1
  b2 ← get_byte script 2
  b23 ← get_byte script 23
  b24 ← get_byte script 24
  ok (b0 == 0x76 && b1 == 0xa9 && b2 == 0x14 && b23 == 0x88 && b24 == 0xac)

module _ (x : External) (secp : Secp) where
  -- `Transaction::sighash`
  unfoldable pub sighash : Transaction → ℕ → Bytes → ℕ → Result Hash
  sighash tx input_idx script_pubkey sighash_type = do
    inputs ← set_script input_idx script_pubkey (map clear_script tx.inputs)
    ok (sha256d x (x.serialize_tx (record tx { inputs = inputs }) ++ to_le_bytes 4 sighash_type))

  abbrev pub verify : Hash → secp.Signature → secp.PublicKey → Result (Unit {0})
  verify msg sig pk = bail_if (not (secp.verify_ecdsa msg sig pk)) invalid_signature

  -- The branch of a script of 25 bytes.
  unfoldable pub check_p2pkh : TxInput → TxOutput → Transaction → ℕ → Result (Unit {0})
  check_p2pkh input output tx input_idx = do
    standard ← is_p2pkh output.script_pubkey
    bail_if (not standard) invalid_script
    pubkey_hash ← slice output.script_pubkey 3 23
    sig_len ← get_byte input.script_sig 0
    bail_if (ltb (length input.script_sig) (sig_len + 1)) invalid_script
    sig ← slice input.script_sig 1 (1 + sig_len)
    pubkey_len ← get_byte input.script_sig (1 + sig_len)
    bail_if (ltb (length input.script_sig) (2 + sig_len + pubkey_len)) invalid_script
    pubkey ← slice input.script_sig (2 + sig_len) (2 + sig_len + pubkey_len)
    bail_if (not (eq_bytes (hash160 x pubkey) pubkey_hash)) invalid_script
    (sig_der, sighash_type) ← split_signature sig
    msg ← sighash tx input_idx output.script_pubkey sighash_type
    signature ← ok_or (secp.signature_from_der sig_der) (anyhow "Invalid DER signature")
    pk ← ok_or (secp.public_key_from_slice pubkey) (anyhow "Invalid public key")
    verify msg signature pk

  -- The branch of a script of 34 bytes.
  unfoldable pub check_p2pk : TxInput → TxOutput → Transaction → ℕ → Result (Unit {0})
  check_p2pk input output tx input_idx = do
    pubkey ← slice output.script_pubkey 1 33
    pk ← ok_or (secp.public_key_from_slice pubkey) (anyhow "Invalid P2PK pubkey")
    (sig_der, sighash_type) ← split_signature input.script_sig
    msg ← sighash tx input_idx output.script_pubkey sighash_type
    signature ← ok_or (secp.signature_from_der sig_der) (anyhow "Invalid DER signature")
    verify msg signature pk

  unfoldable pub validate_script : TxInput → TxOutput → Transaction → ℕ → Result (Unit {0})
  validate_script input output tx input_idx =
      let n = length output.script_pubkey in
      if n == 25
      then check_p2pkh input output tx input_idx
      else if not (n == 34)
      then err invalid_script
      else (do
        b0 ← get_byte output.script_pubkey 0
        b33 ← get_byte output.script_pubkey 33
        (if b0 == 0x21 && b33 == 0xac
            then check_p2pk input output tx input_idx
            else err invalid_script))
