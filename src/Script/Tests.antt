-- ===== src/Script/Tests.antt =====
-- Scripts, with a signature that is its own encoding.
use abc.Bytes.{Bytes, eq_bytes, to_be_bytes, to_le_bytes, be_value, zeros}
use abc.Errors.{ok, err, panicked, invalid_signature}
use abc.External.{Secp}
use abc.Prelude.{
  ◌↔◌, ◌≡◌, ◌==◌, inl, refl, some, none, [], ◌∷◌, ◌++◌, length, if◌then◌else◌, arith, false, true,
}
use abc.Sample.{sample}
use abc.Script.{
  get_byte, slice, set_script, sighash, is_p2pkh, check_p2pkh, check_p2pk, validate_script,
}
use abc.Script.Keys.{KeySizes}
use abc.Script.Standard.{validate_script_p2pkh}
use abc.Tx.{hash160, sha256d, p2pkh_script}
use abc.Types.{Hash, TxInput, TxOutput, Transaction}

program : Unit {0}
unfolding eq_bytes to_be_bytes to_le_bytes be_value zeros get_byte slice set_script sighash is_p2pkh
    check_p2pkh check_p2pk validate_script hash160 sha256d p2pkh_script
program = tt

abbrev toy : Secp
toy = record {
  Signature = Bytes;
  PublicKey = Bytes;
  signature_from_der = λ b. some b;
  public_key_from_slice = λ b. if length b == 33 then some b else none;
  verify_ecdsa = λ msg sig pk. eq_bytes sig (5 ∷ []);
}

toy-KeySizes : KeySizes sample toy
toy-KeySizes b k h = inl (ground arith)

abbrev key : Bytes
key = zeros 33

abbrev locked : TxOutput
locked = record { value = 1; script_pubkey = p2pkh_script sample key; commitment = none }

-- A signature, the type of its hash, and the key.
abbrev spend : TxInput
spend = record { txid = []; vout = 0; script_sig = 2 ∷ 5 ∷ 1 ∷ 33 ∷ key; sequence = 0 }

abbrev tx : Transaction
tx = record {
  version = 1;
  is_anonymous = false;
  inputs = spend ∷ [];
  outputs = [];
  lock_time = 0;
  range_proofs = [];
}

signed : validate_script sample toy spend locked tx 0 ≡ ok tt
unfolding program
signed = refl

forged :
    validate_script sample toy (record spend { script_sig = 2 ∷ 6 ∷ 1 ∷ 33 ∷ key }) locked tx 0
    ≡ err invalid_signature
unfolding program
forged = refl

-- The signature fills the script: the length of the key is read behind its end.
no_key :
    validate_script sample toy (record spend { script_sig = 2 ∷ 5 ∷ 1 ∷ [] }) locked tx 0 ≡ panicked
unfolding program
no_key = refl

abbrev to_key : TxOutput
to_key = record locked { script_pubkey = 0x21 ∷ (zeros 32 ++ (0xac ∷ [])) }

abbrev digest : Hash
digest = sha256d sample (
    sample.serialize_tx
      (record tx { inputs = record spend { script_sig = p2pkh_script sample key } ∷ [] })
    ++ to_le_bytes 4 1)

validate_script_p2pkh_example :
    (validate_script sample toy spend locked tx 0 ≡ ok tt)
    ↔ (toy.verify_ecdsa digest (5 ∷ []) key ≡ true)
unfolding program
validate_script_p2pkh_example =
    validate_script_p2pkh sample toy spend locked tx 0 1 (5 ∷ []) key digest (5 ∷ []) key refl refl
      refl refl refl refl
