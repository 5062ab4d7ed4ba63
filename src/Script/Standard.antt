-- ===== src/Script/Standard.antt =====
-- The standard payment: an output to the hash of a key, spent by a signature and the key.
use mathlib.Core.Path.{subst}
use mathlib.Core.List.{append_assoc, append-nil}
use abc.Prelude.{
  ◌↔◌, ℕ, ◌+◌, ◌-◌, ◌≡◌, refl, ap, sym, ◌∙◌, true, false, ◌==◌, some, [], ◌∷◌, ◌++◌, length, take,
  drop, ltb, arith, length-append,
}
use abc.Bytes.{Bytes}
use abc.Bytes.Laws.{eq_bytes_refl}
use abc.Errors.{ok}
use abc.External.{External, Secp}
use abc.Script.{
  get_byte, slice, sighash, is_p2pkh, split_signature, verify, check_p2pkh, validate_script,
}
use abc.Tx.{hash160, p2pkh_script}
use abc.Types.{Hash, TxInput, TxOutput, Transaction}

take-append : (a b : Bytes) → take (length a) (a ++ b) ≡ a
take-append [] b = refl
take-append (v ∷ a) b = ap (λ t. v ∷ t) (take-append a b)

drop-append : (a b : Bytes) → drop (length a) (a ++ b) ≡ b
drop-append [] b = refl
drop-append (v ∷ a) b = drop-append a b

get_byte-append : (a : Bytes) (v : ℕ) (b : Bytes) → get_byte (a ++ (v ∷ b)) (length a) ≡ ok v
unfolding get_byte
get_byte-append [] v b = refl
get_byte-append (u ∷ a) v b = get_byte-append a v b

-- The middle of three parts.
slice-append : (a b c : Bytes) → slice (a ++ (b ++ c)) (length a) (length a + length b) ≡ ok b
unfolding slice
slice-append a b c =
    let total : length (a ++ (b ++ c)) ≡ length a + (length b + length c) =
      length-append a (b ++ c) ∙ ap (λ n. length a + n) (length-append b c) in
    let width : length a + length b - length a ≡ length b = omega arith in
    rw (drop-append a (b ++ c), width, take-append b c) (ground arith)

-- `script_pubkey`, read piece by piece.
module _ (x : External) (pk : Bytes) (size : length (hash160 x pk) ≡ 20) where
  length-p2pkh_script : length (p2pkh_script x pk) ≡ 25
  unfolding p2pkh_script
  length-p2pkh_script = omega (arith, size, length-append (hash160 x pk) (0x88 ∷ 0xac ∷ []))

  p2pkh_script-is_p2pkh : is_p2pkh (p2pkh_script x pk) ≡ ok true
  unfolding p2pkh_script is_p2pkh get_byte
  p2pkh_script-is_p2pkh =
      let h : Bytes = hash160 x pk in
      let start : Bytes = 0x76 ∷ 0xa9 ∷ 0x14 ∷ h in
      let full : length start ≡ 23 = omega (arith, size) in
      let b23 : get_byte (start ++ (0x88 ∷ 0xac ∷ [])) 23 ≡ ok 0x88 =
        subst (λ n. get_byte (start ++ (0x88 ∷ 0xac ∷ [])) n ≡ ok 0x88) full
          (get_byte-append start 0x88 (0xac ∷ [])) in
      let size' : length (start ++ (0x88 ∷ [])) ≡ 24 =
        omega (arith, size, length-append h (0x88 ∷ [])) in
      let whole = append_assoc start (0x88 ∷ []) (0xac ∷ []) in
      let b24 : get_byte (start ++ (0x88 ∷ 0xac ∷ [])) 24 ≡ ok 0xac =
        subst (λ b. get_byte b 24 ≡ ok 0xac) whole
          (subst (λ n. get_byte ((start ++ (0x88 ∷ [])) ++ (0xac ∷ [])) n ≡ ok 0xac) size'
            (get_byte-append (start ++ (0x88 ∷ [])) 0xac [])) in
      simp (b23, b24)

  slice-p2pkh_script : slice (p2pkh_script x pk) 3 23 ≡ ok (hash160 x pk)
  unfolding p2pkh_script
  slice-p2pkh_script =
      subst (λ n. slice (p2pkh_script x pk) 3 (3 + n) ≡ ok (hash160 x pk)) size
        (slice-append (0x76 ∷ 0xa9 ∷ 0x14 ∷ []) (hash160 x pk) (0x88 ∷ 0xac ∷ []))

split_signature-append : (der : Bytes) (ty : ℕ) → split_signature (der ++ (ty ∷ [])) ≡ ok (der, ty)
split_signature-append der ty =
    let sig : Bytes = der ++ (ty ∷ []) in
    let n : length sig ≡ length der + 1 = length-append der (ty ∷ []) in
    let some_byte : (length sig == 0) ≡ false = ground (arith, n) in
    let before : length sig - 1 ≡ length der = omega (arith, n) in
    let body : slice sig 0 (length der) ≡ ok der =
      subst (λ k. slice sig 0 k ≡ ok der) (omega arith) (slice-append [] der (ty ∷ [])) in
    simp (some_byte, before, get_byte-append der ty [], body)

-- The script of an input: a signature with the type of its hash, and a key, each behind its length.
abbrev pub standard_sig : Bytes → ℕ → Bytes → Bytes
standard_sig der ty pk = (length (der ++ (ty ∷ []))) ∷ ((der ++ (ty ∷ [])) ++ (length pk ∷ pk))

module _ (sig pk : Bytes) where
  whole_length : length (length sig ∷ (sig ++ (length pk ∷ pk))) ≡ 2 + length sig + length pk
  whole_length = omega (arith, length-append sig (length pk ∷ pk))

  sig_slice : slice (length sig ∷ (sig ++ (length pk ∷ pk))) 1 (1 + length sig) ≡ ok sig
  sig_slice = slice-append (length sig ∷ []) sig (length pk ∷ pk)

  len_byte : get_byte (length sig ∷ (sig ++ (length pk ∷ pk))) (1 + length sig) ≡ ok (length pk)
  len_byte =
      subst (λ n. get_byte (length sig ∷ (sig ++ (length pk ∷ pk))) n ≡ ok (length pk))
        (omega arith) (get_byte-append (length sig ∷ sig) (length pk) pk)

  key_slice :
      slice (length sig ∷ (sig ++ (length pk ∷ pk))) (2 + length sig) (2 + length sig + length pk)
      ≡ ok pk
  key_slice =
      let front : Bytes = length sig ∷ (sig ++ (length pk ∷ [])) in
      let size : length front ≡ 2 + length sig =
        omega (arith, length-append sig (length pk ∷ [])) in
      let whole : front ++ (pk ++ []) ≡ length sig ∷ (sig ++ (length pk ∷ pk)) =
        append_assoc (length sig ∷ sig) (length pk ∷ []) (pk ++ [])
        ∙ ap (λ t. length sig ∷ (sig ++ (length pk ∷ t))) (append-nil pk) in
      subst (λ b. slice b (2 + length sig) (2 + length sig + length pk) ≡ ok pk) whole
        (subst (λ n. slice (front ++ (pk ++ [])) n (n + length pk) ≡ ok pk) size
          (slice-append front pk []))

module _ (x : External) (secp : Secp) where
  verify_iff :
      (msg : Hash) (s : secp.Signature) (k : secp.PublicKey)
      → (verify x secp msg s k ≡ ok tt) ↔ (secp.verify_ecdsa msg s k ≡ true)
  verify_iff msg s k = (λ h. ground arith, λ h. ground arith)

  -- An output to the hash of a key is spent by a signature and that key exactly when the signature
  -- verifies against the hash of the transaction: the node answers what secp256k1 does. It is
  -- supposed that the hash of the key has 20 bytes and that both are well encoded.
  pub validate_script_p2pkh :
      (input : TxInput) (output : TxOutput) (tx : Transaction) (i ty : ℕ) (der pk : Bytes)
      (msg : Hash) (signature : secp.Signature) (key : secp.PublicKey)
      → length (hash160 x pk) ≡ 20
      → input.script_sig ≡ standard_sig der ty pk
      → output.script_pubkey ≡ p2pkh_script x pk
      → sighash x secp tx i (p2pkh_script x pk) ty ≡ ok msg
      → secp.signature_from_der der ≡ some signature
      → secp.public_key_from_slice pk ≡ some key
      → (validate_script x secp input output tx i ≡ ok tt)
        ↔ (secp.verify_ecdsa msg signature key ≡ true)
  unfolding validate_script check_p2pkh get_byte
  validate_script_p2pkh input output tx i ty der pk msg signature key size ins outs hash der_ok
        key_ok =
      let sig : Bytes = der ++ (ty ∷ []) in
      let script : Bytes = length sig ∷ (sig ++ (length pk ∷ pk)) in
      let n = whole_length sig pk in
      let ends : ltb (length script) (length sig + 1) ≡ false = ground (arith, n) in
      let ends' : ltb (length script) (2 + length sig + length pk) ≡ false = ground (arith, n) in
      let verdict : validate_script x secp input output tx i ≡ verify x secp msg signature key =
        rw (ins, outs)
          (simp (
            length-p2pkh_script x pk size,
            p2pkh_script-is_p2pkh x pk size,
            slice-p2pkh_script x pk size,
            ends,
            sig_slice sig pk,
            len_byte sig pk,
            ends',
            key_slice sig pk,
            eq_bytes_refl (hash160 x pk),
            split_signature-append der ty,
            hash,
            der_ok,
            key_ok,
          )) in
      let answer = verify_iff msg signature key in
      (λ h. answer.0 (sym verdict ∙ h), λ h. verdict ∙ answer.1 h)
