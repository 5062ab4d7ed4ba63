-- ===== src/Script/Keys.antt =====
-- Which scripts can be satisfied.
use abc.Prelude.{
  zero, suc, ◌≤◌, ◌||◌, ltb, Bool-cases, ap, ℕ, ◌+◌, ◌-◌, ◌≡◌, ◌≢◌, true, ◌⊎◌, inl, inr, refl, some,
  [], ◌∷◌, length, take, drop, arith,
}
use abc.Bytes.{Bytes}
use abc.Errors.{ok_or, ok, panicked, >>=-eq-ok}
use abc.External.{External, Secp}
use abc.Script.{get_byte, slice, is_p2pkh, check_p2pk, check_p2pkh, validate_script}
use abc.Types.{TxInput, TxOutput, Transaction}

length-take : (n : ℕ) (b : Bytes) → n ≤ length b → length (take n b) ≡ n
length-take zero b h = refl
length-take (suc n) [] h = absurd (omega (arith, h))
length-take (suc n) (v ∷ b) h = omega (arith, length-take n b (omega (arith, h)))

length-drop : (n : ℕ) (b : Bytes) → n ≤ length b → length (drop n b) + n ≡ length b
length-drop zero b h = omega arith
length-drop (suc n) [] h = absurd (omega (arith, h))
length-drop (suc n) (v ∷ b) h = omega (arith, length-drop n b (omega (arith, h)))

-- A slice has the length of its bounds.
length-slice : (b : Bytes) (from to : ℕ) {s : Bytes} → slice b from to ≡ ok s → length s + from ≡ to
unfolding slice
length-slice b from to {s} h = elim (Bool-cases (ltb to from || ltb (length b) to)) [
  | inl out ↦ ground arith
  | inr fits ↦
      let lo : from ≤ to = ground arith in
      let hi : to ≤ length b = ground arith in
      let is : take (to - from) (drop from b) ≡ s = ground arith in
      let rest = length-drop from b (omega arith) in
      let size = length-take (to - from) (drop from b) (omega (arith, rest)) in
      omega (arith, ap length is, size)
]

module _ (x : External) (secp : Secp) where
  -- Public keys are encoded in 33 bytes, or in 65.
  abbrev pub KeySizes : Type 0
  KeySizes =
      (b : Bytes) (k : secp.PublicKey)
      → secp.public_key_from_slice b ≡ some k
      → (length b ≡ 33) ⊎ (length b ≡ 65)

  check_p2pk-refused :
      KeySizes
      → (input : TxInput) (output : TxOutput) (tx : Transaction) (i : ℕ)
      → check_p2pk x secp input output tx i ≢ ok tt
  unfolding check_p2pk
  check_p2pk-refused sizes input output tx i h =
      let (pubkey, sliced, rest) = >>=-eq-ok (slice output.script_pubkey 1 33) _ h in
      let (pk, read, rest') = >>=-eq-ok (ok_or (secp.public_key_from_slice pubkey) _) _ rest in
      let size : length pubkey + 1 ≡ 33 = length-slice output.script_pubkey 1 33 sliced in
      elim (sizes pubkey pk (ground arith)) [
        | inl short ↦ omega (arith, short, size)
        | inr long ↦ omega (arith, long, size)
      ]

  -- A payment to a public key, by a script of 34 bytes, can never be spent: the node reads 32 bytes
  -- of the key, and keys of secp256k1 are encoded in 33 bytes or in 65.
  pub validate_script_refuses_p2pk :
      KeySizes
      → (input : TxInput) (output : TxOutput) (tx : Transaction) (i : ℕ)
      → length output.script_pubkey ≡ 34
      → validate_script x secp input output tx i ≢ ok tt
  unfolding validate_script
  validate_script_refuses_p2pk sizes input output tx i n h =
      let refused = check_p2pk-refused sizes input output tx i in ground (arith, refused)

  -- An output to the hash of a public key panics the node when the input has an empty script.
  pub validate_script_empty_panics :
      (input : TxInput) (output : TxOutput) (tx : Transaction) (i : ℕ)
      → length output.script_pubkey ≡ 25
      → is_p2pkh output.script_pubkey ≡ ok true
      → input.script_sig ≡ []
      → validate_script x secp input output tx i ≡ panicked
  unfolding validate_script check_p2pkh slice get_byte
  validate_script_empty_panics input output tx i n standard none = ground (arith, standard)
