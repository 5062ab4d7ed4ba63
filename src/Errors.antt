-- ===== src/Errors.antt =====
-- 111/src/errors.rs: the errors of the node, and the result of a fallible function.
use abc.Prelude.{◌⊎◌, inl, inr, String, ◌≡◌, refl, Bool, true, false, Option, none, some}

-- `ChainError`. The wrappers of other crates' errors carry their text; a plain `bail!("...")` is
-- an `anyhow`.
pub data ChainError : Type 0 where
  missing_utxo double_spend invalid_script : ChainError
  invalid_tx invalid_block : String → ChainError
  reorg_too_deep insufficient_fee coinbase_immature invalid_coinbase_fee : ChainError
  insufficient_pow invalid_timestamp invalid_lock_time validation_timeout : ChainError
  file_permission_error value_overflow invalid_signature attack_detected : ChainError
  invalid_range_proof invalid_handshake peer_banned peer_timeout mempool_overflow : ChainError
  invalid_key_image decompression_failed package_depth_exceeded invalid_commitment : ChainError
  supply_mismatch invalid_encryption_key : ChainError
  anyhow rocks_db bincode secp256k1 monero_serai libp2p bulletproofs : String → ChainError
  file_permission_error_at : String → ChainError

-- What a call comes back with; `panicked` is the end of the process (the release profile aborts).
pub data Result {ℓ} (A : Type ℓ) : Type ℓ where
  ok : A → Result A
  err : ChainError → Result A
  panicked : Result A

-- `?`: what follows runs on the value.
infixl 5 ◌>>=◌
abbrev pub ◌>>=◌ {κ ℓ} : {T : Type κ} {U : Type ℓ} → Result T → (T → Result U) → Result U
panicked >>= next = panicked
err problem >>= next = err problem
ok value >>= next = next value

-- `?` on a call that has no value.
infixl 5 ◌>>◌
abbrev pub ◌>>◌ {ℓ} : {U : Type ℓ} → Result (Unit {0}) → Result U → Result U
call >> next = call >>= λ done. next

-- `if b { bail!(e) }`
abbrev pub bail_if : Bool → ChainError → Result (Unit {0})
bail_if true e = err e
bail_if false e = ok tt

-- `o.ok_or(e)?`
abbrev pub ok_or {ℓ} : {A : Type ℓ} → Option A → ChainError → Result A
ok_or none e = err e
ok_or (some a) e = ok a

-- Inversion of a successful bind.
pub >>=-eq-ok {κ ℓ} :
    {T : Type κ} {U : Type ℓ} (call : Result T) (next : T → Result U) {u : U}
    → (call >>= next) ≡ ok u
    → (value : T) × (call ≡ ok value) × (next value ≡ ok u)
>>=-eq-ok panicked next e = cc
>>=-eq-ok (err problem) next e = cc
>>=-eq-ok (ok value) next e = (value, refl, e)

pub ok_injective {ℓ} : {A : Type ℓ} {a b : A} → ◌≡◌ {A = Result A} (ok a) (ok b) → a ≡ b
ok_injective h = cc

-- A call that succeeds, or fails whatever comes after it.
pub Result-cases {κ} :
    {T : Type κ} (call : Result T)
    → ((value : T) × (call ≡ ok value))
      ⊎ ((next next' : T → Result T) → (call >>= next) ≡ (call >>= next'))
Result-cases (ok value) = inl (value, refl)
Result-cases (err problem) = inr (λ next next'. refl)
Result-cases panicked = inr (λ next next'. refl)

-- `.unwrap()` and `.expect(...)`
abbrev pub unwrap {ℓ} : {A : Type ℓ} → Result A → Result A
unwrap (ok a) = ok a
unwrap _ = panicked
