-- ===== src/Rpc.antt =====
-- 111/src/main.rs `start_rpc_server`: the handlers of requests. Tokens, the digits of hexadecimal
-- numbers and encodings are arguments; the limit on the rate only delays a request.
pub mod Guard
mod Tests
use abc.Bytes.{Bytes, starts_with, eq_bytes, to_be_bytes, from_be_bytes}
use abc.Chain.{Chain}
use abc.Errors.{Result, ok, err, anyhow}
use abc.External.{External}
use abc.Maps.{find_at}
use abc.Mempool.{Mempool, MempoolEntry}
use abc.Mempool.Join.{insert}
use abc.Methods.{Method, Outcome, done, failed, crashed, blocked}
use abc.Prelude.{
  ℕ, zero, suc, ◌+◌, ◌<◌, ◌^◌, Bool, true, false, not, Option, none, some, List, [], ◌∷◌, ◌++◌,
  length, drop, map, ltb, ◌==◌, if◌then◌else◌,
}
use abc.Types.{Hash, Transaction, Block}
use abc.Utils.Checked.{checked_add}
use abc.Wallet.{addr_prefix}

pub data Response : Type 0 where
  success : Bytes → Response
  unauthorized bad_request not_found : Response

pub record Codes : Type 0 where
  -- `jsonwebtoken::decode`, at a time in seconds: nothing for a token that was not signed with the
  -- secret or that has expired, and otherwise the time of expiry that the claims are read to have.
  pub decode : ℕ → Bytes → Bytes → Option (Option ℕ)
  pub decode_hex : Bytes → Option Bytes
  pub address_to_pubkey_hash : Bytes → Option Bytes
  pub deserialize_tx : Bytes → Option Transaction
  pub serialize_txs : List Transaction → Bytes
  pub serialize_block : Block → Bytes
  pub decimal : ℕ → Bytes

-- `trim_start_matches("Bearer ")`, which takes off every copy; `n` of them at most.
abbrev pub bearer : Bytes
bearer = b'B' ∷ b'e' ∷ b'a' ∷ b'r' ∷ b'e' ∷ b'r' ∷ b' ' ∷ []

unfoldable pub trim_bearer : ℕ → Bytes → Bytes
trim_bearer zero token = token
trim_bearer (suc n) token =
    let rest = trim_bearer n (drop 7 token) in if starts_with bearer token then rest else token

abbrev pub expiry_of : Option ℕ → ℕ
expiry_of none = 0
expiry_of (some exp) = exp

abbrev pub is_ok : Result Bool → Bool
is_ok (ok b) = true
is_ok _ = false

-- The sum of the entries that have eight bytes; one that does not fit 64 bits is left out.
unfoldable pub sum_entries : Bytes → List (Bytes × Bytes) → ℕ → ℕ
sum_entries prefix [] balance = balance
sum_entries prefix ((key, value) ∷ items) balance =
    if not (starts_with prefix key)
    then balance
    else sum_entries prefix items (
        if length value == 8
        then elim (checked_add balance (from_be_bytes value)) [ none ↦ balance | some more ↦ more ]
        else balance)

-- What the pool answered to a transaction.
abbrev pub sent_or_refused : {S : Type 0} → Outcome Bool × S → Outcome Response × S
sent_or_refused (done true, pool) =
    (done (success (b'T' ∷ b'X' ∷ b' ' ∷ b's' ∷ b'e' ∷ b'n' ∷ b't' ∷ [])), pool)
sent_or_refused (done false, pool) = (done bad_request, pool)
sent_or_refused (failed e, pool) = (done bad_request, pool)
sent_or_refused (crashed, pool) = (crashed, pool)
sent_or_refused (blocked, pool) = (blocked, pool)

module _ (codes : Codes) (secret : Bytes) (now : ℕ) where
  open codes use {
    decode, decode_hex, address_to_pubkey_hash, deserialize_tx, serialize_txs, decimal,
  }

  -- `validate_jwt`, at a time in seconds.
  unfoldable pub validate_jwt : Bytes → Result Bool
  validate_jwt token = elim (decode now token secret) [
    | none ↦ err (anyhow "Invalid JWT")
    | some exp ↦ ok (ltb now (expiry_of exp))
  ]

  -- The header, and `validate_jwt(...).is_ok()`.
  unfoldable pub guarded : {S : Type 0} → Option Bytes → Method S Response → Method S Response
  guarded none answer s = (done unauthorized, s)
  guarded (some auth) answer s =
      if is_ok (validate_jwt (trim_bearer (length auth) auth))
      then answer s
      else (done unauthorized, s)

  module _ (x : External) where
    unfoldable pub get_height : Option Bytes → Method (Chain x) Response
    get_height auth = guarded auth (λ c. (done (success (decimal c.best_height)), c))

    -- The balance of an address, over the index of addresses.
    unfoldable pub get_balance :
        (x.Db → Bytes → List (Bytes × Bytes)) → Bytes → Option Bytes → Method (Chain x) Response
    get_balance iterate address auth = guarded auth (λ c. elim (address_to_pubkey_hash address) [
      | none ↦ (done bad_request, c)
      | some pkh ↦ (
        done (success (decimal (sum_entries (addr_prefix pkh) (iterate c.db (addr_prefix pkh)) 0))),
        c,
      )
    ])

    unfoldable pub get_block : Option Bytes → Method (Chain x) Response
    get_block auth = guarded auth (λ c. elim (find_at c.best_height c.state.blocks) [
      | none ↦ (done not_found, c)
      | some block ↦ (done (success (to_be_bytes 4 1 ++ codes.serialize_block block)), c)
    ])

    unfoldable pub get_mempool : Option Bytes → Method Mempool Response
    get_mempool auth =
        guarded auth
          (λ m. (done (success (to_be_bytes 4 1 ++ serialize_txs (map (λ e. e.1.tx) m.txs))), m))

    -- A transaction in hexadecimal digits, at a time in milliseconds.
    unfoldable pub send_tx : x.Db → ℕ → Bytes → Option Bytes → Method Mempool Response
    send_tx db now_ms raw_hex auth = guarded auth (λ m. elim (decode_hex raw_hex) [
      | none ↦ (done bad_request, m)
      | some raw ↦ elim (deserialize_tx raw) [
        | none ↦ (done bad_request, m)
        | some tx ↦ sent_or_refused (insert x db now_ms tx m)
      ]
    ])
