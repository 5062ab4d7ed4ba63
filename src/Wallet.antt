-- ===== src/Wallet.antt =====
-- 111/src/main.rs, the wallet: the outputs, the balance and the history that it reads from the
-- index of addresses. Keys and paths of BIP 32, base58 and the iterator of the database are arguments.
pub mod Payment
pub mod Entries
pub mod History
mod Tests
use abc.Bytes.{Bytes, starts_with, eq_bytes, utxo_key, from_be_bytes}
use abc.Errors.{Result, ok, err, ok_or, anyhow, bincode, ◌>>=◌, ◌>>◌}
use abc.External.{External, utxo, tx_index, default}
use abc.Maps.{insert_key, find_key, is_some}
use abc.Prelude.{
  ℕ, zero, suc, ◌+◌, ◌-◌, ◌%◌, ◌^◌, Bool, true, false, not, ◌||◌, Option, none, some, List, [], ◌∷◌,
  ◌++◌, length, take, leb, ltb, ◌==◌, if◌then◌else◌,
}
use abc.Script.{slice}
use abc.Store.{height_key, block_key}
use abc.Tx.{hash160}
use abc.Types.{Hash}
use abc.Utils.Checked.{u64_mod, wrapping_add64}
use abc.Utils.Constants.{coinbase_maturity}

-- `Utxo`; a path is its last two numbers.
pub record Utxo : Type 0 where
  pub txid : Hash
  pub vout : ℕ
  pub value : ℕ
  pub confirmations : ℕ
  pub script_pubkey : Bytes
  pub height : ℕ
  pub derivation_path : ℕ × ℕ
  pub is_confirmed : Bool

-- An entry of the index: what it names and what it is worth.
abbrev pub Entry : Type 0
Entry = Hash × ℕ × ℕ

-- What of the keys and the encodings is used.
pub record WalletKeys : Type 0 where
  -- The public key at a path, in bytes, and a signature with its secret key, in DER.
  pub public_key : ℕ × ℕ → Option Bytes
  pub sign : ℕ × ℕ → Hash → Bytes
  pub address_to_pubkey_hash : Bytes → Option Bytes
  pub deserialize_index : Bytes → Option (ℕ × ℕ)

-- `b"addr:" + pkh`
abbrev pub addr_prefix : Bytes → Bytes
addr_prefix pkh = (b'a' ∷ b'd' ∷ b'd' ∷ b'r' ∷ b':' ∷ []) ++ pkh

-- `u64::from_be_bytes(value.try_into()?)`
abbrev pub read_u64 : Bytes → Result ℕ
read_u64 value =
    if length value == 8 then ok (from_be_bytes value) else err (anyhow "TryFromSliceError")

-- The transaction and the output that a key names from the byte `at` on, and the value.
unfoldable pub read_entry : ℕ → Bytes × Bytes → Result Entry
read_entry at (key, value) = do
  txid ← slice key at (at + 32)
  vout ← slice key (at + 32) (at + 36)
  amount ← read_u64 value
  ok (txid, from_be_bytes vout, amount)

-- `for item in iter`, up to the first key with another prefix.
unfoldable pub fold_entries {ℓ} :
    {S : Type ℓ} → ℕ → (Entry → S → Result S) → Bytes → List (Bytes × Bytes) → S → Result S
fold_entries at step prefix [] s = ok s
fold_entries at step prefix ((key, value) ∷ items) s =
    if not (starts_with prefix key) then ok s else (do
      entry ← read_entry at (key, value)
      s' ← step entry s
      fold_entries at step prefix items s')

-- `for i in 0..100`, with `n` left.
unfoldable pub fold_indices {ℓ} : {S : Type ℓ} → (ℕ → S → Result S) → ℕ → ℕ → S → Result S
fold_indices step zero i s = ok s
fold_indices step (suc n) i s = do s' ← step i s; fold_indices step n (i + 1) s'

-- `saturating_sub(height) + 1`
abbrev pub confirmations_of : ℕ → ℕ → ℕ
confirmations_of current_height height = current_height - height + 1

-- An `i64` in two's complement.
abbrev pub negate64 : ℕ → ℕ
negate64 v = (u64_mod - v % u64_mod) % u64_mod

module _ (x : External) (k : WalletKeys) (iterate : x.Db → Bytes → List (Bytes × Bytes)) where
  open x use {Db, get_cf, deserialize_output, deserialize_block}

  -- `query_addr_index`. The bytes are those from the fifth on.
  unfoldable pub query_addr_index : Db → Bytes → Result (List Entry)
  query_addr_index db pkh =
      fold_entries 5 (λ entry res. ok (res ++ (entry ∷ []))) (addr_prefix pkh)
        (iterate db (addr_prefix pkh)) []

  unfoldable pub height_from_txid : Db → Hash → Result ℕ
  height_from_txid db txid = do
    bytes ← ok_or (get_cf db tx_index txid) (anyhow "Tx not found in index")
    (height, idx) ← ok_or (k.deserialize_index bytes) (bincode "deserialize")
    ok height

  unfoldable pub get_block_timestamp : Db → ℕ → Result ℕ
  get_block_timestamp db height = do
    hash_bytes ← ok_or (get_cf db default (height_key height)) (anyhow "Block hash not found")
    block_bytes ← ok_or (get_cf db default (block_key hash_bytes)) (anyhow "Block not found")
    block ← ok_or (deserialize_block block_bytes) (bincode "deserialize")
    ok block.header.timestamp

  -- The entries of a key.
  unfoldable pub fold_key {ℓ} :
      {S : Type ℓ} → (ℕ × ℕ → Entry → S → Result S) → Db → ℕ × ℕ → S → Result S
  fold_key step db path s = do
    pk ← ok_or (k.public_key path) (anyhow "derive_priv")
    fold_entries 25 (step path) (addr_prefix (hash160 x pk))
        (iterate db (addr_prefix (hash160 x pk))) s

  -- Both chains of a hundred keys, over the entries of each.
  unfoldable pub fold_wallet {ℓ} : {S : Type ℓ} → (ℕ × ℕ → Entry → S → Result S) → Db → S → Result S
  fold_wallet step db s = do
    s' ← fold_indices (λ i t. fold_key step db (0, i) t) 100 0 s
    fold_indices (λ i t. fold_key step db (1, i) t) 100 0 s'

  -- What an unspent entry adds, by the height of its transaction if that is known.
  abbrev pub add_by_height : ℕ → ℕ → Option Bytes → ℕ × ℕ → Result (ℕ × ℕ)
  add_by_height current_height value none (confirmed, pending) =
      ok (confirmed, wrapping_add64 pending value)
  add_by_height current_height value (some bytes) (confirmed, pending) = do
    (height, idx) ← ok_or (k.deserialize_index bytes) (bincode "deserialize")
    ok (
        if leb 1 (current_height - height)
        then (wrapping_add64 confirmed value, pending)
        else (confirmed, wrapping_add64 pending value))

  unfoldable pub balance_step : Db → ℕ → Entry → ℕ × ℕ → Result (ℕ × ℕ)
  balance_step db current_height (txid, vout, value) sums =
      if is_some (get_cf db utxo (utxo_key txid vout))
      then add_by_height current_height value (get_cf db tx_index txid) sums
      else ok sums

  -- `Wallet::get_balance`: what is confirmed, and what is not.
  unfoldable pub get_balance : Db → ℕ → Result (ℕ × ℕ)
  get_balance db current_height = fold_wallet (λ path. balance_step db current_height) db (0, 0)

  abbrev pub confirmed_since : ℕ → Option Bytes → Result ℕ
  confirmed_since current_height none = ok 0
  confirmed_since current_height (some bytes) = do
    (height, idx) ← ok_or (k.deserialize_index bytes) (bincode "deserialize")
    ok (confirmations_of current_height height)

  abbrev pub add_utxo :
      Db → ℕ → Bool → ℕ × ℕ → Entry → Option Bytes → List Utxo → Result (List Utxo)
  add_utxo db current_height spendable_only path (txid, vout, value) none utxos = ok utxos
  add_utxo db current_height spendable_only path (txid, vout, value) (some raw) utxos = do
    out ← ok_or (deserialize_output raw) (bincode "deserialize")
    confs ← confirmed_since current_height (get_cf db tx_index txid)
    ok (
        if not spendable_only || leb coinbase_maturity confs
        then utxos
          ++ (record {
            txid = txid;
            vout = vout;
            value = value;
            confirmations = confs;
            script_pubkey = out.script_pubkey;
            height = 0;
            derivation_path = path;
            is_confirmed = ltb 0 confs;
          }
              ∷ [])
        else utxos)

  unfoldable pub utxo_step : Db → ℕ → Bool → ℕ × ℕ → Entry → List Utxo → Result (List Utxo)
  utxo_step db current_height spendable_only path (txid, vout, value) utxos =
      add_utxo db current_height spendable_only path (txid, vout, value)
        (get_cf db utxo (utxo_key txid vout)) utxos

  -- `Wallet::get_utxos`
  unfoldable pub get_utxos : Db → ℕ → Bool → Result (List Utxo)
  get_utxos db current_height spendable_only =
      fold_wallet (utxo_step db current_height spendable_only) db []

  -- `Wallet::get_privkey_for_address`: the path of the key, from the index `i` on.
  unfoldable pub find_path : Bytes → ℕ → ℕ → ℕ → Result (Option (ℕ × ℕ))
  find_path pkh chain zero i = ok none
  find_path pkh chain (suc n) i = do
    pk ← ok_or (k.public_key (chain, i)) (anyhow "derive_priv")
    (if eq_bytes (hash160 x pk) pkh then ok (some (chain, i)) else find_path pkh chain n (i + 1))

  abbrev pub or_second : Bytes → Option (ℕ × ℕ) → Result (ℕ × ℕ)
  or_second pkh (some path) = ok path
  or_second pkh none = do
    found ← find_path pkh 1 100 0
    ok_or found (anyhow "Address not found in the wallet")

  unfoldable pub get_privkey_for_address : Bytes → Result (ℕ × ℕ)
  get_privkey_for_address address = do
    pkh ← ok_or (k.address_to_pubkey_hash address) (anyhow "Invalid address")
    found ← find_path pkh 0 100 0
    or_second pkh found
