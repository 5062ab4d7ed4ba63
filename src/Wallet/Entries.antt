-- ===== src/Wallet/Entries.antt =====
-- 111/src/main.rs, the keys of the index of addresses: what the reader of the wallet makes of
-- the entries that 111/src/chain.rs wrote.
use abc.Bytes.{Bytes, to_be_bytes, starts_with}
use abc.Bytes.Laws.{eq_bytes_refl, length-to_be_bytes, from_be_bytes-to_be_bytes}
use abc.Errors.{Result, ok, err, panicked, ◌>>=◌}
use abc.External.{External}
use abc.Prelude.{
  length-append, zero, suc, ◌-◌, ℕ, ◌+◌, ◌^◌, ◌<◌, ◌≡◌, refl, ap, ◌∙◌, [], ◌∷◌, ◌++◌, length, take,
  drop, arith, some, true, false, List,
}
use abc.Script.{slice}
use abc.Tx.{hash160}
use abc.Types.{Hash}
use abc.Utxo.{addr_key}
use abc.Wallet.{Entry, WalletKeys, read_entry, addr_prefix, fold_entries, fold_key}

take-append : (n : ℕ) (a b : Bytes) → length a ≡ n → take n (a ++ b) ≡ a
take-append zero [] b h = refl
take-append zero (c ∷ a) b h = absurd (omega (arith, h))
take-append (suc n) [] b h = absurd (omega (arith, h))
take-append (suc n) (c ∷ a) b h = ap (λ l. c ∷ l) (take-append n a b (omega (arith, h)))

drop-append : (n : ℕ) (a b : Bytes) → length a ≡ n → drop n (a ++ b) ≡ b
drop-append zero [] b h = refl
drop-append zero (c ∷ a) b h = absurd (omega (arith, h))
drop-append (suc n) [] b h = absurd (omega (arith, h))
drop-append (suc n) (c ∷ a) b h = drop-append n a b (omega (arith, h))

regroup : (a b c : Bytes) → a ++ (b ++ c) ≡ (a ++ b) ++ (c ++ [])
regroup [] [] [] = refl
regroup [] [] (d ∷ c) = ap (λ l. d ∷ l) (regroup [] [] c)
regroup [] (d ∷ b) c = ap (λ l. d ∷ l) (regroup [] b c)
regroup (d ∷ a) b c = ap (λ l. d ∷ l) (regroup a b c)

-- The part of a key that lies between two others.
slice-part :
    (key a b c : Bytes) (from to : ℕ)
    → key ≡ a ++ (b ++ c)
    → length a ≡ from
    → length b + from ≡ to
    → slice key from to ≡ ok b
unfolding slice
slice-part key a b c from to same front size =
    let all = length-append a (b ++ c) in
    let rest = length-append b c in
    let whole : length key ≡ length a + (length b + length c) =
      ap length same ∙ all ∙ ap (λ n. length a + n) rest in
    let found : take (to - from) (drop from key) ≡ b =
      rw (same, drop-append from a (b ++ c) front)
        (take-append (to - from) b c (omega (arith, size))) in
    ground (arith, whole, found, front, size)

-- No more entries under the prefix.
abbrev pub IsPast : Bytes → List (Bytes × Bytes) → Type 0
IsPast prefix [] = Unit {0}
IsPast prefix ((key, value) ∷ items) = starts_with prefix key ≡ false

-- Entries of the sizes of the index.
abbrev pub AreSized : List Entry → Type 0
AreSized [] = Unit {0}
AreSized ((txid, vout, value) ∷ entries) =
    (length txid ≡ 32) × (vout < 2 ^ 32) × (value < 2 ^ 64) × AreSized entries

-- Each entry in turn, up to an error.
unfoldable pub fold_result {ℓ} : {S : Type ℓ} → (Entry → S → Result S) → List Entry → S → Result S
fold_result step [] s = ok s
fold_result step (entry ∷ entries) s = do s' ← step entry s; fold_result step entries s'

same_next :
    {T U : Type 0} (r : Result T) (f g : T → Result U)
    → ((t : T) → f t ≡ g t)
    → (r >>= f) ≡ (r >>= g)
same_next (ok t) f g h = h t
same_next (err e) f g h = refl
same_next panicked f g h = refl

module _ (x : External) where
  -- From byte 25 on the key of an output names it, with its value, for hashes of their sizes.
  read_entry-addr_key :
      (script : Bytes) (txid : Hash) (vout value : ℕ)
      → length (hash160 x script) ≡ 20
      → length txid ≡ 32
      → vout < 2 ^ 32
      → value < 2 ^ 64
      → read_entry 25 (addr_key x script txid vout, to_be_bytes 8 value) ≡ ok (txid, vout, value)
  unfolding read_entry addr_key slice
  read_entry-addr_key script txid vout value h t v w =
      let front = (b'a' ∷ b'd' ∷ b'd' ∷ b'r' ∷ b':' ∷ []) ++ hash160 x script in
      let tail = to_be_bytes 4 vout in
      let key = front ++ (txid ++ tail) in
      let key' : key ≡ (front ++ txid) ++ (tail ++ []) = regroup front txid tail in
      let first = slice-part key front txid tail 25 57 refl (omega (arith, h)) (omega (arith, t)) in
      let front_size = length-append front txid in
      let tail_size = length-to_be_bytes 4 vout in
      let second =
        slice-part key (front ++ txid) tail [] 57 61 key' (omega (arith, front_size, h, t))
          (omega (arith, tail_size)) in
      let number = from_be_bytes-to_be_bytes 4 vout v in
      let amount = from_be_bytes-to_be_bytes 8 value w in
      let value_size = length-to_be_bytes 8 value in
      ground (arith, first, second, number, amount, value_size)

  -- What the chain writes for outputs with this script.
  unfoldable pub index_entries : Bytes → List Entry → List (Bytes × Bytes)
  index_entries script [] = []
  index_entries script ((txid, vout, value) ∷ entries) =
      (addr_key x script txid vout, to_be_bytes 8 value) ∷ index_entries script entries

  starts_with-addr_key :
      (script : Bytes) (txid : Hash) (vout : ℕ)
      → starts_with (addr_prefix (hash160 x script)) (addr_key x script txid vout) ≡ true
  unfolding addr_key
  starts_with-addr_key script txid vout =
      let front = (b'a' ∷ b'd' ∷ b'd' ∷ b'r' ∷ b':' ∷ []) ++ hash160 x script in
      let tail = txid ++ to_be_bytes 4 vout in
      rw (take-append (length front) front tail refl) (eq_bytes_refl front)

  fold_entries-past :
      {S : Type 0} (step : Entry → S → Result S) (prefix : Bytes) (items : List (Bytes × Bytes))
      (s : S)
      → IsPast prefix items
      → fold_entries 25 step prefix items s ≡ ok s
  unfolding fold_entries
  fold_entries-past step prefix [] s h = refl
  fold_entries-past step prefix ((key, value) ∷ items) s h = rw h refl

  fold_entries-index_entries :
      {S : Type 0} (step : Entry → S → Result S) (script : Bytes) (entries : List Entry)
      (past : List (Bytes × Bytes)) (s : S)
      → length (hash160 x script) ≡ 20
      → AreSized entries
      → IsPast (addr_prefix (hash160 x script)) past
      → fold_entries 25 step
          (addr_prefix (hash160 x script))
          (index_entries script entries ++ past)
          s
        ≡ fold_result step entries s
  unfolding fold_entries index_entries fold_result
  fold_entries-index_entries step script [] past s h sizes p =
      fold_entries-past step (addr_prefix (hash160 x script)) past s p
  fold_entries-index_entries step script ((txid, vout, value) ∷ entries) past s h (t, v, w, sizes)
        p =
      let found = starts_with-addr_key script txid vout in
      let read = read_entry-addr_key script txid vout value h t v w in
      rw (found, read)
        (same_next (step (txid, vout, value) s) _ _
          (λ s'. fold_entries-index_entries step script entries past s' h sizes p))

  module _ (k : WalletKeys) (iterate : x.Db → Bytes → List (Bytes × Bytes)) where
    -- The reader of the wallet takes from the entries that were written for outputs whose script has
    -- the hash of its key, for hashes of their sizes and numbers that fit theirs, the transactions, the
    -- outputs and the values that were written, in order, and stops after them.
    pub fold_key-index_entries :
        {S : Type 0} (step : ℕ × ℕ → Entry → S → Result S) (db : x.Db) (path : ℕ × ℕ)
        (pk script : Bytes) (entries : List Entry) (past : List (Bytes × Bytes)) (s : S)
        → k.public_key path ≡ some pk
        → hash160 x pk ≡ hash160 x script
        → length (hash160 x script) ≡ 20
        → AreSized entries
        → IsPast (addr_prefix (hash160 x script)) past
        → iterate db (addr_prefix (hash160 x script)) ≡ index_entries script entries ++ past
        → fold_key x k iterate step db path s ≡ fold_result (step path) entries s
    unfolding fold_key
    fold_key-index_entries step db path pk script entries past s key same h sizes p found =
        rw (key, same, found)
          (fold_entries-index_entries (step path) script entries past s h sizes p)
