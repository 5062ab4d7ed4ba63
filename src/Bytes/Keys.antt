-- ===== src/Bytes/Keys.antt =====
-- Distinct outpoints have distinct keys, and no transparent key is an anonymous one.
use abc.Prelude.{ℕ, ◌*◌, ◌^◌, ◌<◌, ◌≡◌, ◌≢◌, ap, sym, ◌∙◌, length, arith, append_injective}
use abc.Bytes.{Bytes, to_be_bytes, from_be_bytes, utxo_key, anon_key}
use abc.Bytes.Laws.{from_be_bytes-to_be_bytes}

-- Big-endian bytes determine the number.
pub to_be_bytes_injective :
    (w a b : ℕ) → a < 2 ^ (8 * w) → b < 2 ^ (8 * w) → to_be_bytes w a ≡ to_be_bytes w b → a ≡ b
to_be_bytes_injective w a b ha hb h =
    sym (from_be_bytes-to_be_bytes w a ha) ∙ (ap from_be_bytes h ∙ from_be_bytes-to_be_bytes w b hb)

-- Keys of one kind, for transaction ids of one length and 32-bit output numbers, are equal only
-- for the same output.
pub utxo_key_injective :
    (t t' : Bytes) (v v' : ℕ)
    → length t ≡ length t'
    → v < 2 ^ 32
    → v' < 2 ^ 32
    → utxo_key t v ≡ utxo_key t' v'
    → (t ≡ t') × (v ≡ v')
unfolding utxo_key
utxo_key_injective t t' v v' l hv hv' h =
    let (same, rest) = append_injective t (to_be_bytes 4 v) t' (to_be_bytes 4 v') l (cc) in
    (same, to_be_bytes_injective 4 v v' hv hv' rest)

-- The two kinds of outputs never share a key.
pub utxo_key-ne-anon_key : (t t' : Bytes) (v v' : ℕ) → utxo_key t v ≢ anon_key t' v'
unfolding utxo_key anon_key
utxo_key-ne-anon_key t t' v v' h = ground arith

-- Two transparent keys of ids of one length belong to one transaction.
pub utxo_key_txid :
    (t t' : Bytes) (v v' : ℕ) → length t ≡ length t' → utxo_key t v ≡ utxo_key t' v' → t ≡ t'
unfolding utxo_key
utxo_key_txid t t' v v' l h = (append_injective t (to_be_bytes 4 v) t' (to_be_bytes 4 v') l (cc)).0
