-- ===== src/Bytes.antt =====
-- Byte strings, the big-endian numbers of the standard library, and the database keys that
-- 111/src/chain.rs, 111/src/tx.rs and 111/src/mempool.rs build from them.
pub mod Laws
pub mod Keys
mod Tests
use abc.Prelude.{
  length, take, ℕ, zero, suc, ◌+◌, ◌*◌, ◌/◌, ◌%◌, ◌^◌, Bool, true, false, ◌&&◌, ◌||◌, ltb, List, [],
  ◌∷◌, ◌++◌, ◌==◌,
}

abbrev pub Bytes : Type 0
Bytes = List ℕ

-- `a == b` on arrays and vectors of bytes.
unfoldable pub eq_bytes : Bytes → Bytes → Bool
eq_bytes [] [] = true
eq_bytes [] (b ∷ bs) = false
eq_bytes (a ∷ as') [] = false
eq_bytes (a ∷ as') (b ∷ bs) = (a == b) && eq_bytes as' bs

-- `key.starts_with(&prefix)`
abbrev pub starts_with : Bytes → Bytes → Bool
starts_with prefix key = eq_bytes (take (length prefix) key) prefix

-- `a < b` on arrays of bytes.
unfoldable pub lt_bytes : Bytes → Bytes → Bool
lt_bytes [] [] = false
lt_bytes [] (b ∷ bs) = true
lt_bytes (a ∷ as') [] = false
lt_bytes (a ∷ as') (b ∷ bs) = ltb a b || ((a == b) && lt_bytes as' bs)

-- `v.to_be_bytes()` at `w` bytes.
unfoldable pub to_be_bytes : ℕ → ℕ → Bytes
to_be_bytes zero v = []
to_be_bytes (suc w) v = (v / 2 ^ (8 * w) % 256) ∷ to_be_bytes w v

-- `v.to_le_bytes()` at `w` bytes.
unfoldable pub to_le_bytes : ℕ → ℕ → Bytes
to_le_bytes zero v = []
to_le_bytes (suc w) v = (v % 256) ∷ to_le_bytes w (v / 256)

-- `from_be_bytes(bytes)`, on what was read so far.
unfoldable pub be_value : ℕ → Bytes → ℕ
be_value acc [] = acc
be_value acc (b ∷ bs) = be_value (acc * 256 + b) bs

abbrev pub from_be_bytes : Bytes → ℕ
from_be_bytes = be_value 0

-- The 32 zero bytes of `[0u8; 32]`.
unfoldable pub zeros : ℕ → Bytes
zeros zero = []
zeros (suc n) = 0 ∷ zeros n

abbrev pub zero_hash : Bytes
zero_hash = zeros 32

-- `b"u:" + txid + vout.to_be_bytes()`
unfoldable pub utxo_key : Bytes → ℕ → Bytes
utxo_key txid vout = (b'u' ∷ b':' ∷ []) ++ (txid ++ to_be_bytes 4 vout)

-- `b"a:" + txid + vout.to_be_bytes()`
unfoldable pub anon_key : Bytes → ℕ → Bytes
anon_key txid vout = (b'a' ∷ b':' ∷ []) ++ (txid ++ to_be_bytes 4 vout)
