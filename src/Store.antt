-- ===== src/Store.antt =====
-- 111/src/chain.rs `save_block`, `load_block_from_db` and `load_header`: blocks in the database, by
-- height through their hash. A write that the database refuses is not modelled.
pub mod RoundTrip
mod Tests
use abc.Prelude.{ℕ, ◌%◌, none, some, List, [], ◌∷◌, ◌++◌}
use abc.Bytes.{Bytes, to_be_bytes}
use abc.Errors.{Result, ok, ◌>>=◌, ok_or, anyhow, bincode}
use abc.Types.{Hash, BlockHeader, Block}
use abc.External.{default, WriteOp, put_cf, External}
use abc.Tx.{header_hash}
use abc.Utils.Checked.{u32_mod}

-- `b"h:" + height.to_be_bytes()`
unfoldable pub height_key : ℕ → Bytes
height_key height = (b'h' ∷ b':' ∷ []) ++ to_be_bytes 8 height

-- `b"b:" + hash`
unfoldable pub block_key : Hash → Bytes
block_key hash = (b'b' ∷ b':' ∷ []) ++ hash

-- `b"hdr:" + height.to_be_bytes()`
unfoldable pub hdr_key : ℕ → Bytes
hdr_key height = (b'h' ∷ b'd' ∷ b'r' ∷ b':' ∷ []) ++ to_be_bytes 8 height

-- `DB_KEY_TIP` and `DB_KEY_HEIGHT`.
abbrev pub key_tip : Bytes
key_tip = b't' ∷ b'i' ∷ b'p' ∷ []

abbrev pub key_height : Bytes
key_height = b'h' ∷ b'e' ∷ b'i' ∷ b'g' ∷ b'h' ∷ b't' ∷ []

module _ (x : External) where
  open x use {Db, get_cf, serialize_block, deserialize_header, deserialize_block}

  -- The entries of `Chain::save_block`.
  unfoldable pub save_block : ℕ → Block → Result (List WriteOp)
  save_block height block = do
    hash ← header_hash x block.header
    ok (
        put_cf default (block_key hash) (serialize_block block)
        ∷ put_cf default (height_key height) hash
        ∷ put_cf default key_tip hash
        ∷ put_cf default key_height (to_be_bytes 4 (height % u32_mod))
        ∷ [])

  -- `Chain::load_block_from_db`
  unfoldable pub load_block_from_db : Db → ℕ → Result Block
  load_block_from_db db height = do
    hash_bytes ← ok_or (get_cf db default (height_key height)) (anyhow "Missing hash")
    block_bytes ← ok_or (get_cf db default (block_key hash_bytes)) (anyhow "Missing block")
    ok_or (deserialize_block block_bytes) (anyhow "Deserialize block failed")

  -- `Chain::load_header`
  unfoldable pub load_header : Db → ℕ → Result BlockHeader
  load_header db height = elim (get_cf db default (hdr_key height)) [
    | some bytes ↦ ok_or (deserialize_header bytes) (bincode "deserialize")
    | none ↦ do block ← load_block_from_db db height; ok block.header
  ]
