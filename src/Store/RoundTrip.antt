-- ===== src/Store/RoundTrip.antt =====
-- What was saved is read back.
use abc.Prelude.{
  Option-cases, inl, inr, ◌%◌, ℕ, ◌^◌, ◌<◌, ◌≡◌, ◌≢◌, refl, ap, sym, ◌∙◌, false, some, List, [],
  ◌∷◌, arith, if◌then◌else◌, ◌%◌,
}
use abc.Bytes.{Bytes, eq_bytes, to_be_bytes, from_be_bytes}
use abc.Bytes.Laws.{eq_bytes_iff, eq_bytes_refl, from_be_bytes-to_be_bytes}
use abc.Errors.{ok, >>=-eq-ok, ok_injective}
use abc.Types.{Hash, Block}
use abc.External.{default, WriteOp, put_cf, IsRocks, External}
use abc.Tx.{header_hash}
use abc.Store.{height_key, block_key, save_block, load_block_from_db, key_tip, key_height, u32_mod}
use abc.Utils.Checked.{u32_mod}
use abc.Utxo.Write.{write}

ne_bytes : (k j : Bytes) → k ≢ j → eq_bytes k j ≡ false
ne_bytes k j ne = ground (arith, eq_bytes_iff k j, ne)

module _ (x : External) (laws : IsRocks x.rocks) where
  open x use {Db, get_cf, serialize_block, deserialize_block}

  -- Two keys that differ: a put under one is not seen under the other.
  put_other :
      (db : Db) (k j v : Bytes)
      → eq_bytes k j ≡ false
      → get_cf (x.apply db (put_cf default k v)) default j ≡ get_cf db default j
  put_other db k j v ne = ground (arith, laws.get-put db default default k j v)

  put_same : (db : Db) (k v : Bytes) → get_cf (x.apply db (put_cf default k v)) default k ≡ some v
  put_same db k v = ground (arith, laws.get-put db default default k k v, eq_bytes_refl k)

  save_block_ops :
      (height : ℕ) (block : Block) {ops : List WriteOp}
      → save_block x height block ≡ ok ops
      → (hash : Hash) × (header_hash x block.header ≡ ok hash)
        × (ops
            ≡ put_cf default (block_key hash) (serialize_block block)
              ∷ put_cf default (height_key height) hash
              ∷ put_cf default key_tip hash
              ∷ put_cf default key_height (to_be_bytes 4 (height % u32_mod))
              ∷ [])
  unfolding save_block
  save_block_ops height block h =
      let (hash, e, rest) = >>=-eq-ok (header_hash x block.header) _ h in
      (hash, e, sym (ok_injective rest))

  -- What is saved of a block, entry by entry.
  module _ (db : Db) (height : ℕ) (hash : Hash) (b n : Bytes) where
    abbrev saved : Db
    saved = write x db (
        put_cf default (block_key hash) b
        ∷ put_cf default (height_key height) hash
        ∷ put_cf default key_tip hash
        ∷ put_cf default key_height n
        ∷ [])

    -- Only the entries of the block itself and of its height are read under such keys.
    saved-key :
        (j : Bytes)
        → eq_bytes key_tip j ≡ false
        → eq_bytes key_height j ≡ false
        → get_cf saved default j ≡ (
            if eq_bytes (height_key height) j
            then some hash
            else if eq_bytes (block_key hash) j
            then some b
            else get_cf db default j)
    saved-key j tip top =
        put_other _ key_height j n top
        ∙ (put_other _ key_tip j hash tip
            ∙ (laws.get-put _ default default (height_key height) j hash
                ∙ ap (λ old. if eq_bytes (height_key height) j then some hash else old)
                    (laws.get-put db default default (block_key hash) j b)))

    saved-height :
        (height' : ℕ)
        → get_cf saved default (height_key height') ≡ (
            if eq_bytes (to_be_bytes 8 height) (to_be_bytes 8 height')
            then some hash
            else get_cf db default (height_key height'))
    unfolding eq_bytes height_key block_key
    saved-height height' = saved-key (height_key height') refl refl

    saved-block :
        (hash' : Hash)
        → get_cf saved default (block_key hash')
          ≡ (if eq_bytes hash hash' then some b else get_cf db default (block_key hash'))
    unfolding eq_bytes height_key block_key
    saved-block hash' = saved-key (block_key hash') refl refl

  -- A block that was saved at a height is what is loaded from there, if its encoding can be
  -- decoded and the database reads back what was written.
  pub load_block_from_db-save_block :
      (db : Db) (height : ℕ) (block : Block) {ops : List WriteOp}
      → deserialize_block (serialize_block block) ≡ some block
      → save_block x height block ≡ ok ops
      → load_block_from_db x (write x db ops) height ≡ ok block
  unfolding load_block_from_db
  load_block_from_db-save_block db height block decode h =
      let (hash, e, all) = save_block_ops height block h in
      let bytes = serialize_block block in
      let n = to_be_bytes 4 (height % u32_mod) in
      rw all (
        simp (
          saved-height db height hash bytes n height,
          saved-block db height hash bytes n hash,
          eq_bytes_refl (to_be_bytes 8 height),
          eq_bytes_refl hash,
          decode,
        ))

  -- Saving a block at another height, under a hash that this height does not name, leaves what is
  -- loaded from a height: heights are of 64 bits, and the database reads back what was written.
  pub load_block_from_db-save_block_other :
      (db : Db) (height height' : ℕ) (block : Block) {ops : List WriteOp}
      → height < 2 ^ 64
      → height' < 2 ^ 64
      → height ≢ height'
      → ((hash : Hash)
          → header_hash x block.header ≡ ok hash
          → get_cf db default (height_key height') ≢ some hash)
      → save_block x height block ≡ ok ops
      → load_block_from_db x (write x db ops) height' ≡ load_block_from_db x db height'
  unfolding load_block_from_db
  load_block_from_db-save_block_other db height height' block small small' ne fresh h =
      let (hash, e, all) = save_block_ops height block h in
      let bytes = serialize_block block in
      let n = to_be_bytes 4 (height % u32_mod) in
      let apart : eq_bytes (to_be_bytes 8 height) (to_be_bytes 8 height') ≡ false =
        ne_bytes (to_be_bytes 8 height) (to_be_bytes 8 height') (λ same. ne (
          sym (from_be_bytes-to_be_bytes 8 height small)
          ∙ (ap from_be_bytes same ∙ from_be_bytes-to_be_bytes 8 height' small'))) in
      rw all (elim (Option-cases (get_cf db default (height_key height'))) [
        | inl absent ↦ simp (saved-height db height hash bytes n height', apart, absent)
        | inr (hash', found) ↦
            let other : eq_bytes hash hash' ≡ false =
              ne_bytes hash hash' (λ same. fresh hash e (found ∙ ap some (sym same))) in
            simp (
              saved-height db height hash bytes n height',
              apart,
              found,
              saved-block db height hash bytes n hash',
              other,
            )
      ])
