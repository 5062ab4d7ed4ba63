-- ===== src/Mempool.antt =====
-- 111/src/mempool.rs `Mempool::remove` and what it changes: the map of transactions with the
-- indexes beside it. The LRU cache and the metrics are left out. A map is a list with one entry for a key.
pub mod Account
pub mod Insert
pub mod Join
pub mod Joined
pub mod Bounds
pub mod Select
pub mod Expire
pub mod Fuel
mod Tests
use abc.Bytes.{Bytes, eq_bytes}
use abc.Errors.{Result, ok, panicked, ◌>>=◌}
use abc.External.{External}
use abc.Maps.{find_key, erase_key}
use abc.Prelude.{
  ℕ, Bool, zero, suc, ◌+◌, ◌-◌, ◌*◌, ◌/◌, ◌%◌, Option, none, some, List, [], ◌∷◌, length, take, leb,
  ◌==◌, if◌then◌else◌,
}
use abc.Tx.{tx_size}
use abc.Types.{Hash, TxInput, Transaction}
use abc.Utils.Checked.{u64_mod, wrapping_sub64}

pub record MempoolEntry : Type 0 where
  pub tx : Transaction
  pub fee_per_byte : ℕ
  pub time : ℕ
  pub depends_on : List Hash
  pub fee : ℕ

pub record Mempool : Type 0 where
  pub txs : List (Hash × MempoolEntry)
  pub total_bytes : ℕ
  pub by_parent : List (Hash × List Hash)
  pub fee_index : List (ℕ × List Hash)
  pub expiration_index : List (ℕ × List Hash)
  pub avg_fee : ℕ
  pub key_images : List (Hash × Hash)
  -- `FEE_CACHE`, which all pools share.
  pub fee_cache : List (Hash × ℕ)
  -- The two heaps, in the order in which they are walked, and the next one to pop first.
  pub heap : List MempoolEntry
  pub ttl_heap : List (ℕ × Hash)
  pub max_size : ℕ
  -- The lock of `avg_fee` is held.
  pub avg_lock : Bool

-- `set.remove(txid)`, and the removal at the position of `txid`.
unfoldable pub remove_id : Hash → List Hash → List Hash
remove_id txid [] = []
remove_id txid (id ∷ ids) = if eq_bytes txid id then ids else id ∷ remove_id txid ids

-- `if let Some(mut ids) = index.get_mut(&key) { ... }`
unfoldable pub remove_from_index : ℕ → Hash → List (ℕ × List Hash) → List (ℕ × List Hash)
remove_from_index key txid [] = []
remove_from_index key txid ((k, ids) ∷ index) =
    if key == k
    then (k, remove_id txid ids) ∷ index
    else (k, ids) ∷ remove_from_index key txid index

-- The key images of the inputs leave the pool.
unfoldable pub remove_key_images : List TxInput → List (Hash × Hash) → List (Hash × Hash)
remove_key_images [] images = images
remove_key_images (vin ∷ vins) images =
    remove_key_images vins
      (if leb 32 (length vin.script_sig) then erase_key (take 32 vin.script_sig) images else images)

-- `for id in ids { ... }` with a step that can fail.
abbrev pub for_each {ℓ} : {S : Type ℓ} → (Hash → S → Result S) → List Hash → S → Result S
for_each step [] s = ok s
for_each step (id ∷ ids) s = step id s >>= for_each step ids

abbrev pub children_of : Option (List Hash) → List Hash
children_of none = []
children_of (some children) = children

-- The average fee when a transaction of this fee leaves `n` others; the division by none panics.
unfoldable pub average_without : ℕ → ℕ → ℕ → Result ℕ
average_without avg n fee_per_byte =
    if n == 0
    then panicked
    else ok (wrapping_sub64 (avg * ((n + 1) % u64_mod) % u64_mod) fee_per_byte / n)

module _ (x : External) where
  -- Up to the children.
  unfoldable pub take_out : Hash → MempoolEntry → Mempool → Mempool
  take_out txid entry p = record p {
    txs = erase_key txid p.txs;
    key_images =
        if entry.tx.is_anonymous
        then remove_key_images entry.tx.inputs p.key_images
        else p.key_images;
    total_bytes = wrapping_sub64 p.total_bytes (tx_size x entry.tx);
    fee_cache = erase_key txid p.fee_cache;
    by_parent = erase_key txid p.by_parent;
  }

  -- From the indexes on.
  unfoldable pub drop_indexes : Hash → MempoolEntry → Mempool → Result Mempool
  drop_indexes txid entry p = do
    avg ← average_without p.avg_fee (length p.txs) entry.fee_per_byte
    ok (record p {
      fee_index = remove_from_index entry.fee_per_byte txid p.fee_index;
      expiration_index = remove_from_index entry.time txid p.expiration_index;
      avg_fee = avg;
    })

  -- `Mempool::remove`, on fuel: each call that finds its transaction takes it out before it calls
  -- itself for the children.
  unfoldable pub remove_with : ℕ → Hash → Mempool → Result Mempool
  remove_with zero txid p = elim (find_key txid p.txs) [ none ↦ ok p | some entry ↦ panicked ]
  remove_with (suc f) txid p = elim (find_key txid p.txs) [
    | none ↦ ok p
    | some entry ↦
        for_each (remove_with f) (children_of (find_key txid p.by_parent)) (take_out txid entry p)
        >>= drop_indexes txid entry
  ]

  unfoldable pub remove : Hash → Mempool → Result Mempool
  remove txid p = remove_with (length p.txs) txid p
