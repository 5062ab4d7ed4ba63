-- ===== src/Mempool/Join.antt =====
-- 111/src/mempool.rs `Mempool::insert` from its first change on, `evict_low_fee_package` and `remove_orphaned_txs`. The lock of
-- `avg_fee` is taken in `insert` and held to its end; a call that takes it again waits for ever.
-- The order of a set is that in which its elements were put in.
use abc.Bytes.{lt_bytes, eq_bytes}
use abc.Errors.{ok, err, panicked}
use abc.External.{External}
use abc.Maps.{find_key, is_some, insert_key, insert_at, find_at}
use abc.Mempool.{MempoolEntry, Mempool, remove}
use abc.Mempool.Insert.{check_entry}
use abc.Methods.{Method, done, failed, crashed, blocked, call, read, change, pure, ◌>>=◌, ◌>>◌}
use abc.Prelude.{
  min, ◌&&◌, ◌-◌, ℕ, zero, suc, ◌+◌, ◌*◌, ◌/◌, ◌%◌, Bool, true, false, ◌||◌, not, Option, none,
  some, List, [], ◌∷◌, ◌++◌, length, take, ltb, ◌==◌, if◌then◌else◌, leb,
}
use abc.Tx.{tx_hash, tx_size}
use abc.Types.{Hash, TxInput, Transaction}
use abc.Utils.Checked.{u64_mod}

-- The next entry to pop is the one with the least fee for a byte, and the latest of those.
abbrev pub pops_before : MempoolEntry → MempoolEntry → Bool
pops_before a b =
    ltb a.fee_per_byte b.fee_per_byte || ((a.fee_per_byte == b.fee_per_byte) && ltb b.time a.time)

-- `heap.push(entry)`
unfoldable pub push_heap : MempoolEntry → List MempoolEntry → List MempoolEntry
push_heap e [] = e ∷ []
push_heap e (h ∷ hs) = if pops_before e h then e ∷ h ∷ hs else h ∷ push_heap e hs

-- `ttl_heap.push((time, txid))`: the latest one is the next to pop.
unfoldable pub push_ttl : ℕ → Hash → List (ℕ × Hash) → List (ℕ × Hash)
push_ttl time txid [] = (time, txid) ∷ []
push_ttl time txid ((t, id) ∷ ts) =
    if ltb t time || ((t == time) && lt_bytes id txid)
    then (time, txid) ∷ (t, id) ∷ ts
    else (t, id) ∷ push_ttl time txid ts

-- `BTreeSet::insert`
unfoldable pub insert_ordered : Hash → List Hash → List Hash
insert_ordered txid [] = txid ∷ []
insert_ordered txid (id ∷ ids) =
    if eq_bytes txid id
    then id ∷ ids
    else if lt_bytes txid id
    then txid ∷ id ∷ ids
    else id ∷ insert_ordered txid ids

abbrev pub ids_of : Option (List Hash) → List Hash
ids_of none = []
ids_of (some ids) = ids

-- `for dep in &entry.depends_on`
unfoldable pub add_child_of : Hash → List Hash → List (Hash × List Hash) → List (Hash × List Hash)
add_child_of txid [] by_parent = by_parent
add_child_of txid (dep ∷ deps) by_parent =
    add_child_of txid deps
      (insert_key dep (ids_of (find_key dep by_parent) ++ (txid ∷ [])) by_parent)

unfoldable pub add_key_images : Hash → List TxInput → List (Hash × Hash) → List (Hash × Hash)
add_key_images txid [] images = images
add_key_images txid (vin ∷ vins) images = add_key_images txid vins (
    if leb 32 (length vin.script_sig)
    then insert_key (take 32 vin.script_sig) txid images
    else images)

-- A dependency is not in the pool.
unfoldable pub lacks_any : List (Hash × MempoolEntry) → List Hash → Bool
lacks_any txs [] = false
lacks_any txs (dep ∷ deps) = not (is_some (find_key dep txs)) || lacks_any txs deps

-- The transactions with a dependency that is not in the pool.
unfoldable pub orphaned : List (Hash × MempoolEntry) → List (Hash × MempoolEntry) → List Hash
orphaned txs [] = []
orphaned txs ((id, entry) ∷ m) =
    if lacks_any txs entry.depends_on then id ∷ orphaned txs m else orphaned txs m

-- The loop of evictions goes on.
abbrev pub is_over : Mempool → Bool
is_over p = ltb p.max_size p.total_bytes || ltb 50000 (length p.txs)

-- `self.max_size = new_max.min(256 * 1024 * 1024)`
abbrev pub update_max_size : ℕ → Mempool → Mempool
update_max_size new_max p = record p { max_size = min new_max (256 * 1024 * 1024) }

module _ (x : External) where
  open x use {Db}

  -- From the first change on, up to the evictions; the lock of `avg_fee` is taken.
  unfoldable pub join_pool : Hash → MempoolEntry → Mempool → Mempool
  join_pool txid entry p =
      let txs = insert_key txid entry p.txs in
      let n = length txs in
      record p {
        txs = txs;
        total_bytes = (p.total_bytes + tx_size x entry.tx) % u64_mod;
        by_parent = add_child_of txid entry.depends_on p.by_parent;
        fee_index =
            insert_at entry.fee_per_byte
              (insert_ordered txid (ids_of (find_at entry.fee_per_byte p.fee_index))) p.fee_index;
        expiration_index =
            insert_at entry.time (ids_of (find_at entry.time p.expiration_index) ++ (txid ∷ []))
              p.expiration_index;
        avg_fee = (p.avg_fee * (n - 1) + entry.fee_per_byte) % u64_mod / n;
        key_images =
            if entry.tx.is_anonymous
            then add_key_images txid entry.tx.inputs p.key_images
            else p.key_images;
        fee_cache = insert_key txid entry.fee p.fee_cache;
        heap = push_heap entry p.heap;
        ttl_heap = push_ttl entry.time txid p.ttl_heap;
        avg_lock = true;
      }

  -- `self.remove(txid)`, which takes the lock of `avg_fee` when it finds the transaction.
  unfoldable pub remove_locking : Hash → Method Mempool (Unit {0})
  remove_locking txid p =
      if is_some (find_key txid p.txs) && p.avg_lock then (blocked, p) else elim (remove x txid p) [
        | ok p' ↦ (done tt, p')
        | err e ↦ (failed e, p)
        | panicked ↦ (crashed, p)
      ]

  unfoldable pub remove_all : List Hash → Method Mempool (Unit {0})
  remove_all [] = pure tt
  remove_all (id ∷ ids) = remove_locking id >> remove_all ids

  -- The entry that was popped goes when it pays less than half of the average.
  unfoldable pub evict_entry : MempoolEntry → Method Mempool (Unit {0})
  evict_entry low = do
    p ← read
    (if ltb low.fee_per_byte (p.avg_fee / 2)
        then (do
          remove_locking (tx_hash x low.tx)
          q ← read
          remove_all (ids_of (find_key (tx_hash x low.tx) q.by_parent)))
        else pure tt)

  unfoldable pub pop_heap : List MempoolEntry → Method Mempool (Unit {0})
  pop_heap [] = pure tt
  pop_heap (low ∷ rest) = do change (λ p. record p { heap = rest }); evict_entry low

  unfoldable pub evict_low_fee_package : Method Mempool (Unit {0})
  evict_low_fee_package p = if p.avg_lock then (blocked, p) else pop_heap p.heap p

  -- `while total_bytes > max || txs.len() > 50000`, on fuel.
  unfoldable pub shrink : ℕ → Method Mempool (Unit {0})
  shrink zero = λ p. if is_over p then (crashed, p) else (done tt, p)
  shrink (suc n) = λ p. if is_over p then (evict_low_fee_package >> shrink n) p else (done tt, p)

  unfoldable pub remove_orphaned_txs : Method Mempool (Unit {0})
  remove_orphaned_txs p = remove_all (orphaned p.txs p.txs) p

  -- After the changes: the guard of `avg_fee` is held, so one turn of the loop is all there is.
  unfoldable pub settle : Method Mempool Bool
  settle = do shrink 1; remove_orphaned_txs; change (λ q. record q { avg_lock = false }); pure true

  unfoldable pub insert : Db → ℕ → Transaction → Method Mempool Bool
  insert db now_ms tx = do
    p ← read
    (if is_some (find_key (tx_hash x tx) p.txs) then pure false else (do
      entry ← call (check_entry x db now_ms tx p)
      change (join_pool (tx_hash x tx) entry)
      settle))
