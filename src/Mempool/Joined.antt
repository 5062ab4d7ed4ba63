-- ===== src/Mempool/Joined.antt =====
-- 111/src/mempool.rs `Mempool::insert`: what it leaves when it comes back, and what its checks read.
use abc.Bytes.Laws.{eq_bytes_refl}
use abc.Errors.{Result, ok, err, panicked}
use abc.External.{External}
use abc.Maps.{is_some-eq-false, find_key, is_some}
use abc.Mempool.{MempoolEntry, Mempool, none}
use abc.Mempool.Insert.{check_entry}
use abc.Mempool.Join.{
  settle, join_pool, insert, shrink, evict_low_fee_package, orphaned, remove_all, remove_locking,
  remove_orphaned_txs, is_over,
}
use abc.Methods.{done, blocked}
use abc.Prelude.{refl, ap, ◌∙◌, none, ℕ, suc, ◌≡◌, true, List, [], ◌∷◌, arith, if◌then◌else◌, false}
use abc.Tx.{tx_hash}
use abc.Types.{Transaction, Hash}

orphaned-found :
    (txs m : List (Hash × MempoolEntry)) {id : Hash} {ids : List Hash}
    → orphaned txs m ≡ id ∷ ids
    → is_some (find_key id m) ≡ true
unfolding orphaned find_key
orphaned-found txs [] h = cc
orphaned-found txs ((k, entry) ∷ m) {id} {ids} h =
    ground (arith, eq_bytes_refl k, orphaned-found txs m {id = id} {ids = ids})

module _ (x : External) where
  remove_orphaned_txs-locked :
      (p : Mempool) (ids : List Hash)
      → p.avg_lock ≡ true
      → orphaned p.txs p.txs ≡ ids
      → remove_orphaned_txs x p ≡ elim ids [ [] ↦ (done tt, p) | id ∷ rest ↦ (blocked, p) ]
  unfolding remove_orphaned_txs remove_all remove_locking
  remove_orphaned_txs-locked p [] l h = rw h refl
  remove_orphaned_txs-locked p (id ∷ ids) l h = ground (arith, l, h, orphaned-found p.txs p.txs h)

  shrink-locked :
      (n : ℕ) (p : Mempool)
      → p.avg_lock ≡ true
      → shrink x (suc n) p ≡ (if is_over p then (blocked, p) else (done tt, p))
  unfolding shrink evict_low_fee_package
  shrink-locked n p l = ground (arith, l)

  -- A transaction joined the pool: it was not in it and passed the checks, and the pool that it
  -- leaves is within its limits and has the parents of all its transactions.
  pub record IsJoined (db : x.Db) (now_ms : ℕ) (tx : Transaction) (p p' : Mempool) : Type 0 where
    pub entry : MempoolEntry
    pub is_new : find_key (tx_hash x tx) p.txs ≡ none
    pub passes : check_entry x db now_ms tx p ≡ ok entry
    pub result : p' ≡ record (join_pool x (tx_hash x tx) entry p) { avg_lock = false }
    pub within : is_over p' ≡ false
    pub complete : orphaned p'.txs p'.txs ≡ []

  settle-done :
      (q p' : Mempool) (ids : List Hash)
      → q.avg_lock ≡ true
      → orphaned q.txs q.txs ≡ ids
      → settle x q ≡ (done true, p')
      → (p' ≡ record q { avg_lock = false }) × (is_over q ≡ false) × (ids ≡ [])
  unfolding settle
  settle-done q p' [] l o h =
      ground (arith, h, shrink-locked 0 q l, remove_orphaned_txs-locked q [] l o)
  settle-done q p' (id ∷ ids) l o h =
      ground (arith, h, shrink-locked 0 q l, remove_orphaned_txs-locked q (id ∷ ids) l o)

  IsJoined-with :
      (db : x.Db) (now_ms : ℕ) (tx : Transaction) (p p' : Mempool) (r : Result MempoolEntry)
      → check_entry x db now_ms tx p ≡ r
      → insert x db now_ms tx p ≡ (done true, p')
      → IsJoined db now_ms tx p p'
  unfolding insert join_pool
  IsJoined-with db now_ms tx p p' (ok entry) c h =
      let q = join_pool x (tx_hash x tx) entry p in
      let settles : settle x q ≡ (done true, p') = ground (arith, c, h) in
      let (same, within, complete) = settle-done q p' (orphaned q.txs q.txs) refl refl settles in
      record {
        entry = entry;
        is_new = is_some-eq-false (ground (arith, c, h));
        passes = c;
        result = same;
        within = ap is_over same ∙ within;
        complete = ap (λ z. orphaned z.txs z.txs) same ∙ complete;
      }
  IsJoined-with db now_ms tx p p' (err e) c h = ground (arith, c, h)
  IsJoined-with db now_ms tx p p' panicked c h = ground (arith, c, h)

  -- When `insert` comes back with true, the transaction was not in the pool and passed the checks, and
  -- the pool is the one that it joined, within its limits and with no dependency missing: nothing
  -- was evicted or removed.
  pub insert-IsJoined :
      (db : x.Db) (now_ms : ℕ) (tx : Transaction) (p p' : Mempool)
      → insert x db now_ms tx p ≡ (done true, p')
      → IsJoined db now_ms tx p p'
  insert-IsJoined db now_ms tx p p' h =
      IsJoined-with db now_ms tx p p' (check_entry x db now_ms tx p) refl h
