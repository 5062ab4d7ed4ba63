-- ===== src/Mempool/Expire.antt =====
-- 111/src/mempool.rs `Mempool::clean_expired`. The order in which a heap is walked is that of the
-- standard library: the argument `walk` gives it.
use abc.External.{External}
use abc.Mempool.{Mempool}
use abc.Mempool.Join.{remove_locking}
use abc.Methods.{Method, ◌>>=◌, ◌>>◌, change, read, pure}
use abc.Prelude.{ℕ, ◌-◌, List, [], ◌∷◌, ltb, if◌then◌else◌}
use abc.Types.{Hash}

-- The entries that have expired, up to the first one that has not.
unfoldable pub expired_prefix : ℕ → ℕ → List (ℕ × Hash) → List Hash
expired_prefix now expiration_ms [] = []
expired_prefix now expiration_ms ((time, txid) ∷ entries) =
    if ltb expiration_ms (now - time) then txid ∷ expired_prefix now expiration_ms entries else []

-- The keys that have expired leave the index.
unfoldable pub drop_expired : ℕ → ℕ → List (ℕ × List Hash) → List (ℕ × List Hash)
drop_expired now expiration_ms [] = []
drop_expired now expiration_ms ((time, ids) ∷ index) =
    let rest = drop_expired now expiration_ms index in
    if ltb expiration_ms (now - time) then rest else (time, ids) ∷ rest

-- `ttl_heap.pop()`
abbrev pub pop_ttl : List (ℕ × Hash) → List (ℕ × Hash)
pop_ttl [] = []
pop_ttl (t ∷ ts) = ts

module _ (x : External) where
  unfoldable pub remove_expired : List Hash → Method Mempool (Unit {0})
  remove_expired [] = pure tt
  remove_expired (txid ∷ ids) = do
    remove_locking x txid
    change (λ p. record p { ttl_heap = pop_ttl p.ttl_heap })
    remove_expired ids

  unfoldable pub clean_expired :
      (List (ℕ × Hash) → List (ℕ × Hash)) → ℕ → ℕ → Method Mempool (Unit {0})
  clean_expired walk now expiration_ms = do
    p ← read
    remove_expired (expired_prefix now expiration_ms (walk p.ttl_heap))
    change (λ q. record q { expiration_index = drop_expired now expiration_ms q.expiration_index })
