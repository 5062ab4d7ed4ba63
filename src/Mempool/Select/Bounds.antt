-- ===== src/Mempool/Select/Bounds.antt =====
-- 111/src/mempool.rs `Mempool::select_txs`: the bytes of what it selects.
use abc.External.{External}
use abc.Maps.{find_key, find_at}
use abc.Mempool.{MempoolEntry, Mempool}
use abc.Mempool.Insert.{contains_id, push_all}
use abc.Mempool.Join.{ids_of}
use abc.Mempool.Select.{
  Package, Selection, add_parent, parents, walk_parents, package_of, add_package, select_tx,
  select_set, select_rates, select_txs, fee_rates, total_size,
}
use abc.Prelude.{
  Bool-cases, Option-cases, inl, inr, ◌≡◌, ◌≤◌, arith, ℕ, zero, suc, ◌+◌, ◌||◌, Option, none, some,
  List, [], ◌∷◌, ◌++◌, leb,
}
use abc.Types.{Hash, Transaction}
use abc.Utils.Constants.{max_package_depth}

module _ (x : External) where
  -- The bytes are counted, and there are no more than asked for.
  IsBounded : ℕ → Selection → Type 0
  IsBounded max_size s = (s.size ≡ total_size x s.selected) × (s.size ≤ max_size)

  total_size-append :
      (txs more : List Transaction)
      → total_size x (txs ++ more) ≡ total_size x txs + total_size x more
  total_size-append [] more = omega arith
  total_size-append (tx ∷ txs) more = omega (arith, total_size-append txs more)

  add_parent-size :
      (parent : Hash) (entry : Option MempoolEntry) (g : Package)
      → g.package_size ≡ total_size x g.txs
      → (add_parent x parent entry g).package_size ≡ total_size x (add_parent x parent entry g).txs
  unfolding add_parent
  add_parent-size parent none g h = h
  add_parent-size parent (some entry) g h = omega (arith, h)

  walk_parents-size :
      (txs : List (Hash × MempoolEntry)) (n : ℕ) (stack : List Hash) (g : Package)
      → g.package_size ≡ total_size x g.txs
      → (walk_parents x txs n stack g).package_size
        ≡ total_size x (walk_parents x txs n stack g).txs
  unfolding walk_parents
  walk_parents-size txs n [] g h = h
  walk_parents-size txs zero (parent ∷ stack) g h = h
  walk_parents-size txs (suc n) (parent ∷ stack) g h =
      elim (Bool-cases (contains_id parent g.visited)) [
        | inl seen ↦ simp seen (walk_parents-size txs n stack g h)
        | inr fresh ↦ simp fresh (
            walk_parents-size txs n (push_all (parents x (find_key parent txs)) stack)
              (add_parent x parent (find_key parent txs) g)
              (add_parent-size parent (find_key parent txs) g h))
      ]

  package_of-size :
      (txs : List (Hash × MempoolEntry)) (txid : Hash) (entry : MempoolEntry)
      → (package_of x txs txid entry).package_size ≡ total_size x (package_of x txs txid entry).txs
  unfolding package_of
  package_of-size txs txid entry =
      walk_parents-size txs max_package_depth (push_all entry.depends_on []) _ (omega arith)

  add_package-IsBounded :
      (max_size : ℕ) (g : Package) (s : Selection)
      → g.package_size ≡ total_size x g.txs
      → IsBounded max_size s
      → IsBounded max_size (add_package x max_size g s)
  unfolding add_package IsBounded
  add_package-IsBounded max_size g s h (counted, bound) =
      ground (arith, h, counted, bound, total_size-append s.selected g.txs)

  select_tx-IsBounded :
      (txs : List (Hash × MempoolEntry)) (max_size : ℕ) (txid : Hash) (s : Selection)
      → IsBounded max_size s
      → IsBounded max_size (select_tx x txs max_size txid s)
  unfolding select_tx
  select_tx-IsBounded txs max_size txid s h =
      elim (Bool-cases (contains_id txid s.included || contains_id txid s.visited_packages)) [
        | inl seen ↦ simp seen h
        | inr fresh ↦ elim (Option-cases (find_key txid txs)) [
          | inl missing ↦ simp (fresh, missing) h
          | inr (entry, found) ↦
              simp (fresh, found)
                (add_package-IsBounded max_size (package_of x txs txid entry) s
                  (package_of-size txs txid entry) h)
        ]
      ]

  select_set-IsBounded :
      (txs : List (Hash × MempoolEntry)) (max_size : ℕ) (ids : List Hash) (s : Selection)
      → IsBounded max_size s
      → IsBounded max_size (select_set x txs max_size ids s)
  unfolding select_set
  select_set-IsBounded txs max_size [] s h = h
  select_set-IsBounded txs max_size (id ∷ ids) s h =
      select_set-IsBounded txs max_size ids (select_tx x txs max_size id s)
        (select_tx-IsBounded txs max_size id s h)

  select_rates-IsBounded :
      (p : Mempool) (max_size : ℕ) (rates : List ℕ) (s : Selection)
      → IsBounded max_size s
      → IsBounded max_size (select_rates x p max_size rates s)
  unfolding select_rates
  select_rates-IsBounded p max_size [] s h = h
  select_rates-IsBounded p max_size (rate ∷ rates) s h = elim (Bool-cases (leb max_size s.size)) [
    | inl full ↦ simp full h
    | inr room ↦ simp room (
        select_rates-IsBounded p max_size rates _
          (select_set-IsBounded p.txs max_size (ids_of (find_at rate p.fee_index)) s h))
  ]

  -- The transactions that are selected have no more bytes together than asked for, those that are
  -- selected twice counted twice.
  pub select_txs-le :
      (max_size : ℕ) (p : Mempool) → total_size x (select_txs x max_size p) ≤ max_size
  unfolding select_txs IsBounded
  select_txs-le max_size p =
      let (counted, bound) =
        select_rates-IsBounded p max_size (fee_rates p.fee_index)
          (record { selected = []; size = 0; included = []; visited_packages = [] })
          (omega arith, omega arith) in
      omega (arith, counted, bound)
