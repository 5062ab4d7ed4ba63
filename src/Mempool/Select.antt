-- ===== src/Mempool/Select.antt =====
-- 111/src/mempool.rs `Mempool::select_txs`: the transactions of a block, by packages, from the best
-- paying ones down.
pub mod Bounds
use abc.External.{External}
use abc.Maps.{find_key, find_at}
use abc.Mempool.{MempoolEntry, Mempool}
use abc.Mempool.Insert.{contains_id, push_all}
use abc.Mempool.Join.{ids_of}
use abc.Prelude.{
  Bool-cases, Option-cases, inl, inr, ◌≡◌, ◌≤◌, arith, ℕ, zero, suc, ◌+◌, ◌-◌, ◌&&◌, ◌||◌, Option,
  none, some, List, [], ◌∷◌, ◌++◌, leb, if◌then◌else◌,
}
use abc.Tx.{tx_size}
use abc.Types.{Hash, Transaction}
use abc.Utils.Constants.{max_package_depth, max_package_size}

-- `fee_rates.sort_by(|a, b| b.cmp(a))`
unfoldable pub insert_rate : ℕ → List ℕ → List ℕ
insert_rate r [] = r ∷ []
insert_rate r (s ∷ ss) = if leb s r then r ∷ s ∷ ss else s ∷ insert_rate r ss

unfoldable pub fee_rates : List (ℕ × List Hash) → List ℕ
fee_rates [] = []
fee_rates ((rate, ids) ∷ index) = insert_rate rate (fee_rates index)

-- What the search of the parents of a transaction collects.
pub record Package : Type 0 where
  pub txs : List Transaction
  pub package_size : ℕ
  pub to_include : List Hash
  pub visited : List Hash

-- What is selected so far.
pub record Selection : Type 0 where
  pub selected : List Transaction
  pub size : ℕ
  pub included : List Hash
  pub visited_packages : List Hash

module _ (x : External) where
  -- A parent that is in the pool goes in front.
  unfoldable pub add_parent : Hash → Option MempoolEntry → Package → Package
  add_parent parent none g = record g { visited = parent ∷ g.visited }
  add_parent parent (some entry) g = record {
    txs = entry.tx ∷ g.txs;
    package_size = g.package_size + tx_size x entry.tx;
    to_include = g.to_include ++ (parent ∷ []);
    visited = parent ∷ g.visited;
  }

  abbrev pub parents : Option MempoolEntry → List Hash
  parents none = []
  parents (some entry) = entry.depends_on

  -- `while let Some(parent) = stack.pop()`, with `n` turns left before the depth is exceeded.
  unfoldable pub walk_parents : List (Hash × MempoolEntry) → ℕ → List Hash → Package → Package
  walk_parents txs n [] g = g
  walk_parents txs zero (parent ∷ stack) g = g
  walk_parents txs (suc n) (parent ∷ stack) g =
      if contains_id parent g.visited
      then walk_parents txs n stack g
      else walk_parents txs n (push_all (parents (find_key parent txs)) stack)
          (add_parent parent (find_key parent txs) g)

  unfoldable pub package_of : List (Hash × MempoolEntry) → Hash → MempoolEntry → Package
  package_of txs txid entry =
      walk_parents txs max_package_depth (push_all entry.depends_on []) (record {
        txs = entry.tx ∷ [];
        package_size = tx_size x entry.tx;
        to_include = txid ∷ [];
        visited = [];
      })

  -- The package goes in when it fits.
  unfoldable pub add_package : ℕ → Package → Selection → Selection
  add_package max_size g s =
      let s' = record s { visited_packages = g.visited ++ s.visited_packages } in
      if leb g.package_size (max_size - s.size) && leb g.package_size max_package_size
      then record s' {
        selected = s.selected ++ g.txs;
        size = s.size + g.package_size;
        included = g.to_include ++ s.included;
      }
      else s'

  unfoldable pub select_tx : List (Hash × MempoolEntry) → ℕ → Hash → Selection → Selection
  select_tx txs max_size txid s =
      if contains_id txid s.included || contains_id txid s.visited_packages
      then s
      else elim (find_key txid txs) [
        | none ↦ s
        | some entry ↦ add_package max_size (package_of txs txid entry) s
      ]

  unfoldable pub select_set : List (Hash × MempoolEntry) → ℕ → List Hash → Selection → Selection
  select_set txs max_size [] s = s
  select_set txs max_size (id ∷ ids) s = select_set txs max_size ids (select_tx txs max_size id s)

  unfoldable pub select_rates : Mempool → ℕ → List ℕ → Selection → Selection
  select_rates p max_size [] s = s
  select_rates p max_size (rate ∷ rates) s =
      if leb max_size s.size
      then s
      else select_rates p max_size rates
          (select_set p.txs max_size (ids_of (find_at rate p.fee_index)) s)

  unfoldable pub select_txs : ℕ → Mempool → List Transaction
  select_txs max_size p =
      (select_rates p max_size (fee_rates p.fee_index)
        (record { selected = []; size = 0; included = []; visited_packages = [] })).selected

  -- The bytes of transactions.
  abbrev pub total_size : List Transaction → ℕ
  total_size [] = 0
  total_size (tx ∷ txs) = tx_size x tx + total_size txs
