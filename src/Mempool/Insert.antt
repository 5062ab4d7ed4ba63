-- ===== src/Mempool/Insert.antt =====
-- 111/src/mempool.rs `Mempool::insert` up to its first change: the checks of a transaction.
-- The order of a set is that in which its elements were put in.
use abc.Bytes.{eq_bytes}
use abc.Errors.{
  Result, ok, ◌>>=◌, ◌>>◌, bail_if, ok_or, anyhow, invalid_tx, package_depth_exceeded,
  value_overflow, missing_utxo, invalid_script, double_spend, insufficient_fee,
}
use abc.External.{External}
use abc.Maps.{find_key, is_some}
use abc.Mempool.{MempoolEntry, Mempool}
use abc.Prelude.{
  ℕ, zero, suc, ◌+◌, ◌*◌, ◌/◌, ◌%◌, Bool, true, false, ◌||◌, not, Option, none, some, List, [], ◌∷◌,
  ◌++◌, length, take, map, ltb, ◌==◌, if◌then◌else◌,
}
use abc.Tx.{tx_hash, tx_size}
use abc.Types.{Hash, TxInput, TxOutput, Transaction}
use abc.Utils.Checked.{u64_mod, checked_add, checked_sub, try_sum}
use abc.Utils.Constants.{max_package_depth, max_package_size, min_fee_per_byte}
use abc.Utxo.{output_cf, output_key}

-- `set.contains(id)` and `set.insert(id)`
unfoldable pub contains_id : Hash → List Hash → Bool
contains_id id [] = false
contains_id id (i ∷ ids) = if eq_bytes id i then true else contains_id id ids

abbrev pub insert_id : Hash → List Hash → List Hash
insert_id id ids = if contains_id id ids then ids else ids ++ (id ∷ [])

-- The inputs whose transactions are in the pool; the last one is popped first.
unfoldable pub pool_parents : List TxInput → List (Hash × MempoolEntry) → List Hash
pool_parents [] txs = []
pool_parents (vin ∷ vins) txs =
    let rest = pool_parents vins txs in
    if is_some (find_key vin.txid txs) then rest ++ (vin.txid ∷ []) else rest

-- `stack.extend(&entry.depends_on)`, on a stack whose top comes first.
unfoldable pub push_all : List Hash → List Hash → List Hash
push_all [] stack = stack
push_all (id ∷ ids) stack = push_all ids (id ∷ stack)

abbrev pub parents_of : Option MempoolEntry → List Hash
parents_of none = []
parents_of (some entry) = entry.depends_on

-- `while !stack.is_empty() && depth < MAX_PACKAGE_DEPTH`, with `n` turns left: the dependencies, and
-- the turns that are left.
unfoldable pub collect_ancestors :
    List (Hash × MempoolEntry) → ℕ → List Hash → List Hash → Result (List Hash × ℕ)
collect_ancestors txs n [] depends_on = ok (depends_on, n)
collect_ancestors txs zero (parent ∷ stack) depends_on = ok (depends_on, zero)
collect_ancestors txs (suc n) (parent ∷ stack) depends_on = do
  bail_if (contains_id parent depends_on) (anyhow "Cycle detected in dependencies")
  collect_ancestors txs n (push_all (parents_of (find_key parent txs)) stack)
      (depends_on ++ (parent ∷ []))

module _ (x : External) where
  open x use {Db, get_cf, deserialize_output}

  abbrev pub size_of : Option MempoolEntry → ℕ
  size_of none = 0
  size_of (some entry) = tx_size x entry.tx

  -- `for dep in &depends_on`
  unfoldable pub check_package : List (Hash × MempoolEntry) → ℕ → List Hash → Result (Unit {0})
  check_package txs package_size [] = ok tt
  check_package txs package_size (dep ∷ deps) = do
    let sum = package_size + size_of (find_key dep txs)
    bail_if (ltb max_package_size sum) (anyhow "Package size exceeded")
    check_package txs sum deps

  -- The values of the inputs that are stored, and the dependencies with those that are not.
  unfoldable pub sum_inputs :
      Db → List (Hash × MempoolEntry) → Bool → List TxInput → ℕ → List Hash → Result (ℕ × List Hash)
  sum_inputs db txs anon [] input_sum depends_on = ok (input_sum, depends_on)
  sum_inputs db txs anon (vin ∷ vins) input_sum depends_on =
      elim (get_cf db (output_cf anon) (output_key anon vin.txid vin.vout)) [
        | some value ↦ do
          output ← ok_or (deserialize_output value) (anyhow "Deserialize output failed")
          sum ← ok_or (checked_add input_sum output.value) value_overflow
          sum_inputs db txs anon vins sum depends_on
        | none ↦ do
          bail_if (not (is_some (find_key vin.txid txs))) missing_utxo
          sum_inputs db txs anon vins input_sum (insert_id vin.txid depends_on)
      ]

  -- A transaction of the same hash would have to pay more.
  abbrev pub check_replacement : Option MempoolEntry → ℕ → ℕ → Result (Unit {0})
  check_replacement none fee size = ok tt
  check_replacement (some old_entry) fee size =
      bail_if (ltb fee ((old_entry.fee + min_fee_per_byte * 2 * size) % u64_mod)) insufficient_fee

  unfoldable pub check_key_images : List (Hash × Hash) → List TxInput → Result (Unit {0})
  check_key_images images [] = ok tt
  check_key_images images (vin ∷ vins) = do
    bail_if (ltb (length vin.script_sig) 32) invalid_script
    bail_if (is_some (find_key (take 32 vin.script_sig) images)) double_spend
    check_key_images images vins

  -- The entry of a transaction that may join the pool.
  unfoldable pub check_entry : Db → ℕ → Transaction → Mempool → Result MempoolEntry
  check_entry db now_ms tx p = do
    let size = tx_size x tx
    bail_if ((size == 0) || ltb 500_000 size) (invalid_tx "Invalid size")
    (ancestors, left) ← collect_ancestors p.txs max_package_depth (pool_parents tx.inputs p.txs) []
    bail_if (left == 0) package_depth_exceeded
    check_package p.txs size ancestors
    (input_sum, depends_on) ← sum_inputs db p.txs tx.is_anonymous tx.inputs 0 ancestors
    output_sum ← ok_or (try_sum 0 (map (λ (o : TxOutput). o.value) tx.outputs)) value_overflow
    fee ← ok_or (checked_sub input_sum output_sum) value_overflow
    check_replacement (find_key (tx_hash x tx) p.txs) fee size
    (if tx.is_anonymous then check_key_images p.key_images tx.inputs else ok tt)
    ok (record {
      tx = tx;
      fee_per_byte = fee / size;
      time = now_ms;
      depends_on = depends_on;
      fee = fee;
    })
