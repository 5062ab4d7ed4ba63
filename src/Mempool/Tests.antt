-- ===== src/Mempool/Tests.antt =====
-- A pool of a parent and its child.
use abc.Bytes.{be_value, lt_bytes, to_be_bytes, utxo_key, eq_bytes}
use abc.Errors.{ok}
use abc.External.{utxo, put_cf}
use abc.Maps.{insert_key, insert_at, find_at, find_key, erase_key}
use abc.Mempool.{
  MempoolEntry, Mempool, remove_id, remove_from_index, remove_key_images, average_without, take_out,
  drop_indexes, remove_with, remove,
}
use abc.Mempool.Account.{IsAccounted, bytes_of}
use abc.Mempool.Bounds.{insert-IsAccounted, check_entry-IsApart}
use abc.Mempool.Expire.{expired_prefix, drop_expired, remove_expired, clean_expired}
use abc.Mempool.Insert.{
  contains_id, pool_parents, push_all, collect_ancestors, check_package, sum_inputs,
  check_key_images, check_entry,
}
use abc.Mempool.Join.{
  push_heap, push_ttl, insert_ordered, add_child_of, add_key_images, lacks_any, orphaned, join_pool,
  remove_locking, remove_all, evict_entry, pop_heap, evict_low_fee_package, shrink,
  remove_orphaned_txs, settle, insert,
}
use abc.Mempool.Joined.{IsJoined, insert-IsJoined}
use abc.Mempool.Select.{
  insert_rate, fee_rates, add_parent, walk_parents, package_of, add_package, select_tx, select_set,
  select_rates, select_txs, total_size,
}
use abc.Mempool.Select.Bounds.{select_txs-le}
use abc.Methods.{done, blocked}
use abc.Prelude.{true, none, ◌≤◌, length, arith, ℕ, ◌≡◌, refl, false, [], ◌∷◌}
use abc.Sample.{MapDb, apply_op, sample}
use abc.Tx.{sha256d, tx_hash, tx_size}
use abc.Types.{TxOutput, Hash, Transaction}
use abc.Utils.Checked.{try_sum}

program : Unit {0}
unfolding eq_bytes to_be_bytes tx_size find_key erase_key remove_id remove_from_index
    remove_key_images average_without take_out drop_indexes remove_with remove
program = tt

abbrev payment : Transaction
payment = record {
  version = 1;
  is_anonymous = false;
  inputs = [];
  outputs = [];
  lock_time = 0;
  range_proofs = [];
}

abbrev entry : MempoolEntry
entry = record { tx = payment; fee_per_byte = 10; time = 5; depends_on = []; fee = 80 }

abbrev id_of : ℕ → Hash
id_of n = n ∷ []

-- The second one depends on the first, the third on none.
abbrev pool : Mempool
pool = record {
  txs = (id_of 1, entry) ∷ (id_of 2, entry) ∷ (id_of 3, entry) ∷ [];
  total_bytes = 24;
  by_parent = (id_of 1, id_of 2 ∷ []) ∷ [];
  fee_index = (10, id_of 1 ∷ id_of 2 ∷ id_of 3 ∷ []) ∷ [];
  expiration_index = (5, id_of 1 ∷ id_of 2 ∷ id_of 3 ∷ []) ∷ [];
  avg_fee = 10;
  key_images = [];
  fee_cache = [];
  heap = [];
  ttl_heap = [];
  max_size = 1_000_000;
  avg_lock = false;
}

abbrev after : Mempool
after = record pool {
  txs = (id_of 3, entry) ∷ [];
  total_bytes = 8;
  by_parent = [];
  fee_index = (10, id_of 3 ∷ []) ∷ [];
  expiration_index = (5, id_of 3 ∷ []) ∷ [];
}

family_leaves : remove sample (id_of 1) pool ≡ ok after
unfolding program
family_leaves = refl

abbrev coin : Hash
coin = to_be_bytes 32 77

abbrev output : ℕ → TxOutput
output v = record { value = v; script_pubkey = 1 ∷ 2 ∷ []; commitment = none }

abbrev db : MapDb
db = apply_op (λ c k. none) (put_cf utxo (utxo_key coin 3) (sample.serialize_output (output 1000)))

abbrev spending : Transaction
spending = record payment {
  version = 9;
  inputs = record { txid = coin; vout = 3; script_sig = []; sequence = 0 } ∷ [];
  outputs = output 900 ∷ [];
}

abbrev joined : Mempool
joined = (insert sample db 7 spending pool).1

-- The same output again.
abbrev spending_too : Transaction
spending_too = record spending { lock_time = 1 }

joining : Unit {0}
unfolding program contains_id pool_parents push_all collect_ancestors check_package sum_inputs
    check_key_images check_entry push_heap push_ttl insert_ordered add_child_of add_key_images
    lacks_any orphaned join_pool remove_locking remove_all evict_entry pop_heap
    evict_low_fee_package shrink remove_orphaned_txs settle insert to_be_bytes utxo_key be_value
    try_sum sha256d tx_hash lt_bytes insert_key insert_at find_at find_key eq_bytes insert_rate
    fee_rates add_parent walk_parents package_of add_package select_tx select_set select_rates
    select_txs expired_prefix drop_expired remove_expired clean_expired tx_size remove_with remove
    take_out drop_indexes average_without remove_from_index remove_id
joining = tt

joins : insert sample db 7 spending pool ≡ (done true, joined)
unfolding joining
joins = refl

spent_twice : (insert sample db 8 spending_too joined).0 ≡ done true
unfolding joining
spent_twice = refl

-- A limit that the pool exceeds: the eviction waits for the lock.
evicting : (insert sample db 7 spending (record pool { max_size = 30 })).0 ≡ blocked
unfolding joining
evicting = refl

insert-IsJoined_example : IsJoined sample db 7 spending pool joined
insert-IsJoined_example = insert-IsJoined sample db 7 spending pool joined joins

insert-IsAccounted_example :
    IsAccounted sample joined
    × (bytes_of sample joined.txs ≤ joined.max_size)
    × (length joined.txs ≤ 50000)
unfolding joining
insert-IsAccounted_example =
    insert-IsAccounted sample db 7 spending pool joined (refl, omega arith) (omega arith) joins

check_entry-IsApart_example :
    check_entry sample db 8 spending_too joined ≡ check_entry sample db 8 spending_too pool
unfolding joining
check_entry-IsApart_example =
    check_entry-IsApart sample db 8 spending_too joined pool refl (refl, refl) (refl, refl)

-- The second one comes with its parent, which is in the list twice when the third one shares it.
selected : length (select_txs sample 100 pool) ≡ 3
unfolding joining
selected = refl

abbrev shared : Mempool
shared =
    let child = record entry { depends_on = id_of 1 ∷ []; fee_per_byte = 20 } in
    record pool {
      txs = (id_of 1, entry) ∷ (id_of 2, child) ∷ (id_of 3, child) ∷ [];
      fee_index = (20, id_of 2 ∷ id_of 3 ∷ []) ∷ (10, id_of 1 ∷ []) ∷ [];
    }

parent_twice : length (select_txs sample 100 shared) ≡ 4
unfolding joining
parent_twice = refl

select_txs-le_example : total_size sample (select_txs sample 20 pool) ≤ 20
unfolding joining
select_txs-le_example = select_txs-le sample 20 pool

-- The latest one stands first in the heap and has not expired.
none_expire :
    (clean_expired sample
      (λ t. t)
      1000
      100
      (record pool { ttl_heap = (950, id_of 3) ∷ (5, id_of 1) ∷ [] })).1.txs
    ≡ pool.txs
unfolding joining
none_expire = refl
