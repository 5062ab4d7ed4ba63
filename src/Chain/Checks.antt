-- ===== src/Chain/Checks.antt =====
-- 111/src/chain.rs `validate_state`, `validate_state_full`, `validate_supply_full` and
-- `validate_supply_smart`, 111/src/utils.rs `compute_cf_supply`: the supply in memory, in the
-- database, in the outputs and by the schedule. What an iterator of RocksDB gives is an argument.
pub mod Mismatch
use abc.Bytes.{Bytes, from_be_bytes}
use abc.Chain.{Chain}
use abc.Methods.{Method, ◌>>=◌, ◌>>◌, call, read, change, fail_if}
use abc.Errors.{
  Result, ok, err, panicked, ok_or, bail_if, anyhow, value_overflow, invalid_block, supply_mismatch,
}
use abc.External.{Cf, default, utxo, anonymous, External}
use abc.Prelude.{
  ℕ, zero, suc, ◌+◌, ◌%◌, Option, none, some, List, [], ◌∷◌, ◌==◌, not, length, if◌then◌else◌,
}
use abc.Types.{Hash}
use abc.Utils.Checked.{u64_mod, checked_add}
use abc.Utils.Subsidy.{subsidy, calculated_supply}
use abc.Utxo.{key_utxo_set_hash, key_total_supply}

-- `u64::from_be_bytes(bytes.try_into()?)`
unfoldable pub u64_of_bytes : Bytes → Result ℕ
u64_of_bytes bytes =
    if length bytes == 8 then ok (from_be_bytes bytes) else err (anyhow "TryFromSliceError")

-- `hash.copy_from_slice(&hash_bytes)`, which panics on another length.
unfoldable pub hash_of_bytes : Bytes → Result Hash
hash_of_bytes bytes = if length bytes == 32 then ok bytes else panicked

-- `for h in 0..n { total = total.checked_add(subsidy(h)).ok_or(ValueOverflow)? }`
unfoldable pub checked_supply : ℕ → Result ℕ
checked_supply zero = ok 0
checked_supply (suc n) =
    abc.Errors.◌>>=◌ (checked_supply n)
      λ total. ok_or (checked_add total (subsidy n)) value_overflow

module _ (x : External) where
  open x use {Db, get_cf, deserialize_output}

  -- The loop of `compute_cf_supply`, on the values of the column family.
  unfoldable pub compute_cf_supply : ℕ → List Bytes → Result ℕ
  compute_cf_supply sum [] = ok sum
  compute_cf_supply sum (v ∷ vs) = elim (deserialize_output v) [
    | none ↦ err (anyhow "Deserialize failed in supply validation")
    | some out ↦ elim (checked_add sum out.value) [
      | none ↦ err value_overflow
      | some sum' ↦ compute_cf_supply sum' vs
    ]
  ]

  unfoldable pub validate_state : Method (Chain x) (Unit {0})
  validate_state = do
    c ← read
    elim (get_cf c.db default (key_total_supply x)) [
      | none ↦ call (ok tt)
      | some bytes ↦ do
        db_val ← call (u64_of_bytes bytes)
        fail_if (not (db_val == c.state.total_supply)) supply_mismatch
    ]

  module _ (values : Db → Cf → List Bytes) where
    unfoldable pub validate_state_full : Method (Chain x) (Unit {0})
    validate_state_full = do
      c ← read
      utxo_supply ← call (compute_cf_supply 0 (values c.db utxo))
      anon_supply ← call (compute_cf_supply 0 (values c.db anonymous))
      total_supply ← call (checked_supply (c.best_height + 1))
      fail_if (not ((utxo_supply + anon_supply) % u64_mod == total_supply))
          (invalid_block "Supply mismatch")

    unfoldable pub validate_supply_full : Method (Chain x) (Unit {0})
    validate_supply_full = do
      c ← read
      utxo_supply ← call (compute_cf_supply 0 (values c.db utxo))
      anon_supply ← call (compute_cf_supply 0 (values c.db anonymous))
      supply ← call (checked_supply (c.best_height + 1))
      fail_if (not ((utxo_supply + anon_supply) % u64_mod == supply)) supply_mismatch

    -- With both entries in the database.
    unfoldable pub validate_saved : Bytes → Bytes → Method (Chain x) (Unit {0})
    validate_saved hash_bytes supply_bytes = do
      c ← read
      hash ← call (hash_of_bytes hash_bytes)
      supply ← call (u64_of_bytes supply_bytes)
      fail_if (not (calculated_supply (c.best_height + 1) == supply)) supply_mismatch
      change (λ d. record d {
        state = record (d.state) { total_supply = supply; utxo_set_hash = hash };
      })

    unfoldable pub validate_supply_smart : Method (Chain x) (Unit {0})
    validate_supply_smart = do
      c ← read
      elim (get_cf c.db default (key_utxo_set_hash x)) [
        | none ↦ validate_supply_full
        | some hash_bytes ↦ elim (get_cf c.db default (key_total_supply x)) [
          | none ↦ validate_supply_full
          | some supply_bytes ↦ validate_saved hash_bytes supply_bytes
        ]
      ]
