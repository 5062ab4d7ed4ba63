-- ===== src/Chain/Load/Refused.antt =====
-- 111/src/chain.rs `load_from_db`: the supply that is validated against the stored one is that of a
-- chain whose supply was not loaded yet.
use abc.Bytes.{Bytes}
use abc.Chain.{Chain}
use abc.Chain.Checks.{hash_of_bytes, validate_state, validate_supply_smart, validate_saved}
use abc.Chain.Load.{
  returned, made_by, Loaded, load_height_header, load_heights, load_chain, load_current_tip,
  load_current_height, key_genesis_hash, empty_state, load_recovered,
}
use abc.Methods.{Outcome, ◌>>◌, failed, crashed, blocked, done}
use abc.Errors.{Result, err, panicked, ok, >>=-eq-ok, ok_injective, anyhow, ok_or}
use abc.External.{default, Cf, External}
use abc.Mempool.{Mempool}
use abc.Prelude.{refl, List, some, ℕ, zero, suc, ◌+◌, ◌≤◌, ◌≡◌, ap, sym, ◌∙◌, arith, ◌-◌, ◌≢◌}
use abc.Store.{height_key}
use abc.Utils.Compact.{compact_to_target}
use abc.Utils.Constants.{prune_depth}
use abc.Utils.Subsidy.{subsidy, calculated_supply, shr}
use abc.Utxo.{key_total_supply, key_utxo_set_hash}

calculated_supply_pos : (n : ℕ) → 1 ≤ calculated_supply (suc n)
unfolding calculated_supply subsidy shr
calculated_supply_pos zero = omega arith
calculated_supply_pos (suc n) = omega (arith, calculated_supply_pos n)

module _ (x : External) where
  open x use {Db, get_cf}

  load_height_header-supply :
      (db : Db) (prune_start h : ℕ) (l : Loaded) {r : ℕ × Loaded}
      → load_height_header x db prune_start h l ≡ ok r
      → r.1.state.total_supply ≡ l.state.total_supply
  unfolding load_height_header
  load_height_header-supply db prune_start h l e = ground (arith, e)

  load_heights-supply :
      (db : Db) (prune_start n h : ℕ) (l l' : Loaded)
      → load_heights x db prune_start n h l ≡ ok l'
      → l'.state.total_supply ≡ l.state.total_supply
  unfolding load_heights
  load_heights-supply db prune_start zero h l l' e =
      ap (λ z. z.state.total_supply) (ok_injective (sym e))
  load_heights-supply db prune_start (suc n) h l l' e =
      let (bytes, e1, r1) =
        >>=-eq-ok (ok_or (get_cf db default (height_key h)) (anyhow "Missing hash")) _ e in
      let (hash, e2, r2) = >>=-eq-ok (hash_of_bytes bytes) _ r1 in
      let (read, e3, r3) = >>=-eq-ok (load_height_header x db prune_start h l) _ r2 in
      let (target, e4, r4) = >>=-eq-ok (compact_to_target read.0) _ r3 in
      load_heights-supply db prune_start n (h + 1) _ l' r4
      ∙ load_height_header-supply db prune_start h l e3

  -- A chain that was loaded holds the database that it was loaded from, and no supply.
  load_chain-supply :
      (db : Db) (mempool : Mempool) (c : Chain x)
      → load_chain x db mempool ≡ ok c
      → (c.db ≡ db) × (c.state.total_supply ≡ 0)
  unfolding load_chain
  load_chain-supply db mempool c e =
      let (tip, e1, r1) = >>=-eq-ok (load_current_tip x db) _ e in
      let (height, e2, r2) = >>=-eq-ok (load_current_height x "Invalid height bytes" db) _ r1 in
      let (bytes, e3, r3) =
        >>=-eq-ok (ok_or (get_cf db default key_genesis_hash) (anyhow "Missing genesis_hash")) _
          r2 in
      let (hash, e4, r4) = >>=-eq-ok (hash_of_bytes bytes) _ r3 in
      let start : Loaded = record { state = empty_state; cum_work = 0 } in
      let (l, e5, r5) =
        >>=-eq-ok (load_heights x db (height - prune_depth) (height + 1) 0 start) _ r4 in
      let supply = load_heights-supply db (height - prune_depth) (height + 1) 0 start l e5 in
      ground (arith, r5, supply)

  validate_refuses :
      (values : Db → Cf → List Bytes) (c : Chain x) (s h : Bytes) {c' : Chain x}
      → c.state.total_supply ≡ 0
      → get_cf c.db default (key_total_supply x) ≡ some s
      → get_cf c.db default (key_utxo_set_hash x) ≡ some h
      → (validate_state x >> validate_supply_smart x values) c ≢ (done tt, c')
  unfolding validate_state validate_supply_smart validate_saved
  validate_refuses values c s h zero_supply stored hashed e =
      ground (arith, calculated_supply_pos c.best_height, zero_supply, stored, hashed, e)

  returned-done :
      (r : Outcome (Unit {0}) × Chain x) (c : Chain x) → returned x r ≡ done c → r ≡ (done tt, r.1)
  returned-done (done u, d) c e = refl
  returned-done (failed p, d) c e = cc e
  returned-done (crashed, d) c e = cc e
  returned-done (blocked, d) c e = cc e

  refuses_from :
      (values : Db → Cf → List Bytes) (db : Db) (mempool : Mempool) (s h : Bytes)
      (r : Result (Chain x))
      → load_chain x db mempool ≡ r
      → get_cf db default (key_total_supply x) ≡ some s
      → get_cf db default (key_utxo_set_hash x) ≡ some h
      → (c : Chain x) → made_by x (validate_state x >> validate_supply_smart x values) r ≢ done c
  refuses_from values db mempool s h (ok d) loads stored hashed c e =
      let (same, nothing) = load_chain-supply db mempool d loads in
      validate_refuses values d s h nothing
        (ap (λ z. get_cf z default (key_total_supply x)) same ∙ stored)
        (ap (λ z. get_cf z default (key_utxo_set_hash x)) same ∙ hashed)
        (returned-done ((validate_state x >> validate_supply_smart x values) d) c e)
  refuses_from values db mempool s h (err p) loads stored hashed c e = cc e
  refuses_from values db mempool s h panicked loads stored hashed c e = cc e

  -- No chain is ever loaded from a database that holds a supply and a hash of the unspent outputs:
  -- the stored supply is compared with that of a chain that has none yet, and then with the schedule.
  pub load_recovered_refuses :
      (values : Db → Cf → List Bytes) (mempool : Mempool) (db : Db) (s h : Bytes)
      → get_cf db default (key_total_supply x) ≡ some s
      → get_cf db default (key_utxo_set_hash x) ≡ some h
      → (c : Chain x) → load_recovered x values mempool (ok db) ≢ done c
  unfolding load_recovered
  load_recovered_refuses values mempool db s h stored hashed c e =
      refuses_from values db mempool s h (load_chain x db mempool) refl stored hashed c e
