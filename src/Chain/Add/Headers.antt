-- ===== src/Chain/Add/Headers.antt =====
-- 111/src/chain.rs `get_headers`: how many headers it gives, and that the ones it gives are those of
-- the heights after the locator.
use abc.Bytes.{eq_bytes}
use abc.Chain.{Chain}
use abc.Chain.Add.{headers_from, get_headers}
use abc.Errors.{ok_injective, ok, >>=-eq-ok}
use abc.External.{External}
use abc.Maps.{find_key}
use abc.Prelude.{
  Bool-cases, inl, inr, some, ℕ, zero, suc, ◌+◌, ◌-◌, ◌≤◌, ◌≡◌, List, [], ◌∷◌, length, arith, min,
}
use abc.Store.{load_header}
use abc.Tx.{header_hash}
use abc.Types.{Hash, BlockHeader}
use Prim.Native.Nat.{max}

module _ (x : External) where
  open x use {Db}

  -- The headers of the heights from `height` on.
  pub data IsRun (db : Db) : ℕ → List BlockHeader → Type 0 where
    run_end : {height : ℕ} → IsRun db height []
    run_on :
        {height : ℕ} {header : BlockHeader} {rest : List BlockHeader}
        → load_header x db height ≡ ok header
        → IsRun db (height + 1) rest
        → IsRun db height (header ∷ rest)

  headers_from-IsRun :
      (db : Db) (stop : Hash) (n height : ℕ) {headers : List BlockHeader}
      → headers_from x db stop n height ≡ ok headers
      → (length headers ≤ n) × IsRun db height headers
  unfolding headers_from
  headers_from-IsRun db stop zero height e =
      let same = ok_injective e in (rw (← same) (omega arith), rw (← same) run_end)
  headers_from-IsRun db stop (suc n) height e =
      let (header, loads, e') = >>=-eq-ok (load_header x db height) _ e in
      let (hash, hashes, e'') = >>=-eq-ok (header_hash x header) _ e' in
      elim (Bool-cases (eq_bytes hash stop)) [
        | inl stops ↦
            let same = ok_injective (rw stops at e'') in
            (rw (← same) (omega arith), rw (← same) (run_on loads run_end))
        | inr goes_on ↦
            let (rest, follows, e3) =
              >>=-eq-ok (headers_from x db stop n (height + 1)) _ (rw goes_on at e'') in
            let (bound, run) = headers_from-IsRun db stop n (height + 1) follows in
            let same = ok_injective e3 in
            (rw (← same) (omega (arith, bound)), rw (← same) (run_on loads run))
      ]

  -- `get_headers` gives at most 2000 headers, and they are those of the heights right after the
  -- locator's, in order, when the locator's hash is known.
  pub get_headers-IsRun :
      (c : Chain x) (locator stop : Hash) (h : ℕ) {headers : List BlockHeader}
      → find_key locator c.state.hash_to_height ≡ some h
      → get_headers x c locator stop ≡ ok headers
      → (length headers ≤ 2000)
        × (h + length headers ≤ max h c.best_height)
        × IsRun (c.db) (h + 1) headers
  unfolding get_headers
  get_headers-IsRun c locator stop h known e =
      let (bound, run) =
        headers_from-IsRun c.db stop (min 2000 (c.best_height + 1 - (h + 1))) (h + 1)
          (rw (known, get_headers) at e) in
      (ground (arith, bound), ground (arith, bound), run)
