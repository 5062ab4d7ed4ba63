-- ===== src/Chain/Effects.antt =====
-- 111/src/chain.rs `apply_block_action`: the chain that a call leaves that comes back.
use abc.Bytes.{to_le_bytes}
use abc.Chain.{
  unlock, Chain, ChainState, Disk, header_ops, key_state_total_supply, new_supply_of, work_at,
  commit_changes, prepare, commit, attempt, advance_tip, prune, apply_block_action, false,
}
use abc.Methods.{
  Outcome, failed, crashed, blocked, proceed, change, pure, ◌>>◌, done, proceed-eq-done,
}
use abc.Errors.{Result, ok, err, panicked}
use abc.External.{default, WriteOp, put_cf, External}
use abc.Prelude.{
  sym, ap, refl, ◌∙◌, ℕ, ◌≡◌, Bool, true, List, [], ◌∷◌, ◌++◌, arith, if◌then◌else◌, ◌&&◌,
}
use abc.Tx.{header_hash}
use abc.Types.{Hash, Block}
use abc.Utxo.{is_connect, Action, Acc, apply_utxo_changes}
use abc.Utxo.Write.{write}

module _ (x : External) (load_supply_from_db : x.Db → Result ℕ) where
  open x use {Db}

  -- The batch, the state and the rest, from what the calls gave.
  abbrev pub written : Block → ℕ → Action → Acc → ℕ → List WriteOp
  written block height action a current =
      a.batch
      ++ (header_ops x action height block
          ++ (put_cf default key_state_total_supply
                (to_le_bytes 8 (new_supply_of x action height current))
              ∷ []))

  abbrev pub state_after : Chain x → Block → ℕ → Action → ℕ → Hash → Acc → ℕ → ChainState
  state_after c block height action work hash a current =
      commit_changes x action height block hash (work_at x c.state height work) a.set_hash
        (new_supply_of x action height current) c.state

  -- What the block is found to be and to do.
  pub record IsApplied (c : Chain x) (block : Block) (height : ℕ) (action : Action) (work : ℕ)
      (batch : List WriteOp) (d : Chain x) : Type 0 where
    pub hash : Hash
    pub a : Acc
    pub current : ℕ
    pub hashes : header_hash x block.header ≡ ok hash
    pub changes :
        apply_utxo_changes x c.db action height block (record {
          batch = batch;
          rollback_ops = [];
          set_hash = c.state.utxo_set_hash;
          supply = c.state.total_supply;
        })
        ≡ ok a
    pub loads : load_supply_from_db c.db ≡ ok current
    pub db_after : d.db ≡ write x c.db (written block height action a current)
    pub in_memory : d.state ≡ state_after c block height action work hash a current

  module _ (disk : Disk) (block : Block) (height : ℕ) (action : Action) (is_best : Bool) (work : ℕ)
      (batch : List WriteOp) (c : Chain x) where
    prepare-eq-done :
        (hash : Hash) (a : Acc) (current : ℕ)
        → header_hash x block.header ≡ ok hash
        → apply_utxo_changes x c.db action height block (record {
          batch = batch;
          rollback_ops = [];
          set_hash = c.state.utxo_set_hash;
          supply = c.state.total_supply;
        })
          ≡ ok a
        → load_supply_from_db c.db ≡ ok current
        → prepare x load_supply_from_db disk block height action work batch c ≡ (
          done (
            hash,
            record a { batch = written block height action a current },
            state_after c block height action work hash a current,
          ),
          c,
        )
    unfolding prepare
    prepare-eq-done hash a current eh er el = rw (eh, er, el) refl

    commit-db :
        (a : Acc) (d e : Chain x)
        → commit x load_supply_from_db disk a d ≡ (done tt, e)
        → (e.db ≡ write x d.db a.batch) × (e.state_lock ≡ d.state_lock)
    unfolding commit
    commit-db a d e h = ground arith

    last-db :
        (hash : Hash) (ops : List WriteOp) (s : ChainState) (d e : Chain x)
        → d.state_lock ≡ true
        → (change (λ z. record z { state = s })
              >> (if is_connect action && is_best
                  then advance_tip x load_supply_from_db disk height hash ops
                  else pure tt))
            d
          ≡ (done tt, e)
        → (e.db ≡ d.db) × (e.state ≡ s)
    unfolding advance_tip prune
    last-db hash ops s d e lock h = ground (arith, lock, h)

    IsApplied-from :
        (h : Result Hash) (r : Result Acc) (l : Result ℕ) {d : Chain x}
        → header_hash x block.header ≡ h
        → apply_utxo_changes x c.db action height block (record {
          batch = batch;
          rollback_ops = [];
          set_hash = c.state.utxo_set_hash;
          supply = c.state.total_supply;
        })
          ≡ r
        → load_supply_from_db c.db ≡ l
        → c.state_lock ≡ true
        → attempt x load_supply_from_db disk block height action is_best work batch c ≡ (done tt, d)
        → IsApplied c block height action work batch d
    unfolding attempt prepare
    IsApplied-from (ok hash) (ok a) (ok current) {d} eh er el lock e =
        let e' = rw (attempt, prepare-eq-done hash a current eh er el) at e in
        let (u, m, e1, e2) =
          proceed-eq-done
            (commit x load_supply_from_db disk
              (record a { batch = written block height action a current }) c)
            _ e' in
        let (stored, held) =
          commit-db (record a { batch = written block height action a current }) c m e1 in
        let (same, state) =
          last-db hash (written block height action a current)
            (state_after c block height action work hash a current) m d (held ∙ lock) e2 in
        record {
          hash = hash;
          a = a;
          current = current;
          hashes = eh;
          changes = er;
          loads = el;
          db_after = same ∙ stored;
          in_memory = state;
        }
    IsApplied-from (ok hash) (ok a) (err p) eh er el lock e = ground (arith, eh, er, el, e)
    IsApplied-from (ok hash) (ok a) panicked eh er el lock e = ground (arith, eh, er, el, e)
    IsApplied-from (ok hash) (err p) l eh er el lock e = ground (arith, eh, er, e)
    IsApplied-from (ok hash) panicked l eh er el lock e = ground (arith, eh, er, e)
    IsApplied-from (err p) r l eh er el lock e = ground (arith, eh, e)
    IsApplied-from panicked r l eh er el lock e = ground (arith, eh, e)

  cleared :
      (r : Outcome (Unit {0}) × Chain x) (d : Chain x)
      → unlock x (proceed r (λ u. change (λ z. record z { batch_pending = false }))) ≡ (done tt, d)
      → (r ≡ (done tt, r.1)) × (d.db ≡ r.1.db) × (d.state ≡ r.1.state)
  cleared (done tt, m) d e = (refl, sym (ap (λ p. p.1.db) e), sym (ap (λ p. p.1.state) e))
  cleared (failed p, m) d e = cc (ap (λ q. q.0) e)
  cleared (crashed, m) d e = cc (ap (λ q. q.0) e)
  cleared (blocked, m) d e = cc (ap (λ q. q.0) e)

  moved :
      (block : Block) (height : ℕ) (action : Action) (work : ℕ) (batch : List WriteOp)
      (c m d : Chain x)
      → d.db ≡ m.db
      → d.state ≡ m.state
      → IsApplied
          (record c { state_lock = true; batch_pending = true })
          block
          height
          action
          work
          batch
          m
      → IsApplied c block height action work batch d
  moved block height action work batch c m d db state t = record {
    hash = t.hash;
    a = t.a;
    current = t.current;
    hashes = t.hashes;
    changes = t.changes;
    loads = t.loads;
    db_after = db ∙ t.db_after;
    in_memory = state ∙ t.in_memory;
  }

  -- A call that comes back found no flag and no lock, and the database and the state in memory are
  -- those that the changes of the outputs, the header, the index of transactions and the schedule of
  -- rewards give.
  pub apply_block_action-IsApplied :
      (disk : Disk) (block : Block) (height : ℕ) (action : Action) (is_best : Bool) (work : ℕ)
      (batch : List WriteOp) (c d : Chain x)
      → apply_block_action x load_supply_from_db disk block height action is_best work batch c
        ≡ (done tt, d)
      → IsApplied c block height action work batch d
  unfolding apply_block_action
  apply_block_action-IsApplied disk block height action is_best work batch c d e =
      let taken = record c { state_lock = true; batch_pending = true } in
      let r = attempt x load_supply_from_db disk block height action is_best work batch taken in
      let (came_back, db, state) = cleared r d (ground (arith, e)) in
      moved block height action work batch c r.1 d db state (
        IsApplied-from disk block height action is_best work batch taken _ _ _ refl refl refl refl
          came_back)
