-- ===== src/Chain/Flags.antt =====
-- 111/src/chain.rs `batch_pending` and `read_only_mode` over any sequence of calls of
-- `apply_block_action`: what a call that fails leaves behind.
use abc.Chain.{
  Chain, Disk, prepare, commit, roll_back, advance_tip, prune, suc, rollback_batch, attempt, Bool,
  apply_block_action,
}
use abc.Methods.{failed, done, proceed-eq-done, Keeps, proceed-Keeps}
use abc.Errors.{Result, ChainError, anyhow}
use abc.External.{WriteOp, External}
use abc.Prelude.{sym, ◌∙◌, ap, false, refl, ℕ, zero, suc, ◌≡◌, true, List, arith, ◌+◌}
use abc.Types.{Block, Hash}
use abc.Utxo.{Action, Acc}

module _ (x : External) where
  open x use {Db}

  -- A block is being applied.
  abbrev IsPending : Chain x → Type 0
  IsPending c = c.batch_pending ≡ true

  -- Read-only mode comes with a flag that was left behind, and the lock is free.
  abbrev pub IsSettled : Chain x → Type 0
  IsSettled c = (c.read_only_mode ≡ true → c.batch_pending ≡ true) × (c.state_lock ≡ false)

  module _ (load_supply_from_db : Db → Result ℕ) where
    prepare-Keeps :
        (disk : Disk) (block : Block) (height : ℕ) (action : Action) (work : ℕ)
        (batch : List WriteOp)
        → Keeps IsPending (prepare x load_supply_from_db disk block height action work batch)
    unfolding prepare
    prepare-Keeps disk block height action work batch c h = ground arith

    roll_back-Keeps :
        (disk : Disk) (batch : List WriteOp) (n i : ℕ)
        → Keeps IsPending (roll_back x disk batch n i)
    unfolding roll_back
    roll_back-Keeps disk batch zero i c h = h
    roll_back-Keeps disk batch (suc n) i c h =
        ground (arith, roll_back-Keeps disk batch n (i + 1) c h)

    commit-Keeps : (disk : Disk) (a : Acc) → Keeps IsPending (commit x load_supply_from_db disk a)
    unfolding commit
    commit-Keeps disk a c h =
        ground (arith, roll_back-Keeps disk (rollback_batch a.rollback_ops) 3 0 c h)

    advance_tip-Keeps :
        (disk : Disk) (height : ℕ) (hash : Hash) (batch : List WriteOp)
        → Keeps IsPending (advance_tip x load_supply_from_db disk height hash batch)
    unfolding advance_tip prune
    advance_tip-Keeps disk height hash batch c h = ground arith

    attempt-Keeps :
        (disk : Disk) (block : Block) (height : ℕ) (action : Action) (is_best : Bool) (work : ℕ)
        (batch : List WriteOp)
        → Keeps IsPending
            (attempt x load_supply_from_db disk block height action is_best work batch)
    unfolding attempt
    attempt-Keeps disk block height action is_best work batch c h =
        proceed-Keeps IsPending
          (prepare x load_supply_from_db disk block height action work batch c) _
          (prepare-Keeps disk block height action work batch c h)
          (λ p d h'.
            proceed-Keeps IsPending (commit x load_supply_from_db disk p.1 d) _
              (commit-Keeps disk p.1 d h')
              (λ _ e h''. ground (
                arith,
                advance_tip-Keeps disk height p.0 (p.1.batch) (record e { state = p.2 }) h'',
              )))

    -- A call that fails leaves the flag set, or finds it so.
    apply_block_action-failed :
        (disk : Disk) (block : Block) (height : ℕ) (action : Action) (is_best : Bool) (work : ℕ)
        (batch : List WriteOp) (c : Chain x) {e : ChainError} {c' : Chain x}
        → IsSettled c
        → apply_block_action x load_supply_from_db disk block height action is_best work batch c
          ≡ (failed e, c')
        → IsPending c' × (c'.state_lock ≡ false)
    unfolding apply_block_action
    apply_block_action-failed disk block height action is_best work batch c (r, l) h = ground (
      arith,
      attempt-Keeps disk block height action is_best work batch
          (record c { state_lock = true; batch_pending = true }) refl,
    )

    prepare-unchanged :
        (disk : Disk) (block : Block) (height : ℕ) (action : Action) (work : ℕ)
        (batch : List WriteOp) (c : Chain x)
        → (prepare x load_supply_from_db disk block height action work batch c).1.read_only_mode
          ≡ c.read_only_mode
    unfolding prepare
    prepare-unchanged disk block height action work batch c = ground arith

    commit-done :
        (disk : Disk) (a : Acc) (c : Chain x) {c' : Chain x}
        → commit x load_supply_from_db disk a c ≡ (done tt, c')
        → c'.read_only_mode ≡ c.read_only_mode
    unfolding commit
    commit-done disk a c h = ground arith

    advance_tip-read_only :
        (disk : Disk) (height : ℕ) (hash : Hash) (batch : List WriteOp) (c : Chain x)
        → (advance_tip x load_supply_from_db disk height hash batch c).1.read_only_mode
          ≡ c.read_only_mode
    unfolding advance_tip prune
    advance_tip-read_only disk height hash batch c = ground arith

    attempt-done :
        (disk : Disk) (block : Block) (height : ℕ) (action : Action) (is_best : Bool) (work : ℕ)
        (batch : List WriteOp) (c : Chain x) {c' : Chain x}
        → attempt x load_supply_from_db disk block height action is_best work batch c
          ≡ (done tt, c')
        → c'.read_only_mode ≡ c.read_only_mode
    unfolding attempt
    attempt-done disk block height action is_best work batch c h =
        let (p, d, e, h') =
          proceed-eq-done (prepare x load_supply_from_db disk block height action work batch c) _
            h in
        let (u, d', e', h'') = proceed-eq-done (commit x load_supply_from_db disk p.1 d) _ h' in
        let kept = commit-done disk p.1 d e' in
        let same = ap (λ r. r.1) e in
        let unchanged = prepare-unchanged disk block height action work batch c in
        ground (arith, advance_tip-read_only disk height p.0 p.1.batch (record d' { state = p.2 }))

    apply_block_action-done :
        (disk : Disk) (block : Block) (height : ℕ) (action : Action) (is_best : Bool) (work : ℕ)
        (batch : List WriteOp) (c : Chain x) {c' : Chain x}
        → apply_block_action x load_supply_from_db disk block height action is_best work batch c
          ≡ (done tt, c')
        → (c.batch_pending ≡ false)
          × (c'.batch_pending ≡ false)
          × (c'.state_lock ≡ false)
          × (c'.read_only_mode ≡ c.read_only_mode)
    unfolding apply_block_action
    apply_block_action-done disk block height action is_best work batch c h =
        let taken = record c { state_lock = true; batch_pending = true } in
        ground (
          arith,
          attempt-done disk block height action is_best work batch taken
              {c' = (attempt x load_supply_from_db disk block height action is_best work batch
                taken).1},
        )

    -- Any number of calls, each with its block and its disk, that come back.
    pub data Calls : Chain x → Chain x → Type 0 where
      no_more : {c : Chain x} → Calls c c
      applied :
          {c d e : Chain x} (disk : Disk) (block : Block) (height : ℕ) (action : Action)
          (is_best : Bool) (work : ℕ) (batch : List WriteOp)
          → apply_block_action x load_supply_from_db disk block height action is_best work batch c
            ≡ (done tt, d)
          → Calls d e
          → Calls c e
      refused :
          {c d e : Chain x} {problem : ChainError} (disk : Disk) (block : Block) (height : ℕ)
          (action : Action) (is_best : Bool) (work : ℕ) (batch : List WriteOp)
          → apply_block_action x load_supply_from_db disk block height action is_best work batch c
            ≡ (failed problem, d)
          → Calls d e
          → Calls c e

    -- Read-only mode always comes with a flag that was left behind, and the lock is free: calls that
    -- come back keep it so.
    pub Calls-IsSettled : {c d : Chain x} → Calls c d → IsSettled c → IsSettled d
    Calls-IsSettled no_more s = s
    Calls-IsSettled {c} (applied disk block height action is_best work batch h rest) (r, l) =
        let (clear, cleared, free, same) =
          apply_block_action-done disk block height action is_best work batch c h in
        Calls-IsSettled rest ((λ on. ground (arith, r (sym same ∙ on))), free)
    Calls-IsSettled {c} (refused disk block height action is_best work batch h rest) s =
        let (pending, free) =
          apply_block_action-failed disk block height action is_best work batch c s h in
        Calls-IsSettled rest ((λ on. pending), free)

    -- A call that finds the flag set.
    apply_block_action-IsPending :
        (disk : Disk) (block : Block) (height : ℕ) (action : Action) (is_best : Bool) (work : ℕ)
        (batch : List WriteOp) (c : Chain x)
        → IsPending c
        → c.state_lock ≡ false
        → apply_block_action x load_supply_from_db disk block height action is_best work batch c
          ≡ (failed (anyhow "Batch pending, cannot apply action"), c)
    unfolding apply_block_action
    apply_block_action-IsPending disk block height action is_best work batch c p l = ground arith

    Calls-IsPending : {c d : Chain x} → Calls c d → IsPending c → c.state_lock ≡ false → d ≡ c
    Calls-IsPending no_more p l = refl
    Calls-IsPending {c} (applied disk block height action is_best work batch h rest) p l =
        ground (arith, apply_block_action-done disk block height action is_best work batch c h)
    Calls-IsPending {c} (refused disk block height action is_best work batch h rest) p l =
        let same =
          ap (λ r. r.1)
            (sym h
              ∙ apply_block_action-IsPending disk block height action is_best work batch c p l) in
        Calls-IsPending rest (rw same p) (rw same l) ∙ same

    -- Once a call has failed, from a chain whose lock is free and whose read-only mode comes with the
    -- flag, calls that come back change nothing any more, and the next call fails as well, with
    -- whatever block, action and disk.
    pub apply_block_action_refuses_for_ever :
        (disk : Disk) (block : Block) (height : ℕ) (action : Action) (is_best : Bool) (work : ℕ)
        (batch : List WriteOp) (c d e : Chain x) {problem : ChainError}
        → IsSettled c
        → apply_block_action x load_supply_from_db disk block height action is_best work batch c
          ≡ (failed problem, d)
        → Calls d e
        → (disk' : Disk) (block' : Block) (height' : ℕ) (action' : Action) (is_best' : Bool)
          (work' : ℕ) (batch' : List WriteOp)
        → (e ≡ d)
          × (apply_block_action x load_supply_from_db disk' block' height' action' is_best' work'
                batch' d
              ≡ (failed (anyhow "Batch pending, cannot apply action"), d))
    apply_block_action_refuses_for_ever disk block height action is_best work batch c d e s h calls
          disk' block' height' action' is_best' work' batch' =
        let (p, l) = apply_block_action-failed disk block height action is_best work batch c s h in
        (
          Calls-IsPending calls p l,
          apply_block_action-IsPending disk' block' height' action' is_best' work' batch' d p l,
        )
