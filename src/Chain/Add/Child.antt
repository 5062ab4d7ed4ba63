-- ===== src/Chain/Add/Child.antt =====
-- 111/src/chain.rs `add_block`, when it comes back: what it did, and what becomes of the next block.
use abc.Bytes.{Bytes}
use abc.Chain.{Chain, Disk, Orphan, Bool, false}
use abc.Chain.Add.{
  finish, bound_orphans, drain, retain_orphans, oldest, process_orphans_with, process_rounds,
  insert_all, take_side, add_child,
}
use abc.Chain.Add.Nested.{process_rounds-Waits, apply_block_action-blocked, take_side-lock}
use abc.Chain.Checks.{validate_state}
use abc.Chain.Journal.{reorganize}
use abc.Methods.{change, Outcome, Method, blocked, done, proceed}
use abc.Errors.{Result}
use abc.External.{External}
use abc.Maps.{erase_key}
use abc.Prelude.{
  sym, ap, ◌∙◌, refl, ℕ, suc, ◌+◌, ◌≤◌, ◌≡◌, true, Option, List, [], ◌∷◌, length, arith, ◌%◌,
}
use abc.Types.{Hash, Block}
use abc.Utils.Checked.{u64_mod}

length-erase_key :
    {V : Type 0} (k : Hash) (m : List (Hash × V)) → length m ≤ length (erase_key k m) + 1
unfolding erase_key
length-erase_key k [] = omega arith
length-erase_key k ((h, v) ∷ m) = ground (arith, length-erase_key k m)

-- What comes of adding these orphans while the lock is held.
pub wait_for : {A : Type 0} → List A → Outcome (Unit {0})
wait_for [] = done tt
wait_for (o ∷ os) = blocked

wait_for-drain : (os : List (Hash × Orphan)) → wait_for (drain os) ≡ wait_for os
unfolding drain wait_for
wait_for-drain [] = refl
wait_for-drain ((h, o) ∷ os) = refl

wait_for-some : {A : Type 0} (os : List A) → 1 ≤ length os → wait_for os ≡ blocked
unfolding wait_for
wait_for-some [] h = ground arith
wait_for-some (o ∷ os) h = refl

bound_orphans-some :
    (h : Hash) (o : Orphan) (os : List (Hash × Orphan)) → 1 ≤ length (bound_orphans ((h, o) ∷ os))
unfolding bound_orphans
bound_orphans-some h o os = ground (arith, length-erase_key (oldest h o.time os) ((h, o) ∷ os))

wait_for-bound_orphans : (os : List (Hash × Orphan)) → wait_for (bound_orphans os) ≡ wait_for os
unfolding bound_orphans
wait_for-bound_orphans [] = refl
wait_for-bound_orphans ((h, o) ∷ os) =
    wait_for-some (bound_orphans ((h, o) ∷ os)) (bound_orphans-some h o os)
    ∙ sym (wait_for-some ((h, o) ∷ os) (omega arith))

module _ (x : External) (load_supply_from_db : x.Db → Result ℕ) (disk : Disk) (now : ℕ) (now_ms : ℕ)
    (checkpoint_hashes : ℕ → Option Hash) where
  module _ (add : Block → Method (Chain x) Bool)
      (w : (c : Chain x) → c.state_lock ≡ true → (block : Block) → add block c ≡ (blocked, c)) where
    process_rounds-locked :
        (n : ℕ) (os : List (Hash × Block)) (c : Chain x)
        → c.state_lock ≡ true
        → proceed
            (process_rounds x add (suc n) os (record c { orphan_blocks = [] }))
            (λ left. change (λ d. record d { orphan_blocks = insert_all now left d.orphan_blocks }))
          ≡ (wait_for os, record c { orphan_blocks = [] })
    unfolding wait_for insert_all
    process_rounds-locked n [] c h =
        let d = record c { orphan_blocks = [] } in
        rw
          (process_rounds-Waits x load_supply_from_db disk now now_ms checkpoint_hashes add n d []
            (w d h))
          refl
    process_rounds-locked n (o ∷ os) c h =
        let d = record c { orphan_blocks = [] } in
        rw
          (process_rounds-Waits x load_supply_from_db disk now now_ms checkpoint_hashes add n d
            (o ∷ os) (w d h))
          refl

    process_orphans-locked :
        (c : Chain x)
        → c.state_lock ≡ true
        → process_orphans_with x add now c
          ≡ (wait_for (retain_orphans now c.orphan_blocks), record c { orphan_blocks = [] })
    unfolding process_orphans_with
    process_orphans-locked c h =
        let os = retain_orphans now c.orphan_blocks in
        process_rounds-locked 499 (drain (bound_orphans os)) c h
        ∙ ap (λ o. (o, record c { orphan_blocks = [] }))
            (wait_for-drain (bound_orphans os) ∙ wait_for-bound_orphans os)

    finish-done :
        (block : Block) (height : ℕ) (c c' : Chain x)
        → c.state_lock ≡ true
        → finish x load_supply_from_db disk now now_ms checkpoint_hashes add block height c
          ≡ (done tt, c')
        → (c'.state ≡ c.state)
          × (c'.best_height ≡ c.best_height)
          × (c'.best_tip ≡ c.best_tip)
          × (wait_for (retain_orphans now c.orphan_blocks) ≡ done tt)
          × (c.mempool_lock ≡ false)
    unfolding finish validate_state
    finish-done block height c c' h e = grind (arith, process_orphans-locked)

  reorganize-done :
      (journal_id : Bytes) (block : Block) (prev_height height : ℕ) (c c' : Chain x)
      → reorganize x disk journal_id block prev_height height c ≡ (done tt, c')
      → (c'.state ≡ c.state)
        × (c'.best_height ≡ height)
        × (c'.best_tip ≡ c.best_tip)
        × (c'.orphan_blocks ≡ c.orphan_blocks)
        × (c'.mempool_lock ≡ c.mempool_lock)
  unfolding reorganize
  reorganize-done journal_id block prev_height height c c' e = ground arith

  take_side-done :
      (block : Block) (prev_height height : ℕ) (c c' : Chain x) {reorg : Bool}
      → c.state_lock ≡ true
      → take_side x load_supply_from_db disk now now_ms checkpoint_hashes block prev_height height c
        ≡ (done reorg, c')
      → (reorg ≡ true)
        × (c'.state ≡ c.state)
        × (c'.best_height ≡ height)
        × (c'.best_tip ≡ c.best_tip)
        × (c'.orphan_blocks ≡ c.orphan_blocks)
        × (c'.mempool_lock ≡ c.mempool_lock)
  unfolding take_side
  take_side-done block prev_height height c c' h e =
      let reorganized = reorganize x disk (x.to_string now_ms) block prev_height height c in
      let changed = reorganize-done (x.to_string now_ms) block prev_height height c reorganized.1 in
      grind (
        arith,
        changed,
        apply_block_action-blocked x load_supply_from_db disk now now_ms checkpoint_hashes,
      )

  module _ (add : Block → Method (Chain x) Bool)
      (w : (c : Chain x) → c.state_lock ≡ true → (block : Block) → add block c ≡ (blocked, c)) where
    pub add_child-done :
        (block : Block) (prev_height : ℕ) (c c' : Chain x) {reorg : Bool}
        → c.state_lock ≡ true
        → add_child x load_supply_from_db disk now now_ms checkpoint_hashes add block prev_height c
          ≡ (done reorg, c')
        → (reorg ≡ true)
          × (c'.state ≡ c.state)
          × (c'.best_tip ≡ c.best_tip)
          × (c'.best_height ≡ (prev_height + 1) % u64_mod)
          × (wait_for (retain_orphans now c.orphan_blocks) ≡ done tt)
          × (c.mempool_lock ≡ false)
    unfolding add_child
    add_child-done block prev_height c c' h e =
        let height = (prev_height + 1) % u64_mod in
        let side =
          take_side x load_supply_from_db disk now now_ms checkpoint_hashes block prev_height height
            c in
        let joined = take_side-done block prev_height height c side.1 {reorg = true} h in
        let beside = take_side-done block prev_height height c side.1 {reorg = false} h in
        let locked =
          take_side-lock x load_supply_from_db disk now now_ms checkpoint_hashes block prev_height
            height c h in
        let finished =
          finish-done add w block height side.1
            (finish x load_supply_from_db disk now now_ms checkpoint_hashes add block height
              side.1).1
            locked in
        ground (arith, joined, beside, finished)
