-- ===== src/Chain/Add/Nested.antt =====
-- 111/src/chain.rs `add_block` inside of `add_block`: the lock is held, so the inner call waits for
-- ever, and so does every block that does not make a better chain.
use abc.Bytes.{Bytes}
use abc.Chain.{Chain, Disk, apply_block_action}
use abc.Chain.Add.{
  add_block_with, process_pass, process_rounds, process_orphans_with, finish, drain, bound_orphans,
  retain_orphans, take_side, add_block, add_child, add_locked, add_under,
}
use abc.Chain.Journal.{reorganize}
use abc.Methods.{call, Method, done, blocked, proceed-cong}
use abc.Errors.{Result}
use abc.External.{WriteOp, External}
use abc.Maps.{find_key}
use abc.Prelude.{some, none, refl, List, [], ◌∷◌, Bool, ℕ, suc, ◌≡◌, true, Option, arith}
use abc.Tx.{header_hash}
use abc.Types.{Hash, Block}
use abc.Utxo.{Action}

module _ (x : External) (load_supply_from_db : x.Db → Result ℕ) (disk : Disk) (now : ℕ) (now_ms : ℕ)
    (checkpoint_hashes : ℕ → Option Hash) where
  abbrev pub IsLocked : Chain x → Type 0
  IsLocked c = c.state_lock ≡ true

  pub add_block-blocked :
      (f : ℕ) (block : Block) (c : Chain x)
      → IsLocked c
      → add_block_with x load_supply_from_db disk now now_ms checkpoint_hashes (suc f) block c
        ≡ (blocked, c)
  unfolding add_block_with
  add_block-blocked f block c h = ground arith

  -- Calls that wait for ever.
  abbrev pub Waits : (Block → Method (Chain x) Bool) → Chain x → Type 0
  Waits add c = (block : Block) → add block c ≡ (blocked, c)

  process_pass-Waits :
      (add : Block → Method (Chain x) Bool) (c : Chain x) (o : Hash × Block)
      (os : List (Hash × Block))
      → Waits add c
      → process_pass x add (o ∷ os) c ≡ (blocked, c)
  unfolding process_pass
  process_pass-Waits add c (hash, block) os w = rw (w block) refl

  pub process_rounds-Waits :
      (add : Block → Method (Chain x) Bool) (n : ℕ) (c : Chain x) (os : List (Hash × Block))
      → Waits add c
      → process_rounds x add (suc n) os c ≡ elim os [ [] ↦ (done [], c) | o ∷ os' ↦ (blocked, c) ]
  unfolding process_rounds
  process_rounds-Waits add n c [] w = refl
  process_rounds-Waits add n c (o ∷ os) w = rw (process_pass-Waits add c o os w) refl

  pub reorganize-lock :
      (journal_id : Bytes) (block : Block) (prev_height height : ℕ) (c : Chain x)
      → (reorganize x disk journal_id block prev_height height c).1.state_lock ≡ c.state_lock
  unfolding reorganize
  reorganize-lock journal_id block prev_height height c = ground arith

  pub apply_block_action-blocked :
      (block : Block) (height : ℕ) (action : Action) (is_best : Bool) (work : ℕ)
      (batch : List WriteOp) (c : Chain x)
      → IsLocked c
      → apply_block_action x load_supply_from_db disk block height action is_best work batch c
        ≡ (blocked, c)
  unfolding apply_block_action
  apply_block_action-blocked block height action is_best work batch c h = ground arith

  pub take_side-lock :
      (block : Block) (prev_height height : ℕ) (c : Chain x)
      → IsLocked c
      → IsLocked
          (take_side x load_supply_from_db disk now now_ms checkpoint_hashes block prev_height
            height c).1
  unfolding take_side
  take_side-lock block prev_height height c h =
      grind (arith, reorganize-lock, apply_block_action-blocked)

  -- Two ways to add that both wait for ever whenever the lock is held.
  module _ (add add' : Block → Method (Chain x) Bool) (w : (c : Chain x) → IsLocked c → Waits add c)
      (w' : (c : Chain x) → IsLocked c → Waits add' c) where
    process_orphans-Waits :
        (c : Chain x)
        → IsLocked c
        → process_orphans_with x add now c ≡ process_orphans_with x add' now c
    unfolding process_orphans_with
    process_orphans-Waits c h =
        let d = record c { orphan_blocks = [] } in
        let os = drain (bound_orphans (retain_orphans now c.orphan_blocks)) in
        rw (process_rounds-Waits add 499 d os (w d h), process_rounds-Waits add' 499 d os (w' d h))
          refl

    finish-Waits :
        (block : Block) (height : ℕ) (c : Chain x)
        → IsLocked c
        → finish x load_supply_from_db disk now now_ms checkpoint_hashes add block height c
          ≡ finish x load_supply_from_db disk now now_ms checkpoint_hashes add' block height c
    unfolding finish
    finish-Waits block height c h = grind (arith, process_orphans-Waits)

    add_child-Waits :
        (block : Block) (prev_height : ℕ) (c : Chain x)
        → IsLocked c
        → add_child x load_supply_from_db disk now now_ms checkpoint_hashes add block prev_height c
          ≡ add_child x load_supply_from_db disk now now_ms checkpoint_hashes add' block prev_height
              c
    unfolding add_child
    add_child-Waits block prev_height c h = grind (arith, finish-Waits, take_side-lock)

    add_under-Waits :
        (hash : Hash) (block : Block) (parent : Option ℕ) (c : Chain x)
        → IsLocked c
        → add_under x load_supply_from_db disk now now_ms checkpoint_hashes add hash block parent c
          ≡ add_under x load_supply_from_db disk now now_ms checkpoint_hashes add' hash block parent
              c
    unfolding add_under
    add_under-Waits hash block none c h = refl
    add_under-Waits hash block (some prev_height) c h = add_child-Waits block prev_height c h

    add_locked-Waits :
        (block : Block) (c : Chain x)
        → IsLocked c
        → add_locked x load_supply_from_db disk now now_ms checkpoint_hashes add block c
          ≡ add_locked x load_supply_from_db disk now now_ms checkpoint_hashes add' block c
    unfolding add_locked
    add_locked-Waits block c h =
        proceed-cong IsLocked (call (header_hash x block.header) c) _ _ h (λ hash s p.
          let parent = find_key block.header.prev_hash s.state.hash_to_height in
          ground (arith, add_under-Waits hash block parent s p))

  -- The lock stops the second call of the nest: any more fuel than that of `add_block` gives the same.
  pub add_block_with-fuel :
      (f : ℕ) (block : Block) (c : Chain x)
      → add_block_with x load_supply_from_db disk now now_ms checkpoint_hashes (suc (suc f)) block c
        ≡ add_block x load_supply_from_db disk now now_ms checkpoint_hashes block c
  unfolding add_block add_block_with
  add_block_with-fuel f block c =
      let same =
        add_locked-Waits
          (add_block_with x load_supply_from_db disk now now_ms checkpoint_hashes (suc f))
          (add_block_with x load_supply_from_db disk now now_ms checkpoint_hashes 1)
          (λ d h b. add_block-blocked f b d h) (λ d h b. add_block-blocked 0 b d h) block
          (record c { state_lock = true }) refl in
      ground arith
