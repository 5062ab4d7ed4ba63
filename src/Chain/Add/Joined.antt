-- ===== src/Chain/Add/Joined.antt =====
-- 111/src/chain.rs `add_block`: the two ways in which it comes back, and the child of a block that
-- has joined.
use abc.Chain.{Chain, Disk, unlock, Bool, with_lock}
use abc.Chain.Add.{
  add_block_with, add_under, add_orphan, retain_orphans, bound_orphans, add_locked, add_block,
}
use abc.Chain.Add.Child.{add_child-done, wait_for}
use abc.Chain.Add.Nested.{add_block-blocked}
use abc.Methods.{crashed, blocked, failed, Outcome, Method, done}
use abc.Errors.{ok_injective, err, panicked, Result, ok}
use abc.External.{External}
use abc.Maps.{is_some-eq-false, insert_key, find_key, is_some}
use abc.Prelude.{
  Bool-cases, inl, inr, ◌∙◌, sym, ap, ℕ, ◌+◌, ◌%◌, ◌≡◌, refl, true, false, Option, none, some,
  arith,
}
use abc.Tx.{header_hash}
use abc.Types.{Hash, Block}
use abc.Utils.Checked.{u64_mod}

module _ (x : External) (load_supply_from_db : x.Db → Result ℕ) (disk : Disk) (now : ℕ) (now_ms : ℕ)
    (checkpoint_hashes : ℕ → Option Hash) where
  -- What is in the maps of a chain after a block joined.
  unfoldable pub IsJoined : Block → Chain x → Chain x → Type 0
  IsJoined block c d =
      (d.state ≡ c.state)
      × (d.best_tip ≡ c.best_tip)
      × (wait_for (retain_orphans now c.orphan_blocks) ≡ done tt)
      × (c.mempool_lock ≡ false)
      × ((hash : Hash) × (header_hash x block.header ≡ ok hash)
          × (is_some (find_key hash c.state.hash_to_height) ≡ false))
      × ((h : ℕ) × (find_key block.header.prev_hash c.state.hash_to_height ≡ some h)
          × (d.best_height ≡ (h + 1) % u64_mod))

  add_under-true :
      (hash : Hash) (block : Block) (c c' : Chain x) (parent : Option ℕ)
      → c.state_lock ≡ true
      → add_under x load_supply_from_db disk now now_ms checkpoint_hashes
          (add_block_with x load_supply_from_db disk now now_ms checkpoint_hashes 1)
          hash
          block
          parent
          c
        ≡ (done true, c')
      → (c'.state ≡ c.state)
        × (c'.best_tip ≡ c.best_tip)
        × (wait_for (retain_orphans now c.orphan_blocks) ≡ done tt)
        × (c.mempool_lock ≡ false)
        × ((h : ℕ) × (parent ≡ some h) × (c'.best_height ≡ (h + 1) % u64_mod))
  unfolding add_under add_orphan
  add_under-true hash block c c' none l e = cc
  add_under-true hash block c c' (some h) l e =
      let (t, s, tip, best, wait, free) =
        add_child-done x load_supply_from_db disk now now_ms checkpoint_hashes
          (add_block_with x load_supply_from_db disk now now_ms checkpoint_hashes 1)
          (λ d l' b.
            add_block-blocked x load_supply_from_db disk now now_ms checkpoint_hashes 0 b d l')
          block h c c' l e in
      (s, tip, wait, free, (h, refl, best))

  add_under-false :
      (hash : Hash) (block : Block) (c c' : Chain x) (parent : Option ℕ)
      → c.state_lock ≡ true
      → add_under x load_supply_from_db disk now now_ms checkpoint_hashes
          (add_block_with x load_supply_from_db disk now now_ms checkpoint_hashes 1)
          hash
          block
          parent
          c
        ≡ (done false, c')
      → (parent ≡ none)
        × (c' ≡ record c {
          orphan_blocks =
              bound_orphans
                (insert_key hash (record { block = block; time = now }) c.orphan_blocks);
        })
  unfolding add_under add_orphan
  add_under-false hash block c c' none l e = (refl, sym (ap (λ r. r.1) e))
  add_under-false hash block c c' (some h) l e =
      let (t, state, tip, best, wait, free) =
        add_child-done x load_supply_from_db disk now now_ms checkpoint_hashes
          (add_block_with x load_supply_from_db disk now now_ms checkpoint_hashes 1)
          (λ d l' b.
            add_block-blocked x load_supply_from_db disk now now_ms checkpoint_hashes 0 b d l')
          block h c c' l e in
      cc t

  IsJoined-from :
      (r : Result Hash) (block : Block) (c c' : Chain x)
      → header_hash x block.header ≡ r
      → c.state_lock ≡ true
      → add_locked x load_supply_from_db disk now now_ms checkpoint_hashes
          (add_block_with x load_supply_from_db disk now now_ms checkpoint_hashes 1)
          block
          c
        ≡ (done true, c')
      → IsJoined block c c'
  unfolding add_locked IsJoined
  IsJoined-from (ok hash) block c c' h l e =
      let parent = find_key block.header.prev_hash c.state.hash_to_height in
      let (s, tip, wait, free, found) =
        add_under-true hash block c c' parent l (ground (arith, e, h)) in
      (s, tip, wait, free, (hash, h, ground (arith, e, h)), found)
  IsJoined-from (err problem) block c c' h l e = ground (arith, e, h)
  IsJoined-from panicked block c c' h l e = ground (arith, e, h)

  unlock-done :
      {A : Type 0} (r : Outcome A × Chain x) (c' : Chain x) {a : A}
      → unlock x r ≡ (done a, c')
      → (r.0 ≡ done a) × (c' ≡ record (r.1) { state_lock = false })
  unlock-done (done b, d) c' e = (ap (λ p. p.0) e, sym (ap (λ p. p.1) e))
  unlock-done (failed b, d) c' e = cc (ap (λ p. p.0) e)
  unlock-done (crashed, d) c' e = cc (ap (λ p. p.0) e)
  unlock-done (blocked, d) c' e = cc (ap (λ p. p.0) e)

  with_lock-done :
      {A : Type 0} (method : Method (Chain x) A) (c c' : Chain x) {a : A} (held : Bool)
      → c.state_lock ≡ held
      → with_lock x method c ≡ (done a, c')
      → (d : Chain x) × (method (record c { state_lock = true }) ≡ (done a, d))
        × (c' ≡ record d { state_lock = false })
  with_lock-done method c c' true h e = cc (ap (λ p. p.0) (rw h at e))
  with_lock-done method c c' false h e =
      let r = method (record c { state_lock = true }) in
      let (back, same) = unlock-done r c' (rw h at e) in (r.1, ap (λ o. (o, r.1)) back, same)

  -- A block that joined the chain: no orphan was waiting, the lock of the pool was
  -- free, its hash was not known and its parent was,
  -- the height follows the parent, and neither the tip nor the maps in memory change.
  pub add_block-IsJoined :
      (block : Block) (c c' : Chain x)
      → add_block x load_supply_from_db disk now now_ms checkpoint_hashes block c ≡ (done true, c')
      → IsJoined block c c'
  unfolding add_block add_block_with IsJoined
  add_block-IsJoined block c c' e =
      let (d, e', same) =
        with_lock-done
          (add_locked x load_supply_from_db disk now now_ms checkpoint_hashes
            (add_block_with x load_supply_from_db disk now now_ms checkpoint_hashes 1) block)
          c c' c.state_lock refl e in
      rw same (
        IsJoined-from (header_hash x block.header) block (record c { state_lock = true }) d refl
          refl e')

  add_block-unlocked :
      (block : Block) (c c' : Chain x) {joined : Bool}
      → add_block x load_supply_from_db disk now now_ms checkpoint_hashes block c
        ≡ (done joined, c')
      → c'.state_lock ≡ false
  unfolding add_block add_block_with
  add_block-unlocked block c c' e =
      let (d, e', same) =
        with_lock-done
          (add_locked x load_supply_from_db disk now now_ms checkpoint_hashes
            (add_block_with x load_supply_from_db disk now now_ms checkpoint_hashes 1) block)
          c c' c.state_lock refl e in
      ap (λ z. z.state_lock) same

  -- A block whose hash and whose parent's are not known.
  add_block-orphan :
      (child : Block) (hash : Hash) (c : Chain x)
      → c.state_lock ≡ false
      → header_hash x child.header ≡ ok hash
      → find_key hash c.state.hash_to_height ≡ none
      → find_key child.header.prev_hash c.state.hash_to_height ≡ none
      → add_block x load_supply_from_db disk now now_ms checkpoint_hashes child c ≡ (
        done false,
        record c {
          orphan_blocks =
              bound_orphans
                (insert_key hash (record { block = child; time = now }) c.orphan_blocks);
        },
      )
  unfolding add_block add_block_with add_locked add_under add_orphan
  add_block-orphan child hash c l h unknown parent = ground (arith, l, h, unknown, parent)

  -- The child of a block that has just joined the chain is put among the orphans, unless its own hash
  -- is known.
  pub add_block-child :
      (block child : Block) (hash hash' : Hash) (c d : Chain x)
      → add_block x load_supply_from_db disk now now_ms checkpoint_hashes block c ≡ (done true, d)
      → header_hash x block.header ≡ ok hash
      → child.header.prev_hash ≡ hash
      → header_hash x child.header ≡ ok hash'
      → find_key hash' c.state.hash_to_height ≡ none
      → add_block x load_supply_from_db disk now now_ms checkpoint_hashes child d ≡ (
        done false,
        record d {
          orphan_blocks =
              bound_orphans
                (insert_key hash' (record { block = child; time = now }) d.orphan_blocks);
        },
      )
  unfolding IsJoined
  add_block-child block child hash hash' c d e h p h' unknown =
      let (same, tip, wait, free, (own, k, none_known), found) = add_block-IsJoined block c d e in
      let own_hash = ok_injective (sym k ∙ h) in
      add_block-orphan child hash' d (add_block-unlocked block c d e) h' (rw (same, unknown) refl)
        (rw (same, p, ← own_hash) (is_some-eq-false none_known))

  kept_from :
      (r : Result Hash) (block : Block) (c c' : Chain x)
      → header_hash x block.header ≡ r
      → c.state_lock ≡ true
      → add_locked x load_supply_from_db disk now now_ms checkpoint_hashes
          (add_block_with x load_supply_from_db disk now now_ms checkpoint_hashes 1)
          block
          c
        ≡ (done false, c')
      → c' ≡ record c { orphan_blocks = c'.orphan_blocks }
  unfolding add_locked
  kept_from (ok hash) block c c' h l e =
      elim (Bool-cases (is_some (find_key hash c.state.hash_to_height))) [
        | inl known ↦ ground (arith, e, h)
        | inr unknown ↦
            let parent = find_key block.header.prev_hash c.state.hash_to_height in
            let (unseen, same) = add_under-false hash block c c' parent l (ground (arith, e, h)) in
            same ∙ ap (λ o. record c { orphan_blocks = o }) (sym (ap (λ z. z.orphan_blocks) same))
      ]
  kept_from (err problem) block c c' h l e = ground (arith, e, h)
  kept_from panicked block c c' h l e = ground (arith, e, h)

  -- When `add_block` comes back with false, the orphans are all that may have changed.
  pub add_block-kept :
      (block : Block) (c c' : Chain x)
      → add_block x load_supply_from_db disk now now_ms checkpoint_hashes block c ≡ (done false, c')
      → c' ≡ record c { orphan_blocks = c'.orphan_blocks; state_lock = false }
  unfolding add_block add_block_with
  add_block-kept block c c' e =
      let (d, e', same) =
        with_lock-done
          (add_locked x load_supply_from_db disk now now_ms checkpoint_hashes
            (add_block_with x load_supply_from_db disk now now_ms checkpoint_hashes 1) block)
          c c' c.state_lock refl e in
      let kept =
        kept_from (header_hash x block.header) block (record c { state_lock = true }) d refl refl
          e' in
      same
      ∙ ap {A = Chain x} (λ z. record z { state_lock = false }) kept
      ∙ ap (λ o. record c { orphan_blocks = o; state_lock = false })
          (sym (ap (λ z. z.orphan_blocks) same))
