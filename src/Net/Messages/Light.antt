-- ===== src/Net/Messages/Light.antt =====
-- 111/src/chain.rs `add_block` on a block without transactions, as 111/src/net.rs makes one of a
-- header.
use abc.BlockValidation.{validate_block}
use abc.BlockValidation.Accepted.{validate_block-ok}
use abc.Chain.{Chain, Disk, unlock}
use abc.Chain.Add.{add_block, add_block_with, add_locked, add_under, add_child, add_orphan}
use abc.Errors.{Result, ok, err, panicked}
use abc.External.{External}
use abc.Maps.{find_key, is_some}
use abc.Methods.{Outcome, done, failed, crashed, blocked}
use abc.Net.Messages.{add}
use abc.Prelude.{
  Bool-cases, inl, inr, ℕ, ◌+◌, ◌%◌, ◌≡◌, refl, sym, ap, ◌∙◌, Bool, true, false, Option, none, some,
  [],
}
use abc.Tx.{header_hash}
use abc.Types.{Hash, Block, BlockHeader}
use abc.Utils.Checked.{u64_mod}

-- What a call of the chain left is the same but for the orphans and the lock.
abbrev pub orphans_of : {x : External} → Chain x → Chain x → Chain x
orphans_of c d = record c { orphan_blocks = d.orphan_blocks; state_lock = d.state_lock }

abbrev pub light : BlockHeader → Block
light header = record { header = header; txs = [] }

module _ (x : External) where
  orphans_of-same : (c d : Chain x) → d ≡ c → d ≡ orphans_of c d
  orphans_of-same c d h = h ∙ ap (λ z. orphans_of c z) (sym h)

  validate_light :
      (db : x.Db) (best now : ℕ) (checkpoints : ℕ → Option Hash) (header : BlockHeader) (height : ℕ)
      → validate_block x db best now checkpoints (light header) height ≡ ok tt
      → {A : Type 0} → A
  validate_light db best now checkpoints header height e =
      let (hash, target, p, h, t, w, bits, root, (coinbase, s, v, f, l, pays), c) =
        validate_block-ok x db best now checkpoints (light header) height e in
      cc coinbase

  module _ (load_supply_from_db : x.Db → Result ℕ) (disk : Disk) (now now_ms : ℕ)
      (checkpoint_hashes : ℕ → Option Hash) where
    add_child-light :
        (add : Block → Chain x → Outcome Bool × Chain x) (header : BlockHeader) (h : ℕ)
        (c : Chain x) (r : Result (Unit {0}))
        → validate_block x c.db c.best_height now_ms checkpoint_hashes
            (light header)
            ((h + 1) % u64_mod)
          ≡ r
        → (add_child x load_supply_from_db disk now now_ms checkpoint_hashes add
            (light header)
            h
            c).1
          ≡ c
    unfolding add_child
    add_child-light add header h c (ok u) e =
        validate_light c.db c.best_height now_ms checkpoint_hashes header ((h + 1) % u64_mod) e
    add_child-light add header h c (err problem) e = rw e refl
    add_child-light add header h c panicked e = rw e refl

    module _ (add : Block → Chain x → Outcome Bool × Chain x) (header : BlockHeader)
        (c : Chain x) where
      add_under-light :
          (hash : Hash) (parent : Option ℕ)
          → let d =
              (add_under x load_supply_from_db disk now now_ms checkpoint_hashes add hash
                (light header)
                parent
                c).1 in
            d ≡ orphans_of c d
      unfolding add_under add_orphan
      add_under-light hash none = refl
      add_under-light hash (some h) =
          orphans_of-same c
            (add_child x load_supply_from_db disk now now_ms checkpoint_hashes add (light header) h
              c).1
            (add_child-light add header h c
              (validate_block x c.db c.best_height now_ms checkpoint_hashes (light header)
                ((h + 1) % u64_mod))
              refl)

      add_locked-light :
          (r : Result Hash)
          → header_hash x header ≡ r
          → let d =
              (add_locked x load_supply_from_db disk now now_ms checkpoint_hashes add
                (light header)
                c).1 in
            d ≡ orphans_of c d
      unfolding add_locked
      add_locked-light (ok hash) h =
          let kept = add_under-light hash (find_key header.prev_hash c.state.hash_to_height) in
          elim (Bool-cases (is_some (find_key hash c.state.hash_to_height))) [
            | inl known ↦ rw (h, known) refl
            | inr unknown ↦ rw (h, unknown) kept
          ]
      add_locked-light (err problem) h = rw h refl
      add_locked-light panicked h = rw h refl

    unlock-kept :
        (c : Chain x) (r : Outcome Bool × Chain x)
        → r.1 ≡ orphans_of c r.1
        → (unlock x r).1 ≡ orphans_of c (unlock x r).1
    unlock-kept c (done b, d) h = ap {A = Chain x} (λ z. record z { state_lock = false }) h
    unlock-kept c (failed b, d) h = ap {A = Chain x} (λ z. record z { state_lock = false }) h
    unlock-kept c (crashed, d) h = ap {A = Chain x} (λ z. record z { state_lock = false }) h
    unlock-kept c (blocked, d) h = h

    -- A block of a header alone changes nothing of the chain but the orphans.
    pub add_light-kept :
        (header : BlockHeader) (c : Chain x)
        → let d =
            (add_block x load_supply_from_db disk now now_ms checkpoint_hashes
              (light header)
              c).1 in
          d ≡ orphans_of c d
    unfolding add_block add_block_with
    add_light-kept header c =
        let add = add_block_with x load_supply_from_db disk now now_ms checkpoint_hashes 1 in
        let taken = record c { state_lock = true } in
        let r =
          add_locked x load_supply_from_db disk now now_ms checkpoint_hashes add (light header)
            taken in
        elim (Bool-cases c.state_lock) [
          | inl held ↦ rw held refl
          | inr free ↦
              rw free
                (unlock-kept c r (add_locked-light add header taken (header_hash x header) refl))
        ]
