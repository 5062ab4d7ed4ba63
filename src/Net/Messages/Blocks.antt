-- ===== src/Net/Messages/Blocks.antt =====
-- 111/src/net.rs `handle_message`, messages of a block and of headers: what becomes of the chain.
use abc.Bytes.{Bytes, to_le_bytes}
use abc.Chain.{Chain, Disk}
use abc.Chain.Add.{add_block}
use abc.Chain.Add.Joined.{IsJoined, add_block-IsJoined, add_block-kept}
use abc.Errors.{Result}
use abc.External.{External}
use abc.Methods.{Outcome, done, failed, crashed, blocked, proceed, call, ◌>>=◌, pure}
use abc.Net.{Clock, PmMethod, PeerManager, broadcast}
use abc.Net.Messages.{release, with_both, take_block, handle_block}
use abc.Net.Outside.{Wire}
use abc.Prelude.{
  drop, Option-cases, inl, inr, Bool-cases, ℕ, ◌≡◌, refl, sym, ap, ◌∙◌, Bool, true, false, Option,
  ◌++◌, arith, if◌then◌else◌,
}
use abc.Tx.{header_hash}
use abc.Types.{Hash, Block}

module _ (x : External) (w : Wire) (clock : Clock) (load_supply_from_db : x.Db → Result ℕ)
    (disk : Disk) (checkpoint_hashes : ℕ → Option Hash) where
  take_block_from :
      (r : Outcome Bool × Chain x) (block : Block) (pm pm' : PeerManager x)
      → add_block x load_supply_from_db disk clock.instant clock.unix_ms checkpoint_hashes block
          pm.chain
        ≡ r
      → pm.chain.mempool_lock ≡ true
      → proceed {A = Bool}
          (r.0, record pm { chain = r.1 })
          (λ joined.
            if joined
            then call (header_hash x block.header)
              >>= (λ hash. broadcast x (to_le_bytes 4 2 ++ hash))
            else pure tt)
        ≡ (done tt, pm')
      → pm' ≡ record pm {
        chain = record (pm.chain) { orphan_blocks = pm'.chain.orphan_blocks; state_lock = false };
      }
  unfolding IsJoined
  take_block_from (done true, d) block pm pm' h l e =
      let (state, tip, wait, free, own, found) =
        add_block-IsJoined x load_supply_from_db disk clock.instant clock.unix_ms checkpoint_hashes
          block pm.chain d h in
      cc (l, free)
  take_block_from (done false, d) block pm pm' h l e =
      let kept =
        add_block-kept x load_supply_from_db disk clock.instant clock.unix_ms checkpoint_hashes
          block pm.chain d h in
      let same : record pm { chain = d } ≡ pm' = ap (λ r. r.1) e in
      sym same
      ∙ ap (λ c. record pm { chain = c }) kept
      ∙ ap {A = PeerManager x}
          (λ z. record pm {
            chain = record (pm.chain) { orphan_blocks = z.chain.orphan_blocks; state_lock = false };
          })
          same
  take_block_from (failed problem, d) block pm pm' h l e = cc (ap (λ r. r.0) e)
  take_block_from (crashed, d) block pm pm' h l e = cc (ap (λ r. r.0) e)
  take_block_from (blocked, d) block pm pm' h l e = cc (ap (λ r. r.0) e)

  take_block-kept :
      (block : Block) (pm pm' : PeerManager x)
      → pm.chain.mempool_lock ≡ true
      → take_block x w clock load_supply_from_db disk checkpoint_hashes block pm ≡ (done tt, pm')
      → pm' ≡ record pm {
        chain = record (pm.chain) { orphan_blocks = pm'.chain.orphan_blocks; state_lock = false };
      }
  unfolding take_block
  take_block-kept block pm pm' l e =
      take_block_from
        (add_block x load_supply_from_db disk clock.instant clock.unix_ms checkpoint_hashes block
          pm.chain)
        block pm pm' refl l e

  release-done :
      (r : Outcome (Unit {0}) × PeerManager x) (pm' : PeerManager x)
      → release x r ≡ (done tt, pm')
      → (z : PeerManager x) × (r ≡ (done tt, z))
        × (pm' ≡ record z { chain_lock = false; chain = record (z.chain) { mempool_lock = false } })
  release-done (done u, z) pm' e = (z, refl, sym (ap (λ p. p.1) e))
  release-done (failed b, z) pm' e = cc (ap (λ p. p.0) e)
  release-done (crashed, z) pm' e = cc (ap (λ p. p.0) e)
  release-done (blocked, z) pm' e = cc (ap (λ p. p.0) e)

  with_both-done :
      (m : PmMethod x (Unit {0})) (pm pm' : PeerManager x)
      → with_both x m pm ≡ (done tt, pm')
      → let locked = record pm {
        chain_lock = true;
        chain = record (pm.chain) { mempool_lock = true };
      } in
        (z : PeerManager x) × (m locked ≡ (done tt, z))
        × (pm' ≡ record z { chain_lock = false; chain = record (z.chain) { mempool_lock = false } })
  with_both-done m pm pm' e =
      let locked = record pm {
        chain_lock = true;
        chain = record (pm.chain) { mempool_lock = true };
      } in
      elim (Bool-cases pm.chain_lock) [
        | inl held ↦ cc (ap (λ r. r.0) (rw held at e))
        | inr free ↦ elim (Bool-cases pm.chain.mempool_lock) [
          | inl held ↦ cc (ap (λ r. r.0) (rw (free, held) at e))
          | inr open_pool ↦ release-done (m locked) pm' (rw (free, open_pool) at e)
        ]
      ]

  unlocked-kept :
      (pm z pm' : PeerManager x)
      → z ≡ record pm {
        chain_lock = true;
        chain = record (pm.chain) {
          orphan_blocks = z.chain.orphan_blocks;
          state_lock = false;
          mempool_lock = true;
        };
      }
      → pm' ≡ record z { chain_lock = false; chain = record (z.chain) { mempool_lock = false } }
      → pm' ≡ record pm {
        chain = record (pm.chain) {
          orphan_blocks = pm'.chain.orphan_blocks;
          state_lock = false;
          mempool_lock = false;
        };
        chain_lock = false;
      }
  unlocked-kept pm z pm' kept same =
      let unlocked : PeerManager x → PeerManager x =
        λ y. record y { chain_lock = false; chain = record (y.chain) { mempool_lock = false } } in
      same
      ∙ ap unlocked kept
      ∙ ap
          (λ o. record pm {
            chain = record (pm.chain) {
              orphan_blocks = o;
              state_lock = false;
              mempool_lock = false;
            };
            chain_lock = false;
          })
          (sym (ap (λ y. y.chain.orphan_blocks) same))

  -- A block that a peer sends never joins the chain: when its message has been handled, nothing was
  -- sent, and of the chain only the orphans may have changed.
  pub handle_block-kept :
      (msg : Bytes) (pm pm' : PeerManager x)
      → handle_block x w clock load_supply_from_db disk checkpoint_hashes msg pm ≡ (done tt, pm')
      → pm' ≡ record pm {
        chain = record (pm.chain) {
          orphan_blocks = pm'.chain.orphan_blocks;
          state_lock = false;
          mempool_lock = false;
        };
        chain_lock = false;
      }
  unfolding handle_block
  handle_block-kept msg pm pm' e = elim (Option-cases (x.deserialize_block (drop 4 msg))) [
    | inl unread ↦ ground (arith, e, unread)
    | inr (block, read) ↦
        let e' : with_both x (take_block x w clock load_supply_from_db disk checkpoint_hashes block)
              pm
            ≡ (done tt, pm') =
          rw read at e in
        let (z, back, same) =
          with_both-done (take_block x w clock load_supply_from_db disk checkpoint_hashes block) pm
            pm' e' in
        let locked = record pm {
          chain_lock = true;
          chain = record (pm.chain) { mempool_lock = true };
        } in
        let kept = take_block-kept block locked z refl back in unlocked-kept pm z pm' kept same
  ]
