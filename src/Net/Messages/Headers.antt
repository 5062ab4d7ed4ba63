-- ===== src/Net/Messages/Headers.antt =====
-- 111/src/net.rs `handle_message`, a message of headers: what is asked of them, and what becomes of
-- the chain.
use abc.Bytes.{Bytes, eq_bytes}
use abc.Bytes.Laws.{eq_bytes_iff}
use abc.Chain.{Chain, Disk}
use abc.Chain.Add.{add_block}
use abc.Errors.{Result, ok, err, panicked, invalid_block}
use abc.External.{External}
use abc.Methods.{Outcome, done, failed, crashed, blocked, proceed, caught, call, fail_if, ◌>>◌}
use abc.Net.{Clock, PeerManager, PmMethod}
use abc.Net.Messages.{take_headers, add, drop_chain, start_headers, handle_headers}
use abc.Net.Messages.Light.{orphans_of, light, add_light-kept}
use abc.Net.Outside.{Wire}
use abc.Prelude.{
  Bool-cases, inl, inr, not, drop, Option-cases, ℕ, ◌≡◌, refl, sym, ap, ◌∙◌, true, false, Option,
  some, List, [], ◌∷◌,
}
use abc.Tx.{header_hash}
use abc.Types.{Hash, BlockHeader}

-- Each header follows the one before it; the first one follows `prev_hash`.
module _ (x : External) where
  pub IsLinked : Hash → List BlockHeader → Type 0
  IsLinked prev_hash [] = Unit {0}
  IsLinked prev_hash (header ∷ headers) =
      (header.prev_hash ≡ prev_hash)
      × ((hash : Hash) × (header_hash x header ≡ ok hash) × IsLinked hash headers)

  -- A message of headers that follow each other, after whatever the first one follows.
  pub IsRun : List BlockHeader → Type 0
  IsRun [] = Unit {0}
  IsRun (header ∷ headers) = IsLinked header.prev_hash (header ∷ headers)

  module _ (w : Wire) (clock : Clock) (load_supply_from_db : x.Db → Result ℕ) (disk : Disk)
      (checkpoint_hashes : ℕ → Option Hash) where
    after_chain : PeerManager x → PeerManager x → PeerManager x
    after_chain pm pm' = record pm { chain = orphans_of pm.chain pm'.chain }

    after_chain_trans :
        (pm pm' : PeerManager x) (d : Chain x)
        → d ≡ orphans_of pm.chain d
        → pm' ≡ after_chain (record pm { chain = d }) pm'
        → pm' ≡ after_chain pm pm'
    unfolding after_chain
    after_chain_trans pm pm' d kept same =
        same ∙ ap (λ c. record pm { chain = orphans_of c pm'.chain }) kept

    abbrev next : Hash → List BlockHeader → PeerManager x → Outcome (Unit {0}) × PeerManager x
    next = take_headers x w clock load_supply_from_db disk checkpoint_hashes

    caught-same :
        {A : Type 0} (r : Outcome A × PeerManager x) (k : PmMethod x (Unit {0}))
        (pm' : PeerManager x)
        → caught r k k ≡ (done tt, pm')
        → k r.1 ≡ (done tt, pm')
    caught-same (done a, s) k pm' e = e
    caught-same (failed b, s) k pm' e = e
    caught-same (crashed, s) k pm' e = cc (ap (λ r. r.0) e)
    caught-same (blocked, s) k pm' e = cc (ap (λ r. r.0) e)

    -- What the first header has passed.
    first_header :
        (header : BlockHeader) (prev_hash : Hash) (pm pm' : PeerManager x)
        (rest : Hash → PmMethod x (Unit {0})) (r : Result Hash)
        → header_hash x header ≡ r
        → proceed (call r pm) (λ hash.
          fail_if
            (not (eq_bytes header.prev_hash prev_hash))
            (invalid_block "Discontinuous headers")
          >> (λ q.
              caught
                (add x w clock load_supply_from_db disk checkpoint_hashes (light header) q)
                (rest hash)
                (rest hash)))
          ≡ (done tt, pm')
        → (hash : Hash) × (header_hash x header ≡ ok hash)
          × (header.prev_hash ≡ prev_hash)
          × (rest hash (record pm {
            chain =
                (add_block x load_supply_from_db disk clock.instant clock.unix_ms checkpoint_hashes
                  (light header)
                  pm.chain).1;
          })
              ≡ (done tt, pm'))
    first_header header prev_hash pm pm' rest (ok hash) h e =
        let added = add x w clock load_supply_from_db disk checkpoint_hashes (light header) pm in
        elim (Bool-cases (eq_bytes header.prev_hash prev_hash)) [
          | inl same ↦ (
            hash,
            h,
            (eq_bytes_iff header.prev_hash prev_hash).0 same,
            caught-same added (rest hash) pm' (rw same at e),
          )
          | inr other ↦ cc (ap (λ q. q.0) (rw other at e))
        ]
    first_header header prev_hash pm pm' rest (err problem) h e = cc (ap (λ q. q.0) e)
    first_header header prev_hash pm pm' rest panicked h e = cc (ap (λ q. q.0) e)

    take_headers_from :
        (prev_hash : Hash) (headers : List BlockHeader) (pm pm' : PeerManager x)
        → take_headers x w clock load_supply_from_db disk checkpoint_hashes prev_hash headers pm
          ≡ (done tt, pm')
        → IsLinked prev_hash headers × (pm' ≡ after_chain pm pm')
    unfolding take_headers IsLinked after_chain
    take_headers_from prev_hash [] pm pm' e =
        let same : pm ≡ pm' = ap (λ r. r.1) e in
        (
          tt,
          sym same
              ∙ ap {A = PeerManager x} (λ z. record pm { chain = orphans_of pm.chain z.chain })
                  same,
        )
    take_headers_from prev_hash (header ∷ headers) pm pm' e =
        let (hash, h, follows, e') =
          first_header header prev_hash pm pm' (λ k. next k headers) (header_hash x header) refl
            e in
        let light_block = light header in
        let d =
          (add_block x load_supply_from_db disk clock.instant clock.unix_ms checkpoint_hashes
            light_block pm.chain).1 in
        let (linked, same) = take_headers_from hash headers (record pm { chain = d }) pm' e' in
        let kept =
          add_light-kept x load_supply_from_db disk clock.instant clock.unix_ms checkpoint_hashes
            header pm.chain in
        ((follows, (hash, h, linked)), after_chain_trans pm pm' d kept same)

    drop_chain-done :
        (r : Outcome (Unit {0}) × PeerManager x) (pm' : PeerManager x)
        → drop_chain x r ≡ (done tt, pm')
        → (z : PeerManager x) × (r ≡ (done tt, z)) × (pm' ≡ record z { chain_lock = false })
    drop_chain-done (done u, z) pm' e = (z, refl, sym (ap (λ p. p.1) e))
    drop_chain-done (failed b, z) pm' e = cc (ap (λ p. p.0) e)
    drop_chain-done (crashed, z) pm' e = cc (ap (λ p. p.0) e)
    drop_chain-done (blocked, z) pm' e = cc (ap (λ p. p.0) e)

    unlocked-kept :
        (pm z pm' : PeerManager x)
        → z ≡ after_chain (record pm { chain_lock = true }) z
        → pm' ≡ record z { chain_lock = false }
        → (pm'.chain ≡ orphans_of pm.chain pm'.chain) × (pm'.store ≡ pm.store)
    unfolding after_chain
    unlocked-kept pm z pm' kept same =
        let chain_same : pm'.chain ≡ z.chain = ap (λ y. y.chain) same in
        (
          chain_same ∙ ap (λ y. y.chain) kept ∙ ap (λ c. orphans_of pm.chain c) (sym chain_same),
          ap (λ y. y.store) same ∙ ap (λ y. y.store) kept,
        )

    start_headers-done :
        (headers : List BlockHeader) (pm pm' : PeerManager x)
        → start_headers x w clock load_supply_from_db disk checkpoint_hashes headers pm
          ≡ (done tt, pm')
        → IsRun headers × (pm'.chain ≡ orphans_of pm.chain pm'.chain) × (pm'.store ≡ pm.store)
    unfolding IsRun after_chain
    start_headers-done [] pm pm' e =
        let same : pm' ≡ pm = sym (ap (λ r. r.1) e) in (tt, rw same refl, ap (λ z. z.store) same)
    start_headers-done (header ∷ headers) pm pm' e = elim (Bool-cases pm.chain_lock) [
      | inl held ↦ cc (ap (λ r. r.0) (rw held at e))
      | inr free ↦
          let locked = record pm { chain_lock = true } in
          let (z, back, same) =
            drop_chain-done (next header.prev_hash (header ∷ headers) locked) pm' (rw free at e) in
          let (linked, kept) =
            take_headers_from header.prev_hash (header ∷ headers) locked z back in
          let (chain_kept, quiet) = unlocked-kept pm z pm' kept same in (linked, chain_kept, quiet)
    ]

    -- When a message of headers has been handled, each header in it follows the one before; nothing was
    -- sent, and of the chain only the orphans and the lock may have changed.
    pub handle_headers-IsRun :
        (msg : Bytes) (pm pm' : PeerManager x)
        → handle_headers x w clock load_supply_from_db disk checkpoint_hashes msg pm
          ≡ (done tt, pm')
        → (headers : List BlockHeader) × (w.deserialize_headers (drop 4 msg) ≡ some headers)
          × IsRun headers
          × (pm'.chain ≡ orphans_of pm.chain pm'.chain)
          × (pm'.store ≡ pm.store)
    unfolding handle_headers
    handle_headers-IsRun msg pm pm' e = elim (Option-cases (w.deserialize_headers (drop 4 msg))) [
      | inl unread ↦ cc (ap (λ r. r.0) (rw unread at e))
      | inr (headers, known) ↦
          let (linked, kept, quiet) = start_headers-done headers pm pm' (rw known at e) in
          (headers, known, linked, kept, quiet)
    ]
