-- ===== src/Net/Arrivals.antt =====
-- 111/src/net.rs `PeerManager::new`, `connect_to_seeds`, the task that connects again, and what a run
-- of connections leads to. What a connection to an address gives is an argument, and so are the
-- addresses that chance picks.
use abc.Bytes.{Bytes}
use abc.Chain.{Chain}
use abc.External.{External}
use abc.Methods.{◌>>=◌, ◌>>◌, read, wait_if, pure}
use abc.Net.{IpAddr, Clock, PeerManager, PmMethod, retain_bans}
use abc.Net.Handshake.{Limits, add_peer}
use abc.Net.Handshake.Refused.{add_peer_refuses}
use abc.Net.Outside.{Wire, Stream}
use abc.Prelude.{
  ℕ, ◌/◌, ◌≡◌, ◌⊎◌, inl, inr, Bool, Bool-cases, false, refl, ap, ◌∙◌, Option, none, some, List, [],
  ◌∷◌, length, ltb, if◌then◌else◌,
}

-- A ban of this address until this time is in the table.
unfoldable pub HasBan : IpAddr → ℕ → List (IpAddr × ℕ) → Type 0
HasBan ip expiry [] = ⊥
HasBan ip expiry (ban ∷ bans) = (ban ≡ (ip, expiry)) ⊎ HasBan ip expiry bans

-- Each ban of the first table is in the second, until the same time.
abbrev pub AreAmong : List (IpAddr × ℕ) → List (IpAddr × ℕ) → Type 0
AreAmong bans olds = (ip : IpAddr) (expiry : ℕ) → HasBan ip expiry bans → HasBan ip expiry olds

retain_bans-AreAmong : (now : ℕ) (bans : List (IpAddr × ℕ)) → AreAmong (retain_bans now bans) bans
unfolding retain_bans HasBan
retain_bans-AreAmong now [] ip expiry h = h
retain_bans-AreAmong now ((j, e) ∷ bans) ip expiry h = elim (Bool-cases (ltb now e)) [
  | inl lasts ↦ elim (rw lasts at h) [
    | inl here ↦ inl here
    | inr there ↦ inr (retain_bans-AreAmong now bans ip expiry there)
  ]
  | inr over ↦ inr (retain_bans-AreAmong now bans ip expiry (rw over at h))
]

module _ (x : External) where
  -- `PeerManager::new`: the seeds are known.
  abbrev pub new_manager : List Bytes → Chain x → PeerManager x
  new_manager seed_nodes chain = record {
    store = [];
    peers = [];
    peers_lock = false;
    peers_by_id = [];
    bans = [];
    bans_persistent = [];
    known_peers = seed_nodes;
    pending_inv = [];
    signature_cache = [];
    inv_sent = [];
    chain = chain;
    chain_lock = false;
  }

  module _ (w : Wire) (connects : Bool) (limits : Limits) where
    module _ (clock : Clock) (connect : Bytes → Option (Stream × IpAddr)) where
      -- `PeerManager::connect_to_seeds`
      unfoldable pub connect_to_seeds : List Bytes → PmMethod x (Unit {0})
      connect_to_seeds [] = pure tt
      connect_to_seeds (seed ∷ seeds) = elim (connect seed) [
        | none ↦ connect_to_seeds seeds
        | some (stream, ip) ↦ add_peer x w clock connects limits stream ip >> connect_to_seeds seeds
      ]

      -- One turn of the task that connects again, to these of the known addresses.
      unfoldable pub reconnect : List Bytes → PmMethod x (Unit {0})
      reconnect chosen = do
        pm ← read
        wait_if pm.peers_lock
        (if ltb (length pm.peers) (limits.max_peers / 2) then connect_to_seeds chosen else pure tt)

    -- Connections that come in or are made, at any times and over any streams.
    pub data Arrives (pm : PeerManager x) : PeerManager x → Type 0 where
      start : Arrives pm pm
      arrive :
          {pm' : PeerManager x} (clock : Clock) (stream : Stream) (ip : IpAddr)
          → Arrives pm pm'
          → Arrives pm (add_peer x w clock connects limits stream ip pm').1

    -- No run of connections adds a peer or an address or changes the chain, and each ban that there
    -- is after it, also of the persistent ones, was there before it, until the same time.
    pub Arrives-kept :
        (pm pm' : PeerManager x)
        → Arrives pm pm'
        → (pm'.peers ≡ pm.peers)
          × (pm'.peers_by_id ≡ pm.peers_by_id)
          × (pm'.known_peers ≡ pm.known_peers)
          × (pm'.chain ≡ pm.chain)
          × AreAmong pm'.bans pm.bans
          × AreAmong pm'.bans_persistent pm.bans_persistent
    Arrives-kept pm pm' start = (refl, refl, refl, refl, λ ip e h. h, λ ip e h. h)
    Arrives-kept pm pm' (arrive {pm' = before} clock stream ip run) =
        let (peers, by_id, known, chain, bans, persistent) = Arrives-kept pm before run in
        let kept = add_peer_refuses x w clock connects limits stream ip before in
        let left = retain_bans-AreAmong clock.instant before.bans in
        let left' = retain_bans-AreAmong clock.instant before.bans_persistent in
        (
          ap (λ z. z.peers) kept ∙ peers,
          ap (λ z. z.peers_by_id) kept ∙ by_id,
          ap (λ z. z.known_peers) kept ∙ known,
          ap (λ z. z.chain) kept ∙ chain,
          λ j e h. bans j e (left j e (rw (ap (λ z. z.bans) kept) at h)),
          λ j e h. persistent j e (left' j e (rw (ap (λ z. z.bans_persistent) kept) at h)),
        )
