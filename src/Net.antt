-- ===== src/Net.antt =====
-- 111/src/net.rs: the peers of a node, their reputation and the bans. A peer is shared: it stands in
-- a store and is known by its number there. The octets of an address stand for it. The lock of
-- `peers` is not reentrant. A message that a channel takes is sent; its bound and the metrics are left out.
pub mod Outside
pub mod Handshake
pub mod Bans
pub mod Reputation
pub mod Frame
pub mod Messages
pub mod Arrivals
pub mod Leave
mod Tests
use abc.Bytes.{Bytes, to_be_bytes}
use abc.Chain.{Chain}
use abc.External.{External, default, put_cf}
use abc.Maps.{find_key, erase_key, insert_key, find_at, is_some}
use abc.Methods.{Method, Outcome, blocked, ◌>>=◌, ◌>>◌, read, change, pure, wait_if}
use abc.Net.Outside.{Wire}
use abc.Prelude.{
  ℕ, ◌+◌, ◌-◌, ◌*◌, ◌/◌, ◌%◌, ◌^◌, Bool, true, false, not, ◌&&◌, ◌||◌, Option, none, some, List, [],
  ◌∷◌, ◌++◌, ltb, leb, ◌==◌, if◌then◌else◌,
}
use abc.Types.{Hash}
use abc.Utils.Checked.{u32_mod, u64_mod}
use abc.Utxo.Write.{write}

abbrev pub IpAddr : Type 0
IpAddr = Bytes

-- `Peer`. The reputation is the byte of an `i8`, the score the word of an `i32`.
pub record Peer : Type 0 where
  pub reputation : ℕ
  pub version : ℕ
  pub height : ℕ
  pub peer_id : Bytes
  pub score : ℕ
  -- The other end of the channel `write_tx` exists, and what went through.
  pub receives : Bool
  pub sent : List Bytes

-- `Peer::penalize`: what is left, and whether the peer is banned.
unfoldable pub penalize : ℕ → Peer → Peer × Bool
penalize cost p = (
  record p { score = (p.score + u32_mod - cost) % u32_mod },
  (p.score == 0) || leb (2 ^ 31) p.score,
)

-- The monotone clock in milliseconds, and the time since 1970.
pub record Clock : Type 0 where
  pub instant : ℕ
  pub unix_ms : ℕ

-- `Duration::from_hours(72)`
abbrev pub ban_ms : ℕ
ban_ms = 72 * 3_600_000

-- `peer.reputation -= 10`, and `peer.reputation <= -50`.
abbrev pub less_ten : ℕ → ℕ
less_ten r = (r + 246) % 256

abbrev pub is_bad : ℕ → Bool
is_bad r = leb 128 r && leb r 206

-- `retain(|_, expiry| Instant::now() < *expiry)`
unfoldable pub retain_bans : ℕ → List (IpAddr × ℕ) → List (IpAddr × ℕ)
retain_bans now [] = []
retain_bans now ((ip, expiry) ∷ bans) =
    let rest = retain_bans now bans in if ltb now expiry then (ip, expiry) ∷ rest else rest

-- A change of the object behind a pointer.
unfoldable pub modify_at {ℓ} : {A : Type ℓ} → ℕ → (A → A) → List (ℕ × A) → List (ℕ × A)
modify_at key f [] = []
modify_at key f ((k, a) ∷ store) =
    if key == k then (k, f a) ∷ store else (k, a) ∷ modify_at key f store

-- `vec.retain(|p| !Arc::ptr_eq(p, peer))`
unfoldable pub retain_others : ℕ → List ℕ → List ℕ
retain_others p [] = []
retain_others p (q ∷ qs) = let rest = retain_others p qs in if p == q then rest else q ∷ rest

abbrev pub push_sent : Bytes → Peer → Peer
push_sent msg p = if p.receives then record p { sent = p.sent ++ (msg ∷ []) } else p

-- `for p in peers { p.write_tx.send(msg.clone()).await.ok(); }`
unfoldable pub send_each : Bytes → List ℕ → List (ℕ × Peer) → List (ℕ × Peer)
send_each msg [] store = store
send_each msg (p ∷ ps) store = send_each msg ps (modify_at p (push_sent msg) store)

unfoldable pub send_all : Bytes → List (IpAddr × List ℕ) → List (ℕ × Peer) → List (ℕ × Peer)
send_all msg [] store = store
send_all msg ((ip, ps) ∷ peers) store = send_all msg peers (send_each msg ps store)

-- What is left of the peers of an address without one of them.
unfoldable pub without_peer :
    IpAddr → ℕ → Option (List ℕ) → List (IpAddr × List ℕ) → List (IpAddr × List ℕ)
without_peer ip p none peers = peers
without_peer ip p (some ps) peers =
    let left = retain_others p ps in
    elim left [ [] ↦ erase_key ip peers | q ∷ qs ↦ insert_key ip (q ∷ qs) peers ]

-- `peer.peer_id`, of a pointer.
abbrev pub id_of : Option Peer → Bytes
id_of none = []
id_of (some p) = p.peer_id

abbrev pub reputation_of : Option Peer → ℕ
reputation_of none = 0
reputation_of (some p) = p.reputation

module _ (x : External) where
  pub record PeerManager : Type 0 where
    -- The peers that pointers lead to.
    pub store : List (ℕ × Peer)
    pub peers : List (IpAddr × List ℕ)
    -- The lock of `peers` is held.
    pub peers_lock : Bool
    pub peers_by_id : List (Bytes × (IpAddr × ℕ))
    pub bans : List (IpAddr × ℕ)
    pub bans_persistent : List (IpAddr × ℕ)
    pub known_peers : List Bytes
    pub pending_inv : List (Bytes × ℕ)
    -- A key and the time it was seen at.
    pub signature_cache : List (Bytes × (Bytes × ℕ))
    -- What went into `inv_tx`.
    pub inv_sent : List (ℕ × Hash)
    pub chain : Chain x
    -- The lock of `chain` is held.
    pub chain_lock : Bool

  abbrev pub PmMethod : Type 0 → Type 0
  PmMethod A = Method PeerManager A

  -- `peer.write_tx.send(msg).await.ok()`
  unfoldable pub send : ℕ → Bytes → PmMethod (Unit {0})
  send p msg = change (λ pm. record pm { store = modify_at p (push_sent msg) pm.store })

  -- `PeerManager::is_banned`
  unfoldable pub is_banned : Clock → IpAddr → PmMethod Bool
  is_banned clock ip = do
    change (λ pm. record pm { bans = retain_bans clock.instant pm.bans })
    change (λ pm. record pm { bans_persistent = retain_bans clock.instant pm.bans_persistent })
    pm ← read
    pure (is_some (find_key ip pm.bans) || is_some (find_key ip pm.bans_persistent))

  -- `PeerManager::broadcast`
  unfoldable pub broadcast : Bytes → PmMethod (Unit {0})
  broadcast msg = do
    pm ← read
    wait_if pm.peers_lock
    change (λ pm'. record pm' { store = send_all msg pm'.peers pm'.store })

  -- `PeerManager::remove_peers`
  unfoldable pub remove_peers : IpAddr → PmMethod (Unit {0})
  remove_peers ip = do
    pm ← read
    wait_if pm.peers_lock
    change (λ pm'. record pm' { peers = erase_key ip pm'.peers })

  -- `PeerManager::remove_peer`: the lock is held to the end, and at the end it is asked for again.
  unfoldable pub remove_peer : IpAddr → ℕ → PmMethod (Unit {0})
  remove_peer ip p = do
    pm ← read
    wait_if pm.peers_lock
    change (λ pm'. record pm' {
      peers_lock = true;
      peers = without_peer ip p (find_key ip pm'.peers) pm'.peers;
    })
    change (λ pm'. record pm' {
      peers_by_id = erase_key (id_of (find_at p pm'.store)) pm'.peers_by_id;
    })
    pm'' ← read
    wait_if pm''.peers_lock
    change (λ pm'. record pm' { peers_lock = false })

  module _ (w : Wire) (connects : Bool) (clock : Clock) where
    -- The entry of a ban in the database, if a connection is there.
    unfoldable pub store_ban : IpAddr → Chain x → Chain x
    store_ban ip c =
        let expiry = clock.unix_ms / 1000 + ban_ms / 1000 in
        if connects
        then record c {
          db = write x c.db (
              put_cf default (b'b' ∷ b'a' ∷ b'n' ∷ b':' ∷ w.show_ip ip) (to_be_bytes 8 expiry)
              ∷ []);
        }
        else c

    -- `PeerManager::ban_ip` for 72 hours.
    unfoldable pub ban_ip : IpAddr → PmMethod (Unit {0})
    ban_ip ip = do
      change (λ pm. record pm { bans = insert_key ip (clock.instant + ban_ms) pm.bans })
      change (λ pm. record pm {
        bans_persistent = insert_key ip (clock.instant + ban_ms) pm.bans_persistent;
      })
      change (λ pm. record pm { chain = store_ban ip pm.chain })
      remove_peers ip

    -- `PeerManager::decrease_reputation`
    unfoldable pub decrease_reputation : ℕ → IpAddr → PmMethod (Unit {0})
    decrease_reputation p ip = do
      change (λ pm. record pm {
        store =
            modify_at p (λ peer. record peer { reputation = less_ten peer.reputation }) pm.store;
      })
      pm ← read
      (if is_bad (reputation_of (find_at p pm.store)) then ban_ip ip else pure tt)
