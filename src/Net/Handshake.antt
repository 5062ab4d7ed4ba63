-- ===== src/Net/Handshake.antt =====
-- 111/src/net.rs `handshake` and `add_peer` up to the tasks that it starts. What a `?` in `add_peer`
-- would return is an early return.
pub mod Refused
use abc.Bytes.{Bytes, eq_bytes, to_le_bytes, zeros}
use abc.Chain.{Chain}
use abc.Errors.{anyhow, invalid_handshake}
use abc.External.{External}
use abc.Maps.{find_key, insert_key, find_at}
use abc.Methods.{Method, Outcome, call, ◌>>=◌, ◌>>◌, read, change, fail_if, wait_if, pure, caught}
use abc.Net.{
  IpAddr, Peer, Clock, modify_at, PeerManager, PmMethod, send, is_banned, broadcast,
  decrease_reputation,
}
use abc.Net.Outside.{Wire, Stream}
use abc.Prelude.{
  ℕ, ◌+◌, ◌-◌, ◌*◌, ◌/◌, ◌%◌, ◌^◌, Bool, true, false, not, ◌&&◌, ◌||◌, Option, none, some, List, [],
  ◌∷◌, ◌++◌, length, take, drop, ltb, leb, ◌==◌, if◌then◌else◌,
}
use abc.Types.{Hash}
use abc.Utils.Checked.{u64_mod, wrapping_sub64}

-- `from_le_bytes(bytes)`
unfoldable pub from_le_bytes : Bytes → ℕ
from_le_bytes [] = 0
from_le_bytes (b ∷ bs) = b + 256 * from_le_bytes bs

-- `(a as i64 - b as i64).abs() > 300`: the least number has no other absolute value than itself.
abbrev pub is_far : ℕ → ℕ → Bool
is_far a b =
    let d = wrapping_sub64 a b in
    let distance = if ltb d (2 ^ 63) then d else u64_mod - d in
    ltb 300 distance && ltb distance (2 ^ 63)

-- `now_ms()? - cache_time < SIGNATURE_CACHE_TTL_MS` for a key that was seen before.
abbrev pub is_cached : ℕ → Bytes → Option (Bytes × ℕ) → Bool
is_cached now_ms key none = false
is_cached now_ms key (some (cached, time)) =
    eq_bytes key cached && ltb ((now_ms + 2 ^ 128 - time) % 2 ^ 128) 3_600_000

abbrev pub receives_of : Option Peer → Bool
receives_of none = false
receives_of (some p) = p.receives

-- The addresses that share a subnet: 24 bits of four octets, or 112 of sixteen.
abbrev pub subnet_of : IpAddr → IpAddr
subnet_of ip = if length ip == 4 then take 3 ip ++ (0 ∷ []) else take 14 ip ++ (0 ∷ 0 ∷ [])

abbrev pub count_of : Option (List ℕ) → ℕ
count_of none = 0
count_of (some ps) = length ps

-- What of the configuration is used.
pub record Limits : Type 0 where
  pub max_peers : ℕ
  pub p2p_port : ℕ

-- The limits on the connections of an address, of all and of a subnet.
abbrev pub is_full : Limits → IpAddr → List (IpAddr × List ℕ) → Bool
is_full limits ip peers =
    leb (limits.max_peers / 10) (count_of (find_key ip peers))
    || leb limits.max_peers (length peers)
    || leb 2 (count_of (find_key (subnet_of ip) peers))

abbrev pub add_to_entry : ℕ → Option (List ℕ) → List ℕ
add_to_entry p none = p ∷ []
add_to_entry p (some ps) = ps ++ (p ∷ [])

-- The peer before the handshake. `mpsc::channel(100).0` drops the end that receives.
abbrev pub new_peer : Bytes → Peer
new_peer peer_id = record {
  reputation = 0;
  version = 0;
  height = 0;
  peer_id = peer_id;
  score = 100;
  receives = false;
  sent = [];
}

module _ (x : External) (w : Wire) (clock : Clock) where
  -- From the signature on. The nonce is cleared before it is compared.
  unfoldable pub accept_signature :
      ℕ → ℕ → Bytes → Bytes → Bytes → w.PublicKey → Bytes → PmMethod x (Unit {0})
  accept_signature p msg_len buf genesis_hash recv_pub_bytes recv_pub peer_id = do
    peer_sig ← call (
        abc.Errors.ok_or (w.signature_from_bytes (take 64 (drop (msg_len + 32) buf)))
          (anyhow "Invalid signature"))
    fail_if (not (w.verify recv_pub (take msg_len buf ++ recv_pub_bytes) peer_sig))
        (anyhow "Signature verification failed")
    fail_if (ltb (from_le_bytes (take 4 buf)) 1) invalid_handshake
    fail_if (not (eq_bytes (take 32 (drop 4 buf)) genesis_hash)) invalid_handshake
    fail_if (eq_bytes (zeros (length (take 12 (drop 44 buf)))) (zeros 12)) invalid_handshake
    fail_if (is_far (from_le_bytes (take 8 (drop 36 buf))) (clock.unix_ms / 1000 % u64_mod))
        invalid_handshake
    change (λ pm. record pm {
      signature_cache = insert_key peer_id (recv_pub_bytes, clock.unix_ms) pm.signature_cache;
      store = modify_at p (λ peer. record peer { version = from_le_bytes (take 4 buf) }) pm.store;
    })

  -- From the public key on.
  unfoldable pub accept_key : ℕ → ℕ → Bytes → Bytes → PmMethod x (Unit {0})
  accept_key p msg_len buf genesis_hash = do
    let recv_pub_bytes = take 32 (drop msg_len buf)
    recv_pub ←
        call
          (abc.Errors.ok_or (w.public_key_from_bytes recv_pub_bytes) (anyhow "Invalid public key"))
    peer_id ←
        call (
          abc.Errors.ok_or (w.peer_id_from_bytes recv_pub_bytes)
            (anyhow "PeerId from bytes failed"))
    pm ← read
    (if is_cached clock.unix_ms recv_pub_bytes (find_key peer_id pm.signature_cache)
        then pure tt
        else accept_signature p msg_len buf genesis_hash recv_pub_bytes recv_pub peer_id)

  -- `PeerManager::handshake`. The time is a `u128`, of sixteen bytes.
  unfoldable pub handshake : Stream → ℕ → PmMethod x (Unit {0})
  handshake stream p = do
    pm ← read
    wait_if pm.chain_lock
    nonce ← call (abc.Errors.ok_or w.random_nonce (anyhow "Nonce generation error"))
    let msg =
        w.serialize_u32 1
        ++ (pm.chain.genesis_hash ++ (to_le_bytes 16 (clock.unix_ms / 1000) ++ nonce))
    let to_sign = msg ++ w.our_public
    fail_if (not (receives_of (find_at p pm.store))) (anyhow "Send handshake error")
    send x p (to_sign ++ w.sign to_sign)
    buf ← call (abc.Errors.ok_or (stream (length msg + 32 + 64 + 4)) (anyhow "Handshake timeout"))
    fail_if (not (length buf == length msg + 32 + 64)) invalid_handshake
    accept_key p (length msg) buf pm.chain.genesis_hash

  module _ (connects : Bool) (limits : Limits) where
    -- A peer whose handshake came back.
    unfoldable pub register : ℕ → Bytes → IpAddr → PmMethod x (Unit {0})
    register p peer_id ip = do
      let peer_addr = w.show_addr ip limits.p2p_port
      change (λ pm. record pm { known_peers = pm.known_peers ++ (peer_addr ∷ []) })
      broadcast x (w.serialize_news 10 clock.unix_ms (peer_addr ∷ []))
      send x p (w.serialize_u32 9)
      pm ← read
      wait_if pm.peers_lock
      change (λ pm'. record pm' {
        peers = insert_key ip (add_to_entry p (find_key ip pm'.peers)) pm'.peers;
        peers_by_id = insert_key peer_id (ip, p) pm'.peers_by_id;
      })

    -- A new peer, with the key of this node.
    unfoldable pub meet : Stream → IpAddr → Bytes → PmMethod x (Unit {0})
    meet stream ip peer_id pm =
        let p = length pm.store in
        caught (handshake stream p (record pm { store = (p, new_peer peer_id) ∷ pm.store }))
          (decrease_reputation x w connects clock p ip) (register p peer_id ip)

    -- `PeerManager::add_peer`
    unfoldable pub add_peer : Stream → IpAddr → PmMethod x (Unit {0})
    add_peer stream ip = do
      banned ← is_banned x clock ip
      (if banned then pure tt else (do
        pm ← read
        wait_if pm.peers_lock
        (if is_full limits ip pm.peers then pure tt else (elim (w.peer_id_from_bytes w.our_public) [
          | none ↦ pure tt
          | some peer_id ↦ meet stream ip peer_id
        ]))))
