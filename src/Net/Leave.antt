-- ===== src/Net/Leave.antt =====
-- 111/src/net.rs `remove_peer`, which asks for the lock of the peers while it holds it.
use abc.Bytes.{Bytes}
use abc.External.{External}
use abc.Methods.{done, blocked}
use abc.Net.{IpAddr, Clock, PeerManager, remove_peer, broadcast, is_banned}
use abc.Net.Handshake.{Limits, add_peer}
use abc.Net.Outside.{Wire, Stream}
use abc.Prelude.{ℕ, ◌≡◌, Bool, true, false, arith, Bool-cases, inl, inr}

module _ (x : External) (w : Wire) (connects : Bool) (limits : Limits) where
  remove_peer-held :
      (ip : IpAddr) (p : ℕ) (pm : PeerManager x)
      → ((remove_peer x ip p pm).0 ≡ blocked) × ((remove_peer x ip p pm).1.peers_lock ≡ true)
  unfolding remove_peer
  remove_peer-held ip p pm = elim (Bool-cases pm.peers_lock) [
    | inl held ↦ ground (arith, held)
    | inr free ↦ ground (arith, free)
  ]

  broadcast-held :
      (msg : Bytes) (pm : PeerManager x) → pm.peers_lock ≡ true → (broadcast x msg pm).0 ≡ blocked
  unfolding broadcast
  broadcast-held msg pm held = ground (arith, held)

  add_peer-held :
      (clock : Clock) (stream : Stream) (ip : IpAddr) (pm : PeerManager x)
      → pm.peers_lock ≡ true
      → (is_banned x clock ip pm).0 ≡ done false
      → (add_peer x w clock connects limits stream ip pm).0 ≡ blocked
  unfolding add_peer is_banned
  add_peer-held clock stream ip pm held h = ground (arith, held, h)

  -- To take a peer out waits for ever; then nothing can be broadcast, and no address that is not banned
  -- can connect.
  pub remove_peer_blocks :
      (ip ip' : IpAddr) (p : ℕ) (msg : Bytes) (clock : Clock) (stream : Stream) (pm : PeerManager x)
      → (is_banned x clock ip' (remove_peer x ip p pm).1).0 ≡ done false
      → ((remove_peer x ip p pm).0 ≡ blocked)
        × ((broadcast x msg (remove_peer x ip p pm).1).0 ≡ blocked)
        × ((add_peer x w clock connects limits stream ip' (remove_peer x ip p pm).1).0 ≡ blocked)
  remove_peer_blocks ip ip' p msg clock stream pm h =
      let (waits, held) = remove_peer-held ip p pm in
      let left = (remove_peer x ip p pm).1 in
      (waits, broadcast-held msg left held, add_peer-held clock stream ip' left held h)
