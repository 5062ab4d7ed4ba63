-- ===== src/Net/Handshake/Refused.antt =====
-- 111/src/net.rs `handshake`, which waits for four bytes more than it takes, and `add_peer`, which
-- therefore turns every connection away.
use abc.Bytes.{Bytes}
use abc.External.{External}
use abc.Maps.{find_at}
use abc.Methods.{done, blocked, is_failed}
use abc.Net.{
  IpAddr, Clock, modify_at, PeerManager, send, is_banned, retain_bans, decrease_reputation,
}
use abc.Net.Handshake.{handshake, Limits, add_peer, meet, new_peer}
use abc.Net.Outside.{Wire, Stream, IsExact}
use abc.Prelude.{
  ℕ, ◌+◌, ◌≡◌, refl, Bool, Bool-cases, true, false, some, List, ◌∷◌, length, ◌==◌, arith,
  Option-cases, inl, inr,
}

longer : (n m : ℕ) → m ≡ n + 32 + 64 + 4 → (m == n + 32 + 64) ≡ false
longer n m h = ground arith

find_at-head : {A : Type 0} (p : ℕ) (a : A) (l : List (ℕ × A)) → find_at p ((p, a) ∷ l) ≡ some a
unfolding find_at
find_at-head p a l = ground arith

modify_at-head :
    {A : Type 0} (p : ℕ) (f : A → A) (a : A) (l : List (ℕ × A))
    → modify_at p f ((p, a) ∷ l) ≡ (p, f a) ∷ l
unfolding modify_at
modify_at-head p f a l = ground arith

module _ (x : External) (w : Wire) (clock : Clock) where
  -- While the lock of the chain is free, a handshake over any stream whose reads fill the buffer comes
  -- back with an error.
  pub handshake_refuses :
      (stream : Stream) (p : ℕ) (pm : PeerManager x)
      → pm.chain_lock ≡ false
      → IsExact stream
      → is_failed (handshake x w clock stream p pm).0 ≡ true
  unfolding handshake send
  handshake_refuses stream p pm free h =
      let exact : (n : ℕ) (buf : Bytes) → stream n ≡ some buf → length buf ≡ n = h.fills in
      grind (arith, free, exact, longer)

  -- A handshake with a peer that has just been made stops before anything is sent.
  handshake-closed :
      (stream : Stream) (p : ℕ) (pm : PeerManager x) (peer_id : Bytes)
      → pm.chain_lock ≡ false
      → find_at p pm.store ≡ some (new_peer peer_id)
      → (is_failed (handshake x w clock stream p pm).0 ≡ true)
        × ((handshake x w clock stream p pm).1 ≡ pm)
  unfolding handshake
  handshake-closed stream p pm peer_id free h = ground (arith, free, h)

  handshake-waits :
      (stream : Stream) (p : ℕ) (pm : PeerManager x)
      → pm.chain_lock ≡ true
      → handshake x w clock stream p pm ≡ (blocked, pm)
  unfolding handshake
  handshake-waits stream p pm held = ground (arith, held)

  module _ (connects : Bool) (limits : Limits) where
    meet-refuses :
        (stream : Stream) (ip : IpAddr) (peer_id : Bytes) (pm : PeerManager x)
        → pm.chain_lock ≡ false
        → meet x w clock connects limits stream ip peer_id pm ≡ (
          done tt,
          record pm {
            store = (length pm.store, record (new_peer peer_id) { reputation = 246 }) ∷ pm.store;
          },
        )
    unfolding meet decrease_reputation
    meet-refuses stream ip peer_id pm free =
        let p = length pm.store in
        let made = record pm { store = (p, new_peer peer_id) ∷ pm.store } in
        let found = find_at-head p (new_peer peer_id) pm.store in
        let (e, same) = handshake-closed stream p made peer_id free found in
        grind (arith, e, same, find_at-head, modify_at-head)

    -- Met or waiting for the chain, the peer changes the store alone.
    meet-kept :
        (stream : Stream) (ip : IpAddr) (peer_id : Bytes) (pm : PeerManager x)
        → let pm' = (meet x w clock connects limits stream ip peer_id pm).1 in
          pm' ≡ record pm { store = pm'.store }
    unfolding meet
    meet-kept stream ip peer_id pm =
        let p = length pm.store in
        let made = record pm { store = (p, new_peer peer_id) ∷ pm.store } in
        elim (Bool-cases pm.chain_lock) [
          | inl held ↦ rw (handshake-waits stream p made held) refl
          | inr free ↦ rw (meet-refuses stream ip peer_id pm free) refl
        ]

    -- Whatever comes in over the stream, no peer is added and no address is learnt, and of the bans
    -- those that have expired are dropped.
    pub add_peer_refuses :
        (stream : Stream) (ip : IpAddr) (pm : PeerManager x)
        → let pm' = (add_peer x w clock connects limits stream ip pm).1 in
          pm' ≡ record pm {
            store = pm'.store;
            bans = retain_bans clock.instant pm.bans;
            bans_persistent = retain_bans clock.instant pm.bans_persistent;
          }
    unfolding add_peer is_banned
    add_peer_refuses stream ip pm =
        let kept = record pm {
          bans = retain_bans clock.instant pm.bans;
          bans_persistent = retain_bans clock.instant pm.bans_persistent;
        } in
        elim (Option-cases (w.peer_id_from_bytes w.our_public)) [
          | inl unknown ↦ ground (arith, unknown)
          | inr (peer_id, known) ↦ ground (arith, known, meet-kept stream ip peer_id kept)
        ]
