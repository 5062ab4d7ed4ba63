-- ===== src/Net/Reputation.antt =====
-- 111/src/net.rs `decrease_reputation`: which offences of a peer ban its address, and
-- until when.
use abc.Bytes.Laws.{eq_bytes_refl}
use abc.External.{External}
use abc.Maps.{find_key, find_at}
use abc.Methods.{◌>>◌, pure, done}
use abc.Net.{
  IpAddr, Peer, Clock, PeerManager, PmMethod, ban_ip, ban_ms, remove_peers, modify_at, less_ten,
  is_bad, decrease_reputation,
}
use abc.Maps.Laws.{find_key-insert_key}
use abc.Net.Outside.{Wire}
use abc.Prelude.{
  ap, ◌∙◌, length, ◌&&◌, ℕ, ◌+◌, ◌*◌, ◌%◌, ◌≤◌, ◌≡◌, refl, Bool, false, Option, some, List, [], ◌∷◌,
  leb, if◌then◌else◌, arith, Bool-cases, inl, inr,
}

find_at-modify_at :
    {A : Type 0} (p : ℕ) (f : A → A) (store : List (ℕ × A)) {a : A}
    → find_at p store ≡ some a
    → find_at p (modify_at p f store) ≡ some (f a)
unfolding find_at modify_at
find_at-modify_at p f [] h = cc h
find_at-modify_at p f ((k, b) ∷ store) h = grind (arith, find_at-modify_at p f store)

less_ten_lem : (n : ℕ) → less_ten (n * 246 % 256) ≡ (n + 1) * 246 % 256
less_ten_lem n = omega arith

-- The reputation is a byte in two's complement, so the thirteenth offence takes it above 0 again.
abbrev pub bans_at : ℕ → Bool
bans_at n = leb 5 n && leb n 12

is_bad-eq-bans_at : (n : ℕ) → n ≤ 30 → is_bad (n * 246 % 256) ≡ bans_at n
is_bad-eq-bans_at n h = ground arith

-- The ban after offences at these times, the last first: that of the last of the fifth to the twelfth.
unfoldable pub last_ban : List Clock → Option ℕ → Option ℕ
last_ban [] old = old
last_ban (clock ∷ earlier) old =
    let before = last_ban earlier old in
    if bans_at (length earlier + 1) then some (clock.instant + ban_ms) else before

module _ (x : External) (w : Wire) (connects : Bool) (p : ℕ) (ip : IpAddr) where
  -- A peer that offends at these times, the last first.
  unfoldable pub offend : List Clock → PmMethod x (Unit {0})
  offend [] = pure tt
  offend (clock ∷ earlier) = offend earlier >> decrease_reputation x w connects clock p ip

  IsAfter : ℕ → Option ℕ → PeerManager x → Type 0
  IsAfter n ban pm =
      (pm.peers_lock ≡ false)
      × ((peer : Peer) × (find_at p pm.store ≡ some peer) × (peer.reputation ≡ n * 246 % 256))
      × (find_key ip pm.bans ≡ ban)

  ban_ip-done :
      (clock : Clock) (pm : PeerManager x)
      → pm.peers_lock ≡ false
      → let r = ban_ip x w connects clock ip pm in
        (r.0 ≡ done tt)
        × (r.1.peers_lock ≡ false)
        × (r.1.store ≡ pm.store)
        × (find_key ip r.1.bans ≡ some (clock.instant + ban_ms))
  unfolding ban_ip remove_peers
  ban_ip-done clock pm free =
      let own = eq_bytes_refl ip in
      let found = find_key-insert_key ip ip (clock.instant + ban_ms) pm.bans in
      ground (arith, free, own, found)

  decrease-IsAfter :
      (clock : Clock) (n : ℕ) (ban : Option ℕ) (pm : PeerManager x)
      → n + 1 ≤ 30
      → IsAfter n ban pm
      → let r = decrease_reputation x w connects clock p ip pm in
        (r.0 ≡ done tt)
        × IsAfter (n + 1) (if bans_at (n + 1) then some (clock.instant + ban_ms) else ban) r.1
  unfolding IsAfter decrease_reputation
  decrease-IsAfter clock n ban pm few (free, (peer, found, rep), bans) =
      let lower : Peer → Peer = λ q. record q { reputation = less_ten q.reputation } in
      let pm' = record pm { store = modify_at p lower pm.store } in
      let found' = find_at-modify_at p lower pm.store found in
      let rep' : less_ten peer.reputation ≡ (n + 1) * 246 % 256 = rw rep (less_ten_lem n) in
      let test : is_bad (less_ten peer.reputation) ≡ bans_at (n + 1) =
        rw rep' (is_bad-eq-bans_at (n + 1) few) in
      elim (Bool-cases (bans_at (n + 1))) [
        | inl bad ↦
            let (back, free', kept, banned) = ban_ip-done clock pm' free in
            rw (found', test, bad)
              (back, (free', (lower peer, ap (find_at p) kept ∙ found', rep'), banned))
        | inr good ↦ rw (found', test, good) (refl, (free, (lower peer, found', rep'), bans))
      ]

  offend-IsAfter :
      (times : List Clock) (peer : Peer) (pm : PeerManager x)
      → length times ≤ 30
      → pm.peers_lock ≡ false
      → find_at p pm.store ≡ some peer
      → peer.reputation ≡ 0
      → ((offend times pm).0 ≡ done tt)
        × IsAfter (length times) (last_ban times (find_key ip pm.bans)) (offend times pm).1
  unfolding offend IsAfter last_ban
  offend-IsAfter [] peer pm few free found rep = (refl, (free, (peer, found, rep), refl))
  offend-IsAfter (clock ∷ earlier) peer pm few free found rep =
      let (back, after) = offend-IsAfter earlier peer pm (omega (arith, few)) free found rep in
      let ban = last_ban earlier (find_key ip pm.bans) in
      let (back', after') =
        decrease-IsAfter clock (length earlier) ban (offend earlier pm).1 (omega (arith, few))
          after in
      ground (arith, back, back', after')

  -- Of at most thirty offences of a peer with reputation 0, at any times, each of the fifth to the
  -- twelfth bans its address for 72 hours from then, whether it was banned or not, and no other one
  -- changes its ban. The lock of the peers is free.
  pub offend_bans :
      (times : List Clock) (peer : Peer) (pm : PeerManager x)
      → length times ≤ 30
      → pm.peers_lock ≡ false
      → find_at p pm.store ≡ some peer
      → peer.reputation ≡ 0
      → ((offend times pm).0 ≡ done tt)
        × (find_key ip (offend times pm).1.bans ≡ last_ban times (find_key ip pm.bans))
  unfolding IsAfter
  offend_bans times peer pm few free found rep =
      let (back, (free', found', bans)) = offend-IsAfter times peer pm few free found rep in
      (back, bans)
