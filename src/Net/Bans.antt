-- ===== src/Net/Bans.antt =====
-- 111/src/net.rs: the two tables of bans with what is asked of them, against the time until which
-- an address is banned.
pub mod Tables
use abc.Bytes.{eq_bytes}
use abc.External.{External}
use abc.Methods.{Method, Outcome, ◌>>=◌, ◌>>◌, pure, done}
use abc.Net.{
  IpAddr, Clock, PeerManager, PmMethod, is_banned, ban_ip, ban_ms, remove_peers, store_ban,
}
use abc.Net.Bans.Tables.{Shows, Shows-none, Shows-insert, Shows-retain, Shows-answer}
use abc.Net.Outside.{Wire}
use abc.Prelude.{
  ℕ, ◌+◌, ◌≤◌, ◌≡◌, refl, Bool, true, false, ◌||◌, List, [], ◌∷◌, ltb, if◌then◌else◌, arith,
}

-- A ban, or the question whether an address is banned.
pub data Request : Type 0 where
  ban ask : Clock → IpAddr → Request

-- The answers of a table that keeps a time for each address.
unfoldable pub promised : List Request → (IpAddr → ℕ) → List Bool
promised [] until = []
promised (ban clock ip ∷ rs) until =
    promised rs (λ j. if eq_bytes j ip then clock.instant + ban_ms else until j)
promised (ask clock ip ∷ rs) until = ltb clock.instant (until ip) ∷ promised rs until

-- The clock does not run backwards.
abbrev pub IsOrdered : ℕ → List Request → Type 0
IsOrdered t [] = Unit {0}
IsOrdered t (ban clock ip ∷ rs) = (t ≤ clock.instant) × IsOrdered clock.instant rs
IsOrdered t (ask clock ip ∷ rs) = (t ≤ clock.instant) × IsOrdered clock.instant rs

module _ (x : External) (w : Wire) (connects : Bool) where
  -- The answers of the node.
  unfoldable pub answers : List Request → PmMethod x (List Bool)
  answers [] = pure []
  answers (ban clock ip ∷ rs) = do ban_ip x w connects clock ip; answers rs
  answers (ask clock ip ∷ rs) = do
    banned ← is_banned x clock ip
    bs ← answers rs
    pure (banned ∷ bs)

  -- A node whose tables agree with these times, and of which no lock is held.
  pub Keeps : ℕ → (IpAddr → ℕ) → PeerManager x → Type 0
  Keeps t until pm =
      Shows t until pm.bans × Shows t until pm.bans_persistent × (pm.peers_lock ≡ false)

  ban_ip-Keeps :
      (t : ℕ) (until : IpAddr → ℕ) (clock : Clock) (ip : IpAddr) (pm : PeerManager x)
      → Keeps t until pm
      → t ≤ clock.instant
      → let r = ban_ip x w connects clock ip pm in
        (r.0 ≡ done tt)
        × Keeps clock.instant (λ j. if eq_bytes j ip then clock.instant + ban_ms else until j) r.1
  unfolding Keeps ban_ip remove_peers
  ban_ip-Keeps t until clock ip pm (now, later, free) o =
      let e = clock.instant + ban_ms in
      rw free (
        refl,
        (
          Shows-insert t clock.instant until ip e pm.bans now o,
          Shows-insert t clock.instant until ip e pm.bans_persistent later o,
          refl,
        ),
      )

  is_banned-Keeps :
      (t : ℕ) (until : IpAddr → ℕ) (clock : Clock) (ip : IpAddr) (pm : PeerManager x)
      → Keeps t until pm
      → t ≤ clock.instant
      → let r = is_banned x clock ip pm in
        (r.0 ≡ done (ltb clock.instant (until ip))) × Keeps clock.instant until r.1
  unfolding Keeps is_banned
  is_banned-Keeps t until clock ip pm (now, later, free) o =
      let first = Shows-answer t clock.instant until pm.bans ip now o in
      let second = Shows-answer t clock.instant until pm.bans_persistent ip later o in
      (
        rw (first, second) (ground arith),
        (
          Shows-retain t clock.instant until pm.bans now o,
          Shows-retain t clock.instant until pm.bans_persistent later o,
          free,
        ),
      )

  -- The node answers as a table does that keeps for each address the time until which it is banned,
  -- for requests at times that do not decrease.
  pub answers_refine :
      (rs : List Request) (t : ℕ) (until : IpAddr → ℕ) (pm : PeerManager x)
      → Keeps t until pm
      → IsOrdered t rs
      → (answers rs pm).0 ≡ done (promised rs until)
  unfolding answers promised
  answers_refine [] t until pm k o = refl
  answers_refine (ban clock ip ∷ rs) t until pm k (o, os) =
      let banned = ban_ip x w connects clock ip pm in
      let (back, k') = ban_ip-Keeps t until clock ip pm k o in
      let after : (j : IpAddr) → ℕ =
        λ j. if eq_bytes j ip then clock.instant + ban_ms else until j in
      let rest = answers_refine rs clock.instant after banned.1 k' os in ground (arith, back, rest)
  answers_refine (ask clock ip ∷ rs) t until pm k (o, os) =
      let asked = is_banned x clock ip pm in
      let (back, k') = is_banned-Keeps t until clock ip pm k o in
      let rest = answers_refine rs clock.instant until asked.1 k' os in ground (arith, back, rest)

  -- Without bans, no address is banned.
  pub Keeps-none :
      (pm : PeerManager x)
      → pm.bans ≡ []
      → pm.bans_persistent ≡ []
      → pm.peers_lock ≡ false
      → Keeps 0 (λ j. 0) pm
  unfolding Keeps
  Keeps-none pm now later free = (rw now Shows-none, rw later Shows-none, free)
