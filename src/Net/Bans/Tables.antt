-- ===== src/Net/Bans/Tables.antt =====
-- 111/src/net.rs: a table of bans as the time until which each address is banned.
use abc.Bytes.{eq_bytes}
use abc.Bytes.Laws.{eq_bytes_iff, eq_bytes_refl}
use abc.Maps.{find_key, insert_key, is_some}
use abc.Maps.Laws.{find_key-insert_key}
use abc.Net.{IpAddr, retain_bans}
use abc.Prelude.{
  Bool-cases, inl, inr, ℕ, ◌≤◌, ◌≡◌, refl, true, false, Option, none, some, List, [], ◌∷◌, ltb,
  if◌then◌else◌, arith,
}

-- No key stands twice.
abbrev IsMap : List (IpAddr × ℕ) → Type 0
IsMap [] = Unit {0}
IsMap ((ip, e) ∷ m) = (find_key ip m ≡ none) × IsMap m

abbrev or_never : Option ℕ → ℕ
or_never none = 0
or_never (some e) = e

-- From the time `t` on, the table bans an address as long as `until` does.
pub Shows : ℕ → (IpAddr → ℕ) → List (IpAddr × ℕ) → Type 0
Shows t until m =
    IsMap m × ((ip : IpAddr) (s : ℕ) → t ≤ s → ltb s (or_never (find_key ip m)) ≡ ltb s (until ip))

unless_over : ℕ → Option ℕ → Option ℕ
unless_over t none = none
unless_over t (some e) = if ltb t e then some e else none

find_key-retain_bans :
    (t : ℕ) (ip : IpAddr) (m : List (IpAddr × ℕ))
    → IsMap m
    → find_key ip (retain_bans t m) ≡ unless_over t (find_key ip m)
unfolding find_key retain_bans unless_over
find_key-retain_bans t ip [] h = refl
find_key-retain_bans t ip ((j, e) ∷ m) (absent, h) =
    let same : eq_bytes ip j ≡ true → ip ≡ j = (eq_bytes_iff ip j).0 in
    grind (arith, find_key-retain_bans t ip m h, absent, same)

retain_bans-IsMap : (t : ℕ) (m : List (IpAddr × ℕ)) → IsMap m → IsMap (retain_bans t m)
unfolding retain_bans unless_over
retain_bans-IsMap t [] h = tt
retain_bans-IsMap t ((j, e) ∷ m) (absent, h) =
    let rest = retain_bans-IsMap t m h in
    let gone = find_key-retain_bans t j m h in
    elim (Bool-cases (ltb t e)) [
      | inl kept ↦ rw kept (rw absent at gone, rest)
      | inr over ↦ rw over rest
    ]

find_key_apart :
    (k j : IpAddr) (e : ℕ) (m : List (IpAddr × ℕ))
    → find_key j m ≡ none
    → eq_bytes k j ≡ false
    → find_key j (insert_key k e m) ≡ none
find_key_apart k j e m absent apart =
    let same : eq_bytes j k ≡ true → j ≡ k = (eq_bytes_iff j k).0 in
    let itself = eq_bytes_refl k in grind (arith, find_key-insert_key j k e m, same, itself)

insert_key-IsMap : (k : IpAddr) (e : ℕ) (m : List (IpAddr × ℕ)) → IsMap m → IsMap (insert_key k e m)
unfolding insert_key find_key
insert_key-IsMap k e [] h = (refl, tt)
insert_key-IsMap k e ((j, d) ∷ m) (absent, h) = elim (Bool-cases (eq_bytes k j)) [
  | inl same ↦ rw same (absent, h)
  | inr apart ↦ rw apart (find_key_apart k j e m absent apart, insert_key-IsMap k e m h)
]

pub Shows-insert :
    (t t' : ℕ) (until : IpAddr → ℕ) (k : IpAddr) (e : ℕ) (m : List (IpAddr × ℕ))
    → Shows t until m
    → t ≤ t'
    → Shows t' (λ j. if eq_bytes j k then e else until j) (insert_key k e m)
unfolding Shows
Shows-insert t t' until k e m (h, agrees) o = (
  insert_key-IsMap k e m h,
  λ ip s l. grind (arith, find_key-insert_key ip k e m, agrees ip s (omega arith)),
)

pub Shows-retain :
    (t t' : ℕ) (until : IpAddr → ℕ) (m : List (IpAddr × ℕ))
    → Shows t until m
    → t ≤ t'
    → Shows t' until (retain_bans t' m)
unfolding Shows unless_over
Shows-retain t t' until m (h, agrees) o = (
  retain_bans-IsMap t' m h,
  λ ip s l. grind (arith, find_key-retain_bans t' ip m h, agrees ip s (omega arith)),
)

-- What a table that has just been cleared of old bans answers.
pub Shows-answer :
    (t t' : ℕ) (until : IpAddr → ℕ) (m : List (IpAddr × ℕ)) (ip : IpAddr)
    → Shows t until m
    → t ≤ t'
    → is_some (find_key ip (retain_bans t' m)) ≡ ltb t' (until ip)
unfolding Shows unless_over
Shows-answer t t' until m ip (h, agrees) o =
    grind (arith, find_key-retain_bans t' ip m h, agrees ip t' o)

pub Shows-none : Shows 0 (λ j. 0) []
unfolding Shows find_key
Shows-none = (tt, λ ip s l. refl)
