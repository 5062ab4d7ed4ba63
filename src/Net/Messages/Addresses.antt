-- ===== src/Net/Messages/Addresses.antt =====
-- 111/src/net.rs `handle_message`, a message of addresses: what is known afterwards.
use abc.Bytes.{Bytes, eq_bytes}
use abc.Bytes.Laws.{eq_bytes_iff, eq_bytes_refl}
use abc.Net.Messages.{contains_addr, learn}
use abc.Prelude.{◌≡◌, refl, true, false, ◌||◌, List, [], ◌∷◌, ◌++◌, arith, Bool-cases, inl, inr}

-- No address is known twice.
abbrev pub IsDistinct : List Bytes → Type 0
IsDistinct [] = Unit {0}
IsDistinct (a ∷ as') = (contains_addr a as' ≡ false) × IsDistinct as'

contains_addr-append :
    (a : Bytes) (as' bs : List Bytes)
    → contains_addr a (as' ++ bs) ≡ contains_addr a as' || contains_addr a bs
unfolding contains_addr
contains_addr-append a [] bs = refl
contains_addr-append a (b ∷ as') bs = grind (arith, contains_addr-append a as' bs)

-- Afterwards an address is known if it was known before or stands in the message.
pub contains_addr-learn :
    (a : Bytes) (addrs known : List Bytes)
    → contains_addr a (learn addrs known) ≡ contains_addr a known || contains_addr a addrs
unfolding learn contains_addr
contains_addr-learn a [] known = ground arith
contains_addr-learn a (b ∷ addrs) known =
    let rest = contains_addr-learn a addrs in
    let same : eq_bytes a b ≡ true → a ≡ b = (eq_bytes_iff a b).0 in
    let longer = contains_addr-append a known (b ∷ []) in grind (arith, rest, same, longer)

IsDistinct-append :
    (as' : List Bytes) (b : Bytes)
    → IsDistinct as'
    → contains_addr b as' ≡ false
    → IsDistinct (as' ++ (b ∷ []))
unfolding contains_addr
IsDistinct-append [] b d h = (refl, tt)
IsDistinct-append (a ∷ as') b (absent, d) h =
    let rest = IsDistinct-append as' b d in
    let longer = contains_addr-append a as' (b ∷ []) in
    let same : eq_bytes a b ≡ true → a ≡ b = (eq_bytes_iff a b).0 in
    let itself = eq_bytes_refl b in
    (grind (arith, h, absent, longer, same, itself), rest (ground (arith, h)))

-- No address comes to be known twice.
pub learn-IsDistinct :
    (addrs known : List Bytes) → IsDistinct known → IsDistinct (learn addrs known)
unfolding learn
learn-IsDistinct [] known d = d
learn-IsDistinct (a ∷ addrs) known d = elim (Bool-cases (contains_addr a known)) [
  | inl old ↦ rw old (learn-IsDistinct addrs known d)
  | inr fresh ↦
      rw fresh (learn-IsDistinct addrs (known ++ (a ∷ [])) (IsDistinct-append known a d fresh))
]
