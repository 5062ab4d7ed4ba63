-- ===== src/Backups/Order.antt =====
-- 111/src/db.rs `rotate_backups`: the order of the backups by age.
use abc.Backups.{File, backups_of, insert_by_age, sort_by_age, newest_first}
use abc.Prelude.{
  min, ℕ, zero, suc, ◌+◌, ◌≤◌, ◌≡◌, refl, ap, ◌∙◌, List, [], ◌∷◌, length, take, drop, leb, arith,
  Bool-cases, inl, inr,
}
use mathlib.Core.List.{reverse, reverse_aux}

-- Every file is at most, or at least, as new as this.
abbrev pub AllUpTo : ℕ → List File → Type 0
AllUpTo t [] = Unit {0}
AllUpTo t (f ∷ fs) = (f.modified ≤ t) × AllUpTo t fs

abbrev AllFrom : ℕ → List File → Type 0
AllFrom t [] = Unit {0}
AllFrom t (f ∷ fs) = (t ≤ f.modified) × AllFrom t fs

abbrev IsAscending : List File → Type 0
IsAscending [] = Unit {0}
IsAscending (f ∷ fs) = AllFrom f.modified fs × IsAscending fs

abbrev IsDescending : List File → Type 0
IsDescending [] = Unit {0}
IsDescending (f ∷ fs) = AllUpTo f.modified fs × IsDescending fs

AllFrom-weaken : (s t : ℕ) (fs : List File) → s ≤ t → AllFrom t fs → AllFrom s fs
AllFrom-weaken s t [] h a = tt
AllFrom-weaken s t (f ∷ fs) h (a, as') = (omega arith, AllFrom-weaken s t fs h as')

insert_by_age-AllFrom :
    (t : ℕ) (f : File) (fs : List File)
    → t ≤ f.modified
    → AllFrom t fs
    → AllFrom t (insert_by_age f fs)
unfolding insert_by_age
insert_by_age-AllFrom t f [] h a = (h, tt)
insert_by_age-AllFrom t f (g ∷ gs) h (a, as') = elim (Bool-cases (leb f.modified g.modified)) [
  | inl first ↦ rw first (h, (a, as'))
  | inr later ↦ rw later (a, insert_by_age-AllFrom t f gs h as')
]

insert_by_age-IsAscending :
    (f : File) (fs : List File) → IsAscending fs → IsAscending (insert_by_age f fs)
unfolding insert_by_age
insert_by_age-IsAscending f [] h = (tt, tt)
insert_by_age-IsAscending f (g ∷ gs) (a, h) = elim (Bool-cases (leb f.modified g.modified)) [
  | inl first ↦
      let less : f.modified ≤ g.modified = ground (arith, first) in
      rw first ((less, AllFrom-weaken f.modified g.modified gs less a), (a, h))
  | inr later ↦
      let more : g.modified ≤ f.modified = ground (arith, later) in
      rw later (insert_by_age-AllFrom g.modified f gs more a, insert_by_age-IsAscending f gs h)
]

sort_by_age-IsAscending : (fs : List File) → IsAscending (sort_by_age fs)
unfolding sort_by_age
sort_by_age-IsAscending [] = tt
sort_by_age-IsAscending (f ∷ fs) =
    insert_by_age-IsAscending f (sort_by_age fs) (sort_by_age-IsAscending fs)

AllUpTo-weaken : (s t : ℕ) (fs : List File) → s ≤ t → AllUpTo s fs → AllUpTo t fs
AllUpTo-weaken s t [] h a = tt
AllUpTo-weaken s t (f ∷ fs) h (a, as') = (omega arith, AllUpTo-weaken s t fs h as')

-- No file of the second list is newer than the first of the other one.
abbrev CapsBy : List File → List File → Type 0
CapsBy [] r = Unit {0}
CapsBy (f ∷ fs) r = AllUpTo f.modified r

CapsBy-next :
    (f : File) (fs r : List File) → AllFrom f.modified fs → AllUpTo f.modified r → CapsBy fs (f ∷ r)
CapsBy-next f [] r a u = tt
CapsBy-next f (g ∷ gs) r (a, as') u = (a, AllUpTo-weaken f.modified g.modified r a u)

CapsBy-none : (fs : List File) → CapsBy fs []
CapsBy-none [] = tt
CapsBy-none (f ∷ fs) = tt

reverse_aux-IsDescending :
    (fs r : List File)
    → IsAscending fs
    → IsDescending r
    → CapsBy fs r
    → IsDescending (reverse_aux fs r)
reverse_aux-IsDescending [] r a d c = d
reverse_aux-IsDescending (f ∷ fs) r (a, as') d c =
    reverse_aux-IsDescending fs (f ∷ r) as' (c, d) (CapsBy-next f fs r a c)

length-reverse_aux : (fs r : List File) → length (reverse_aux fs r) ≡ length fs + length r
length-reverse_aux [] r = omega arith
length-reverse_aux (f ∷ fs) r = length-reverse_aux fs (f ∷ r) ∙ omega arith

length-insert_by_age : (f : File) (fs : List File) → length (insert_by_age f fs) ≡ length fs + 1
unfolding insert_by_age
length-insert_by_age f [] = refl
length-insert_by_age f (g ∷ gs) = ground (arith, length-insert_by_age f gs)

length-sort_by_age : (fs : List File) → length (sort_by_age fs) ≡ length fs
unfolding sort_by_age
length-sort_by_age [] = refl
length-sort_by_age (f ∷ fs) =
    let longer = length-insert_by_age f (sort_by_age fs) in
    let same = length-sort_by_age fs in omega arith

-- No file of the second list is newer than one of the first.
abbrev pub AreNewer : List File → List File → Type 0
AreNewer [] olds = Unit {0}
AreNewer (f ∷ fs) olds = AllUpTo f.modified olds × AreNewer fs olds

AllUpTo-drop : (t k : ℕ) (fs : List File) → AllUpTo t fs → AllUpTo t (drop k fs)
AllUpTo-drop t zero fs a = a
AllUpTo-drop t (suc k) [] a = tt
AllUpTo-drop t (suc k) (f ∷ fs) (a, as') = AllUpTo-drop t k fs as'

take-AreNewer : (k : ℕ) (fs : List File) → IsDescending fs → AreNewer (take k fs) (drop k fs)
take-AreNewer zero fs d = tt
take-AreNewer (suc k) [] d = tt
take-AreNewer (suc k) (f ∷ fs) (a, d) = (AllUpTo-drop f.modified k fs a, take-AreNewer k fs d)

length-take : (k : ℕ) (fs : List File) → length (take k fs) ≡ min k (length fs)
length-take zero fs = ground arith
length-take (suc k) [] = ground arith
length-take (suc k) (f ∷ fs) = ground (arith, length-take k fs)

-- The first of the backups by age are newer than the others, and as many as are to be kept.
pub newest_first-AreNewer :
    (keep : ℕ) (files : List File)
    → AreNewer (take keep (newest_first files)) (drop keep (newest_first files))
      × (length (take keep (newest_first files)) ≡ min keep (length (backups_of files)))
unfolding newest_first
newest_first-AreNewer keep files =
    let sorted = sort_by_age (backups_of files) in
    let whole = length-reverse_aux sorted [] in
    let same = length-sort_by_age (backups_of files) in
    (
      take-AreNewer keep (reverse sorted) (
          reverse_aux-IsDescending sorted [] (sort_by_age-IsAscending (backups_of files)) tt
            (CapsBy-none sorted)),
      length-take keep (reverse sorted) ∙ ap (λ n. min keep n) (omega arith),
    )
