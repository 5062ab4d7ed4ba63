-- ===== src/Backups/Rotate.antt =====
-- 111/src/db.rs `rotate_backups`: which backups a rotation leaves.
use abc.Backups.{
  File, is_backup, backups_of, insert_by_age, sort_by_age, newest_first, sig_of, without_name,
  remove_each, rotate_backups,
}
use abc.Backups.Names.{has_name, has_name-without_name, has_name-backups_of, is_backup-sig_of}
use abc.Backups.Order.{AllUpTo, AreNewer, newest_first-AreNewer}
use abc.Bytes.{Bytes, eq_bytes}
use abc.Bytes.Laws.{eq_bytes_iff, eq_bytes_refl}
use abc.Methods.{done}
use abc.Prelude.{
  ap, ◌∙◌, ℕ, zero, suc, ◌≡◌, Bool, true, false, not, ◌&&◌, ◌⊎◌, List, [], ◌∷◌, take, drop, leb,
  if◌then◌else◌, arith, Bool-cases, inl, inr, min, length,
}
use mathlib.Core.List.{reverse_aux}

module _ (removes : Bytes → Bool) where
  -- One removal that the system allows.
  after_one : Bytes → List File → List File
  after_one name files =
      let left = without_name name files in
      if removes (sig_of name) then without_name (sig_of name) left else left

  remove_each-next :
      (old : File) (olds files : List File) {after : List File}
      → remove_each removes (old ∷ olds) files ≡ (done tt, after)
      → remove_each removes olds (after_one old.name files) ≡ (done tt, after)
  unfolding remove_each after_one
  remove_each-next old olds files h = ground (arith, h)

  has_name-after_one :
      (m n : Bytes) (files : List File)
      → has_name m (backups_of (after_one n files))
        ≡ (has_name m (backups_of files) && not (eq_bytes m n))
  unfolding after_one
  has_name-after_one m n files =
      let none_such = is_backup-sig_of n in
      let same : eq_bytes m (sig_of n) ≡ true → m ≡ sig_of n = (eq_bytes_iff m (sig_of n)).0 in
      grind (arith, has_name-backups_of, has_name-without_name, none_such, same)

  has_name-remove_each :
      (m : Bytes) (olds files : List File) {after : List File}
      → remove_each removes olds files ≡ (done tt, after)
      → has_name m (backups_of after) ≡ (has_name m (backups_of files) && not (has_name m olds))
  unfolding has_name remove_each
  has_name-remove_each m [] files h = rw (← ap (λ r. r.1) h) (ground arith)
  has_name-remove_each m (old ∷ olds) files h =
      let rest =
        has_name-remove_each m olds (after_one old.name files)
          (remove_each-next old olds files h) in
      let one = has_name-after_one m old.name files in
      rest ∙ (ap (λ b. b && not (has_name m olds)) one ∙ ground arith)

module _ (P : File → Type 0) where
  abbrev Every : List File → Type 0
  Every [] = Unit {0}
  Every (f ∷ fs) = P f × Every fs

  insert_by_age-Every : (f : File) (fs : List File) → Every (insert_by_age f fs) → P f × Every fs
  unfolding insert_by_age
  insert_by_age-Every f [] h = h
  insert_by_age-Every f (g ∷ gs) h = elim (Bool-cases (leb f.modified g.modified)) [
    | inl first ↦ rw first at h
    | inr later ↦
        let (pg, rest) = rw later at h in
        let (pf, ps) = insert_by_age-Every f gs rest in (pf, (pg, ps))
  ]

  sort_by_age-Every : (fs : List File) → Every (sort_by_age fs) → Every fs
  unfolding sort_by_age
  sort_by_age-Every [] h = tt
  sort_by_age-Every (f ∷ fs) h =
      let (pf, rest) = insert_by_age-Every f (sort_by_age fs) h in (pf, sort_by_age-Every fs rest)

  reverse_aux-Every : (fs r : List File) → Every (reverse_aux fs r) → Every fs × Every r
  reverse_aux-Every [] r h = (tt, h)
  reverse_aux-Every (f ∷ fs) r h =
      let (rest, (pf, pr)) = reverse_aux-Every fs (f ∷ r) h in ((pf, rest), pr)

  newest_first-Every : (files : List File) → Every (newest_first files) → Every (backups_of files)
  unfolding newest_first
  newest_first-Every files h =
      sort_by_age-Every (backups_of files)
        (reverse_aux-Every (sort_by_age (backups_of files)) [] h).0

  without_name-Every :
      (name : Bytes) (files : List File)
      → Every (backups_of files)
      → Every (backups_of (without_name name files))
  unfolding backups_of without_name
  without_name-Every name [] h = tt
  without_name-Every name (f ∷ fs) h = elim (Bool-cases (is_backup f.name)) [
    | inl is ↦
        let (pf, rest) = rw is at h in
        let kept = without_name-Every name fs rest in
        elim (Bool-cases (eq_bytes f.name name)) [
          | inl gone ↦ rw gone kept
          | inr stays ↦ rw (stays, is) (pf, kept)
        ]
    | inr not_one ↦
        let kept = without_name-Every name fs (rw not_one at h) in
        elim (Bool-cases (eq_bytes f.name name)) [
          | inl gone ↦ rw gone kept
          | inr stays ↦ rw (stays, not_one) kept
        ]
  ]

  remove_each-Every :
      (removes : Bytes → Bool) (olds files : List File) {after : List File}
      → remove_each removes olds files ≡ (done tt, after)
      → Every (backups_of files)
      → Every (backups_of after)
  unfolding after_one remove_each
  remove_each-Every removes [] files h e = rw (ap (λ r. r.1) h) at e
  remove_each-Every removes (old ∷ olds) files h e =
      let left = without_name-Every old.name files e in
      let both = without_name-Every (sig_of old.name) (without_name old.name files) left in
      let next = remove_each-next removes old olds files h in
      elim (Bool-cases (removes (sig_of old.name))) [
        | inl signed ↦
            remove_each-Every removes olds
              (without_name (sig_of old.name) (without_name old.name files)) (rw signed at next)
              both
        | inr not_signed ↦
            remove_each-Every removes olds (without_name old.name files) (rw not_signed at next)
              left
      ]

-- A file is one of these, by its name, or as new as each of them.
module _ (gone : List File) where
  IsLeft : File → Type 0
  IsLeft f = (has_name f.name gone ≡ true) ⊎ AllUpTo f.modified gone

  take-Every :
      (k : ℕ) (fs : List File)
      → AreNewer (take k fs) gone
      → Every IsLeft (drop k fs)
      → Every IsLeft fs
  unfolding IsLeft
  take-Every zero fs n e = e
  take-Every (suc k) [] n e = tt
  take-Every (suc k) (f ∷ fs) (a, n) e = (inr a, take-Every k fs n e)

  named-Every :
      (fs : List File)
      → ((m : Bytes) → has_name m fs ≡ true → has_name m gone ≡ true)
      → Every IsLeft fs
  unfolding IsLeft has_name
  named-Every [] h = tt
  named-Every (f ∷ fs) h =
      let own = eq_bytes_refl f.name in
      (
        inl (h f.name (ground (arith, own))),
        named-Every fs (λ m found. h m (ground (arith, found))),
      )

  Every-AreNewer :
      (fs : List File)
      → ((m : Bytes) → has_name m fs ≡ true → has_name m gone ≡ false)
      → Every IsLeft fs
      → AreNewer fs gone
  unfolding IsLeft has_name
  Every-AreNewer [] h e = tt
  Every-AreNewer (f ∷ fs) h (left, e) =
      let own = eq_bytes_refl f.name in
      let rest = Every-AreNewer fs (λ m found. h m (ground (arith, found))) e in
      elim left [
        | inl named ↦ absurd (ground (arith, named, h f.name (ground (arith, own))))
        | inr newer ↦ (newer, rest)
      ]

-- A rotation that comes back took out the backups from the number `keep` on, by age, and no other
-- backup: of each name a backup is left exactly if there was one and it was not among those. No backup
-- that it took out is newer than one that is left, and as many as are to be kept, or all, were not
-- taken out.
pub rotate_backups-AreNewer :
    (removes : Bytes → Bool) (keep : ℕ) (files after : List File)
    → rotate_backups removes keep files ≡ (done tt, after)
    → let gone = drop keep (newest_first files) in
      ((name : Bytes)
        → has_name name (backups_of after)
          ≡ (has_name name (backups_of files) && not (has_name name gone)))
      × AreNewer (backups_of after) gone
      × (length (take keep (newest_first files)) ≡ min keep (length (backups_of files)))
unfolding rotate_backups
rotate_backups-AreNewer removes keep files after h =
    let gone = drop keep (newest_first files) in
    let names : (m : Bytes)
        → has_name m (backups_of after) ≡ (has_name m (backups_of files) && not (has_name m gone)) =
      λ m. has_name-remove_each removes m gone files h in
    let (newer, count) = newest_first-AreNewer keep files in
    let all =
      take-Every gone keep (newest_first files) newer (named-Every gone gone (λ m found. found)) in
    let left =
      remove_each-Every (IsLeft gone) removes gone files h
        (newest_first-Every (IsLeft gone) files all) in
    (
      names,
      Every-AreNewer gone (backups_of after) (λ m found. ground (arith, found, names m)) left,
      count,
    )
