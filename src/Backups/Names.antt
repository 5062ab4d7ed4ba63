-- ===== src/Backups/Names.antt =====
-- 111/src/db.rs `rotate_backups`: the names of the files that are left.
use abc.Backups.{
  File, checkpoint_part, zip_suffix, contains_part, ends_with, is_backup, backups_of, sig_of,
  without_name,
}
use abc.Bytes.{Bytes, eq_bytes}
use abc.Bytes.Laws.{eq_bytes_iff, eq_bytes_refl}
use abc.Prelude.{
  length-append, ℕ, ◌+◌, ◌-◌, ◌≡◌, refl, Bool, true, false, not, ◌&&◌, ◌||◌, List, [], ◌∷◌, ◌++◌,
  length, take, drop, arith, Bool-cases, inl, inr,
}

-- A file of this name is there.
unfoldable pub has_name : Bytes → List File → Bool
has_name name [] = false
has_name name (f ∷ fs) = eq_bytes name f.name || has_name name fs

pub has_name-without_name :
    (m n : Bytes) (files : List File)
    → has_name m (without_name n files) ≡ (has_name m files && not (eq_bytes m n))
unfolding has_name without_name
has_name-without_name m n [] = refl
has_name-without_name m n (f ∷ fs) =
    let same : eq_bytes f.name n ≡ true → f.name ≡ n = (eq_bytes_iff f.name n).0 in
    let same' : eq_bytes m f.name ≡ true → m ≡ f.name = (eq_bytes_iff m f.name).0 in
    let same'' : eq_bytes m n ≡ true → m ≡ n = (eq_bytes_iff m n).0 in
    let own = eq_bytes_refl m in
    grind (arith, has_name-without_name m n fs, same, same', same'', own)

pub has_name-backups_of :
    (m : Bytes) (files : List File)
    → has_name m (backups_of files) ≡ (is_backup m && has_name m files)
unfolding has_name backups_of
has_name-backups_of m [] = elim (Bool-cases (is_backup m)) [
  | inl is ↦ rw is refl
  | inr not_one ↦ rw not_one refl
]
has_name-backups_of m (f ∷ fs) = elim (Bool-cases (eq_bytes m f.name)) [
  | inl here ↦
      let same = (eq_bytes_iff m f.name).0 here in
      elim (Bool-cases (is_backup f.name)) [
        | inl is ↦ rw (same, is, eq_bytes_refl f.name) refl
        | inr not_one ↦ rw (same, not_one) (rw (same, not_one) at (has_name-backups_of m fs))
      ]
  | inr other ↦ elim (Bool-cases (is_backup f.name)) [
    | inl is ↦ rw (is, other) (has_name-backups_of m fs)
    | inr not_one ↦ rw (not_one, other) (has_name-backups_of m fs)
  ]
]

abbrev sig_suffix : Bytes
sig_suffix = b's' ∷ b'i' ∷ b'g' ∷ []

-- The last four bytes of a name that ends in "sig".
last_four :
    (b : ℕ) (bs : Bytes) → eq_bytes (drop (length bs) (b ∷ (bs ++ sig_suffix))) zip_suffix ≡ false
unfolding eq_bytes
last_four b [] = ground arith
last_four b (c ∷ bs) = last_four c bs

not_zip : (bs : Bytes) → ends_with zip_suffix (bs ++ sig_suffix) ≡ false
unfolding eq_bytes
not_zip [] = refl
not_zip (b ∷ bs) =
    let size : length (bs ++ sig_suffix) ≡ length bs + 3 = length-append bs sig_suffix in
    let rest : length ((b ∷ bs) ++ sig_suffix) - 4 ≡ length bs = omega (arith, size) in
    let last = last_four b bs in rw (rest, last) (ground arith)

-- A signature is no backup.
pub is_backup-sig_of : (name : Bytes) → is_backup (sig_of name) ≡ false
is_backup-sig_of name =
    let ends = not_zip (take (length name - 3) name) in
    elim (Bool-cases (contains_part checkpoint_part (sig_of name))) [
      | inl contains ↦ rw (contains, ends) refl
      | inr without ↦ rw without refl
    ]
