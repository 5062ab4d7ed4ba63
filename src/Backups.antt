-- ===== src/Backups.antt =====
-- 111/src/db.rs `rotate_backups`: which files of a directory are removed. A file is its name and the
-- time of its last change, which counts as 0 when it cannot be read; what the system answers to a
-- removal is an argument.
pub mod Order
pub mod Names
pub mod Rotate
mod Tests
use abc.Bytes.{Bytes, starts_with, eq_bytes}
use abc.Errors.{anyhow}
use abc.Methods.{Method, Outcome, ◌>>=◌, ◌>>◌, change, fail_if, pure}
use abc.Prelude.{
  ℕ, ◌-◌, Bool, true, false, not, ◌&&◌, ◌||◌, List, [], ◌∷◌, ◌++◌, length, take, drop, leb,
  if◌then◌else◌,
}
use mathlib.Core.List.{reverse}

pub record File : Type 0 where
  pub name : Bytes
  pub modified : ℕ

-- `name.contains(part)` and `name.ends_with(suffix)`
unfoldable pub contains_part : Bytes → Bytes → Bool
contains_part part [] = starts_with part []
contains_part part (b ∷ bs) = starts_with part (b ∷ bs) || contains_part part bs

abbrev pub ends_with : Bytes → Bytes → Bool
ends_with suffix name =
    leb (length suffix) (length name) && eq_bytes (drop (length name - length suffix) name) suffix

-- "_checkpoint_" and ".zip"
abbrev pub checkpoint_part : Bytes
checkpoint_part =
    b'_' ∷ b'c' ∷ b'h' ∷ b'e' ∷ b'c' ∷ b'k' ∷ b'p' ∷ b'o' ∷ b'i' ∷ b'n' ∷ b't' ∷ b'_' ∷ []

abbrev pub zip_suffix : Bytes
zip_suffix = b'.' ∷ b'z' ∷ b'i' ∷ b'p' ∷ []

abbrev pub is_backup : Bytes → Bool
is_backup name = contains_part checkpoint_part name && ends_with zip_suffix name

unfoldable pub backups_of : List File → List File
backups_of [] = []
backups_of (f ∷ fs) = let rest = backups_of fs in if is_backup f.name then f ∷ rest else rest

-- `sort_by_key(modified)`, which is stable.
unfoldable pub insert_by_age : File → List File → List File
insert_by_age f [] = f ∷ []
insert_by_age f (g ∷ gs) = if leb f.modified g.modified then f ∷ g ∷ gs else g ∷ insert_by_age f gs

unfoldable pub sort_by_age : List File → List File
sort_by_age [] = []
sort_by_age (f ∷ fs) = insert_by_age f (sort_by_age fs)

-- The backups, the newest first.
unfoldable pub newest_first : List File → List File
newest_first files = reverse (sort_by_age (backups_of files))

-- `old.with_extension("sig")` of a name that ends in ".zip".
abbrev pub sig_of : Bytes → Bytes
sig_of name = take (length name - 3) name ++ (b's' ∷ b'i' ∷ b'g' ∷ [])

unfoldable pub without_name : Bytes → List File → List File
without_name name [] = []
without_name name (f ∷ fs) =
    let rest = without_name name fs in if eq_bytes f.name name then rest else f ∷ rest

module _ (removes : Bytes → Bool) where
  -- `for old in files.iter().skip(keep)`; a signature that cannot be removed stays.
  unfoldable pub remove_each : List File → Method (List File) (Unit {0})
  remove_each [] = pure tt
  remove_each (old ∷ olds) = do
    fail_if (not (removes old.name)) (anyhow "remove_file")
    change (without_name old.name)
    change
        (λ files. if removes (sig_of old.name) then without_name (sig_of old.name) files else files)
    remove_each olds

  unfoldable pub rotate_backups : ℕ → Method (List File) (Unit {0})
  rotate_backups keep files = remove_each (drop keep (newest_first files)) files
