-- ===== src/Backups/Tests.antt =====
-- A directory of three backups, a signature and another file.
use abc.Backups.{
  contains_part, insert_by_age, sort_by_age, without_name, remove_each, File, checkpoint_part,
  zip_suffix, sig_of, backups_of, newest_first, rotate_backups,
}
use abc.Backups.Names.{has_name}
use abc.Backups.Order.{AreNewer}
use abc.Backups.Rotate.{rotate_backups-AreNewer}
use abc.Bytes.{eq_bytes, Bytes}
use abc.Methods.{done}
use abc.Prelude.{ℕ, ◌≡◌, refl, not, ◌&&◌, true, List, [], ◌∷◌, ◌++◌, length, take, drop, min}

program : Unit {0}
unfolding contains_part backups_of insert_by_age sort_by_age newest_first without_name remove_each
    rotate_backups eq_bytes
program = tt

abbrev name_of : ℕ → Bytes
name_of n = (n ∷ []) ++ (checkpoint_part ++ zip_suffix)

abbrev file : Bytes → ℕ → File
file name time = record { name = name; modified = time }

abbrev files : List File
files =
    file (name_of 1) 10
    ∷ file (name_of 2) 30
    ∷ file (sig_of (name_of 1)) 10
    ∷ file (3 ∷ []) 5
    ∷ file (name_of 3) 20
    ∷ []

-- The oldest backup goes, with its signature.
rotated :
    rotate_backups (λ name. true) 2 files
    ≡ (done tt, file (name_of 2) 30 ∷ file (3 ∷ []) 5 ∷ file (name_of 3) 20 ∷ [])
unfolding program
rotated = refl

rotates :
    rotate_backups (λ name. true) 2 files ≡ (done tt, (rotate_backups (λ name. true) 2 files).1)
unfolding program
rotates = refl

rotate_backups-AreNewer_example :
    ((name : Bytes)
      → has_name name (backups_of (rotate_backups (λ n. true) 2 files).1)
        ≡ (has_name name (backups_of files) && not (has_name name (drop 2 (newest_first files)))))
    × AreNewer (backups_of (rotate_backups (λ n. true) 2 files).1) (drop 2 (newest_first files))
    × (length (take 2 (newest_first files)) ≡ min 2 (length (backups_of files)))
rotate_backups-AreNewer_example =
    rotate_backups-AreNewer (λ n. true) 2 files (rotate_backups (λ n. true) 2 files).1 rotates
