-- ===== src/Maps/Laws.antt =====
-- What is found in a map after an entry is put in.
use abc.Bytes.{eq_bytes}
use abc.Bytes.Laws.{eq_bytes_iff, eq_bytes_refl}
use abc.Maps.{find_key, insert_key, find_at, insert_at}
use abc.Prelude.{ℕ, ◌≡◌, refl, true, some, List, [], ◌∷◌, ◌==◌, if◌then◌else◌, arith}
use abc.Types.{Hash}

module _ {ℓ} {V : Type ℓ} where
  pub find_key-insert_key :
      (key k : Hash) (v : V) (m : List (Hash × V))
      → find_key key (insert_key k v m) ≡ (if eq_bytes key k then some v else find_key key m)
  unfolding find_key insert_key
  find_key-insert_key key k v [] = refl
  find_key-insert_key key k v ((j, w) ∷ m) =
      let same : eq_bytes k j ≡ true → k ≡ j = (eq_bytes_iff k j).0 in
      let at_key : eq_bytes key k ≡ true → key ≡ k = (eq_bytes_iff key k).0 in
      let at_entry : eq_bytes key j ≡ true → key ≡ j = (eq_bytes_iff key j).0 in
      let itself = eq_bytes_refl key in
      grind (arith, find_key-insert_key key k v m, same, at_key, at_entry, itself)

  pub find_at-insert_at :
      (key k : ℕ) (v : V) (m : List (ℕ × V))
      → find_at key (insert_at k v m) ≡ (if key == k then some v else find_at key m)
  unfolding find_at insert_at
  find_at-insert_at key k v [] = refl
  find_at-insert_at key k v ((j, w) ∷ m) = ground (arith, find_at-insert_at key k v m)
