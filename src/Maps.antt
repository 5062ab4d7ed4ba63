-- ===== src/Maps.antt =====
-- Hash maps and ordered maps of the source as lists of entries; a lookup gives the first one. The
-- order of the list stands for the order in which a map is walked.
pub mod Laws
use abc.Bytes.{eq_bytes}
use abc.Prelude.{
  ◌≡◌, refl, ℕ, Bool, true, false, Option, none, some, List, [], ◌∷◌, ◌==◌, if◌then◌else◌,
}
use abc.Types.{Hash}

-- `map.get(key)`
unfoldable pub find_key {ℓ} : {V : Type ℓ} → Hash → List (Hash × V) → Option V
find_key key [] = none
find_key key ((k, v) ∷ m) = if eq_bytes key k then some v else find_key key m

-- `map.remove(key)`
unfoldable pub erase_key {ℓ} : {V : Type ℓ} → Hash → List (Hash × V) → List (Hash × V)
erase_key key [] = []
erase_key key ((k, v) ∷ m) = if eq_bytes key k then m else (k, v) ∷ erase_key key m

-- `map.insert(key, value)`: the entry is replaced where it stands.
unfoldable pub insert_key {ℓ} : {V : Type ℓ} → Hash → V → List (Hash × V) → List (Hash × V)
insert_key key v [] = (key, v) ∷ []
insert_key key v ((k, w) ∷ m) = if eq_bytes key k then (k, v) ∷ m else (k, w) ∷ insert_key key v m

-- `map.contains_key(key)`
abbrev pub is_some {ℓ} : {V : Type ℓ} → Option V → Bool
is_some none = false
is_some (some v) = true

-- The same for numbers as keys.
unfoldable pub find_at {ℓ} : {V : Type ℓ} → ℕ → List (ℕ × V) → Option V
find_at key [] = none
find_at key ((k, v) ∷ m) = if key == k then some v else find_at key m

unfoldable pub erase_at {ℓ} : {V : Type ℓ} → ℕ → List (ℕ × V) → List (ℕ × V)
erase_at key [] = []
erase_at key ((k, v) ∷ m) = if key == k then m else (k, v) ∷ erase_at key m

unfoldable pub insert_at {ℓ} : {V : Type ℓ} → ℕ → V → List (ℕ × V) → List (ℕ × V)
insert_at key v [] = (key, v) ∷ []
insert_at key v ((k, w) ∷ m) = if key == k then (k, v) ∷ m else (k, w) ∷ insert_at key v m

pub is_some-eq-false {ℓ} : {V : Type ℓ} {o : Option V} → is_some o ≡ false → o ≡ none
is_some-eq-false {o = none} h = refl
is_some-eq-false {o = some v} h = cc h
