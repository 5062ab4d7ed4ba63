-- ===== src/Validation/Outpoints.antt =====
-- The set of outpoints seen so far, as a statement about the inputs.
use abc.Prelude.{
  ℕ, refl, sym, ap, ◌↔◌, ◌≡◌, ◌≢◌, false, ◌&&◌, List, [], ◌∷◌, ◌==◌, Bool-cases, inl, inr, arith,
}
use abc.Bytes.{eq_bytes}
use abc.Bytes.Laws.{eq_bytes_iff}
use abc.Types.{Hash, TxInput}
use abc.Validation.{contains_outpoint}

abbrev pub All {ℓ κ} : {A : Type ℓ} → (A → Type κ) → List A → Type κ
All P [] = Unit
All P (a ∷ as') = P a × All P as'

abbrev pub outpoint : TxInput → Hash × ℕ
outpoint i = (i.txid, i.vout)

-- No entry comes again further on.
abbrev pub Distinct : List (Hash × ℕ) → Type 0
Distinct [] = Unit
Distinct (p ∷ ps) = All (λ q. p ≢ q) ps × Distinct ps

pair_path : {t t' : Hash} {v v' : ℕ} → t ≡ t' → v ≡ v' → ◌≡◌ {A = Hash × ℕ} (t, v) (t', v')
pair_path p q = λ i. (p i, q i)

differs :
    (t : Hash) (v : ℕ) (t' : Hash) (v' : ℕ)
    → ◌≡◌ {A = Hash × ℕ} (t, v) (t', v')
    → (eq_bytes t t' && v == v') ≡ false
    → ⊥
differs t v t' v' e h =
    let same : t ≡ t' = ap (λ (p : Hash × ℕ). p.0) e in
    let also : v ≡ v' = ap (λ (p : Hash × ℕ). p.1) e in ground (arith, eq_bytes_iff t t')

pub contains_outpoint-false :
    (t : Hash) (v : ℕ) (seen : List (Hash × ℕ))
    → contains_outpoint t v seen ≡ false
    → All (λ q. (t, v) ≢ q) seen
unfolding contains_outpoint
contains_outpoint-false t v [] h = tt
contains_outpoint-false t v ((t', v') ∷ seen) h =
    (λ e. differs t v t' v' e (ground arith), contains_outpoint-false t v seen (ground arith))

pub contains_outpoint-of-ne :
    (t : Hash) (v : ℕ) (seen : List (Hash × ℕ))
    → All (λ q. (t, v) ≢ q) seen
    → contains_outpoint t v seen ≡ false
unfolding contains_outpoint
contains_outpoint-of-ne t v [] h = refl
contains_outpoint-of-ne t v ((t', v') ∷ seen) (ne, h) =
    elim (Bool-cases (eq_bytes t t' && v == v')) [
      | inl same ↦ absurd (ne (pair_path ((eq_bytes_iff t t').0 (ground arith)) (ground arith)))
      | inr other ↦ rw other (contains_outpoint-of-ne t v seen h)
    ]

-- What the first loop asks of the outpoints: each differs from all those before it.
abbrev pub Fresh : List (Hash × ℕ) → List (Hash × ℕ) → Type 0
Fresh seen [] = Unit
Fresh seen (p ∷ ps) = All (λ q. p ≢ q) seen × Fresh (p ∷ seen) ps

abbrev Apart : List (Hash × ℕ) → List (Hash × ℕ) → Type 0
Apart seen = All (λ q. All (λ r. q ≢ r) seen)

Apart-split :
    (p : Hash × ℕ) (seen ps : List (Hash × ℕ))
    → Apart (p ∷ seen) ps
    → All (λ q. p ≢ q) ps × Apart seen ps
Apart-split p seen [] h = (tt, tt)
Apart-split p seen (q ∷ ps) ((ne, a), h) =
    let (d, r) = Apart-split p seen ps h in ((λ e. ne (sym e), d), (a, r))

Apart-join :
    (p : Hash × ℕ) (seen ps : List (Hash × ℕ))
    → All (λ q. p ≢ q) ps
    → Apart seen ps
    → Apart (p ∷ seen) ps
Apart-join p seen [] d h = tt
Apart-join p seen (q ∷ ps) (ne, d) (a, h) = ((λ e. ne (sym e), a), Apart-join p seen ps d h)

Fresh-split : (seen ps : List (Hash × ℕ)) → Fresh seen ps → Distinct ps × Apart seen ps
Fresh-split seen [] h = (tt, tt)
Fresh-split seen (p ∷ ps) (a, h) =
    let (d, r) = Fresh-split (p ∷ seen) ps h in
    let (ne, rest) = Apart-split p seen ps r in ((ne, d), (a, rest))

Fresh-join : (seen ps : List (Hash × ℕ)) → Distinct ps → Apart seen ps → Fresh seen ps
Fresh-join seen [] d h = tt
Fresh-join seen (p ∷ ps) (ne, d) (a, h) =
    (a, Fresh-join (p ∷ seen) ps d (Apart-join p seen ps ne h))

Apart-nil : (ps : List (Hash × ℕ)) → Apart [] ps
Apart-nil [] = tt
Apart-nil (p ∷ ps) = (tt, Apart-nil ps)

-- From an empty set, that is to have no outpoint twice.
pub Fresh-nil_iff : (ps : List (Hash × ℕ)) → Fresh [] ps ↔ Distinct ps
Fresh-nil_iff ps = (λ h. (Fresh-split [] ps h).0, λ d. Fresh-join [] ps d (Apart-nil ps))
