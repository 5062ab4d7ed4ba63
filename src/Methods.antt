-- ===== src/Methods.antt =====
-- The state of an object that a method changes, also when it fails: a method maps the object to
-- what it comes back with and the object that it leaves.
use abc.Errors.{ChainError, Result, ok, err, panicked}
use abc.Prelude.{◌≡◌, refl, ap, Bool, true, false, ◌⊎◌, inl, inr}

-- `blocked` is a call that waits for ever.
pub data Outcome (A : Type 0) : Type 0 where
  done : A → Outcome A
  failed : ChainError → Outcome A
  crashed blocked : Outcome A

abbrev pub Method : Type 0 → Type 0 → Type 0
Method S A = S → Outcome A × S

abbrev pub pure : {S A : Type 0} → A → Method S A
pure a s = (done a, s)

-- What follows a call that came back like this.
abbrev pub proceed : {S A B : Type 0} → Outcome A × S → (A → Method S B) → Outcome B × S
proceed (done a, s) next = next a s
proceed (failed e, s) next = (failed e, s)
proceed (crashed, s) next = (crashed, s)
proceed (blocked, s) next = (blocked, s)

-- `?` on a method.
infixl 5 ◌>>=◌
abbrev pub ◌>>=◌ : {S A B : Type 0} → Method S A → (A → Method S B) → Method S B
◌>>=◌ first next s = proceed (first s) next

infixl 5 ◌>>◌
abbrev pub ◌>>◌ : {S B : Type 0} → Method S (Unit {0}) → Method S B → Method S B
first >> next = first >>= λ done. next

abbrev pub outcome_of : {A : Type 0} → Result A → Outcome A
outcome_of (ok a) = done a
outcome_of (err e) = failed e
outcome_of panicked = crashed

-- A call that leaves the object as it is.
abbrev pub call : {S A : Type 0} → Result A → Method S A
call r s = (outcome_of r, s)

abbrev pub read : {S : Type 0} → Method S S
read s = (done s, s)

abbrev pub change : {S : Type 0} → (S → S) → Method S (Unit {0})
change f s = (done tt, f s)

-- A lock that someone else holds.
abbrev pub wait_if : {S : Type 0} → Bool → Method S (Unit {0})
wait_if true s = (blocked, s)
wait_if false s = (done tt, s)

abbrev pub fail_if : {S : Type 0} → Bool → ChainError → Method S (Unit {0})
fail_if true e s = (failed e, s)
fail_if false e s = (done tt, s)

-- `result.is_err()`
abbrev pub is_failed : {A : Type 0} → Outcome A → Bool
is_failed (failed e) = true
is_failed _ = false

-- `if call.await.is_err() { handler; return } next`
abbrev pub caught : {S A B : Type 0} → Outcome A × S → Method S B → Method S B → Outcome B × S
caught (done a, s) handler next = next s
caught (failed e, s) handler next = handler s
caught (crashed, s) handler next = (crashed, s)
caught (blocked, s) handler next = (blocked, s)

pub proceed-eq-done :
    {S A B : Type 0} (r : Outcome A × S) (next : A → Method S B) {b : B} {t : S}
    → proceed r next ≡ (done b, t)
    → (a : A) × (s : S) × (r ≡ (done a, s)) × (next a s ≡ (done b, t))
proceed-eq-done (done a, s) next h = (a, s, refl, h)
proceed-eq-done (failed e, s) next h = cc (ap (λ r. r.0) h)
proceed-eq-done (crashed, s) next h = cc (ap (λ r. r.0) h)
proceed-eq-done (blocked, s) next h = cc (ap (λ r. r.0) h)

-- Inversion of a bind that came back with a value.
pub >>=-eq-done :
    {S A B : Type 0} (first : Method S A) (next : A → Method S B) (s : S) {b : B} {t : S}
    → (first >>= next) s ≡ (done b, t)
    → (a : A) × (s' : S) × (first s ≡ (done a, s')) × (next a s' ≡ (done b, t))
>>=-eq-done first next s h = proceed-eq-done (first s) next h

-- A method that keeps a property of the object, however it ends.
abbrev pub Keeps : {S A : Type 0} → (S → Type 0) → Method S A → Type 0
Keeps {S = S} P method = (s : S) → P s → P (method s).1

pub proceed-Keeps :
    {S A B : Type 0} (P : S → Type 0) (r : Outcome A × S) (next : A → Method S B)
    → P r.1
    → ((a : A) → Keeps P (next a))
    → P (proceed r next).1
proceed-Keeps P (done a, s) next p keeps = keeps a s p
proceed-Keeps P (failed e, s) next p keeps = p
proceed-Keeps P (crashed, s) next p keeps = p
proceed-Keeps P (blocked, s) next p keeps = p

as_failure : {A B : Type 0} → Outcome B → Outcome A
as_failure (failed e) = failed e
as_failure _ = blocked

-- Inversion of a bind that failed.
pub proceed-eq-failed :
    {S A B : Type 0} (r : Outcome A × S) (next : A → Method S B) {e : ChainError} {t : S}
    → proceed r next ≡ (failed e, t)
    → (r ≡ (failed e, t)) ⊎ ((a : A) × (s : S) × (r ≡ (done a, s)) × (next a s ≡ (failed e, t)))
unfolding as_failure
proceed-eq-failed (done a, s) next h = inr (a, s, refl, h)
proceed-eq-failed (failed e, s) next h = inl (ap (λ r. (as_failure r.0, r.1)) h)
proceed-eq-failed (crashed, s) next h = cc (ap (λ r. r.0) h)
proceed-eq-failed (blocked, s) next h = cc (ap (λ r. r.0) h)

-- What follows may be replaced by what does the same on the objects that it meets.
pub proceed-cong :
    {S A B : Type 0} (P : S → Type 0) (r : Outcome A × S) (next next' : A → Method S B)
    → P r.1
    → ((a : A) (s : S) → P s → next a s ≡ next' a s)
    → proceed r next ≡ proceed r next'
proceed-cong P (done a, s) next next' p same = same a s p
proceed-cong P (failed e, s) next next' p same = refl
proceed-cong P (crashed, s) next next' p same = refl
proceed-cong P (blocked, s) next next' p same = refl
