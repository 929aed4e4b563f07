-- ===== src/Base/Ends.antt =====
-- How a call behind guards ends: it is refused and leaves the store alone, or goes on with what the guards
-- have established.
use mathlib.Core.Path.{◌≡◌, refl}
use mathlib.Core.Bool.{Bool, true, false}
use mathlib.Core.List.{List, [], ◌∷◌}
use mathlib.Core.Logic.{◌⊎◌, inl, inr}
use mathlib.Core.Option.{Option, none, some}
use sams_backend.Base.Lists.{All}
use sams_backend.Base.Actions.{
  Action, pure, Result, ok, err, Error, gets, or_raise, require_that, checked, ◌>>=◌, ◌>>◌,
}

abbrev pub Refused : {S A : Type 0} → Action S A → S → Type 0
Refused m s = (e : Error) × (m s ≡ (err e, s))

abbrev pub Passed : List (Bool × Error) → Type 0
Passed = All (λ (c : Bool × Error). c.0 ≡ true)

module _ {S A : Type 0} (m : Action S A) (s : S) where
  pub guard-ends :
      (b : Bool) (e : Error)
      → Refused (require_that b e >> m) s ⊎ ((b ≡ true) × ((require_that b e >> m) s ≡ m s))
  guard-ends true e = inr (refl, refl)
  guard-ends false e = inl (e, refl)

  pub checked-ends :
      (write : S → S) (cs : List (Bool × Error))
      → Refused (checked cs m write) s ⊎ (Passed cs × (checked cs m write s ≡ m (write s)))
  checked-ends write [] = inr (tt, refl)
  checked-ends write ((true, e) ∷ cs) = elim (checked-ends write cs) [
    | inl refused ↦ inl refused
    | inr passed ↦ inr ((refl, passed.0), passed.1)
  ]
  checked-ends write ((false, e) ∷ cs) = inl (e, refl)

module _ {ℓ} {S A : Type 0} (Q : Result A × S → Type ℓ) (s : S) where
  -- What holds of every refusal and of what a call goes on with holds of the call.
  pub ends :
      {X : Type 0} (m : Action S A) (next : Result A × S)
      → Refused m s ⊎ (X × (m s ≡ next))
      → ((e : Error) → Q (err e, s))
      → (X → Q next)
      → Q (m s)
  ends m next (inl (e, refused)) q goes_on = rw refused (q e)
  ends m next (inr (x, same)) q goes_on = rw same (goes_on x)

  pub ends-guard :
      (b : Bool) (e : Error) (m : Action S A)
      → ((e : Error) → Q (err e, s))
      → (b ≡ true → Q (m s))
      → Q ((require_that b e >> m) s)
  ends-guard b e m = ends (require_that b e >> m) (m s) (guard-ends m s b e)

  pub ends-checked :
      (cs : List (Bool × Error)) (m : Action S A) (write : S → S)
      → ((e : Error) → Q (err e, s))
      → (Passed cs → Q (m (write s)))
      → Q (checked cs m write s)
  ends-checked cs m write = ends (checked cs m write) (m (write s)) (checked-ends m s write cs)

module _ {ℓ} {S A B : Type 0} (Q : Result B × S → Type ℓ) (s : S) where
  ends-answer :
      (o : Option A) (e : Error) (k : A → Action S B)
      → ((e : Error) → Q (err e, s))
      → ((a : A) → o ≡ some a → Q (k a s))
      → Q ((or_raise o e >>= k) s)
  ends-answer none e k q goes_on = q e
  ends-answer (some a) e k q goes_on = goes_on a refl

  pub ends-found :
      (f : S → Option A) (e : Error) (k : A → Action S B)
      → ((e : Error) → Q (err e, s))
      → ((a : A) → f s ≡ some a → Q (k a s))
      → Q ((gets f >>= λ found. or_raise found e >>= k) s)
  ends-found f e k q goes_on = ends-answer (f s) e k q goes_on

module _ {ℓ} {S A : Type 0} (Q : Result A × S → Type ℓ) (s : S) where
  -- A statement and what follows it.
  pub checked_then :
      {B : Type 0} (b : B) (cs : List (Bool × Error)) (write : S → S) (rest : Action S A)
      → ((e : Error) → Q (err e, s))
      → (Passed cs → Q (rest (write s)))
      → Q ((checked cs (pure b) write >> rest) s)
  checked_then b [] write rest q goes_on = goes_on tt
  checked_then b ((true, e) ∷ cs) write rest q goes_on =
      checked_then b cs write rest q (λ passed. goes_on (refl, passed))
  checked_then b ((false, e) ∷ cs) write rest q goes_on = q e

-- What holds of the store after a call that returns.
abbrev pub IfOk {ℓ} : {S A : Type 0} → (S → Type ℓ) → Result A × S → Type ℓ
IfOk P (ok a, s) = P s
IfOk P (err e, s) = Unit

-- The same for what holds of the store.
module _ {ℓ} {S A : Type 0} (P : S → Type ℓ) (s : S) where
  pub lands-guard :
      (b : Bool) (e : Error) (m : Action S A)
      → P s
      → (b ≡ true → P (m s).1)
      → P ((require_that b e >> m) s).1
  lands-guard b e m p = ends-guard (λ o. P o.1) s b e m (λ _. p)

  pub lands-checked :
      (cs : List (Bool × Error)) (m : Action S A) (write : S → S)
      → P s
      → (Passed cs → P (m (write s)).1)
      → P (checked cs m write s).1
  lands-checked cs m write p = ends-checked (λ o. P o.1) s cs m write (λ _. p)

module _ {ℓ} {S A B : Type 0} (P : S → Type ℓ) (s : S) where
  pub lands-found :
      (f : S → Option A) (e : Error) (k : A → Action S B)
      → P s
      → ((a : A) → f s ≡ some a → P (k a s).1)
      → P ((gets f >>= λ found. or_raise found e >>= k) s).1
  lands-found f e k p goes_on = ends-found (λ o. P o.1) s f e k (λ _. p) goes_on
