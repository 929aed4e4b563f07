-- ===== src/Base/Frames.antt =====
-- Reasoning about actions: the part of the store that an action keeps, and the steps of a chain
-- that returns.
use mathlib.Core.Path.{◌≡◌, refl, ap, ◌∙◌}
use mathlib.Core.Option.{Option, none, some}
use sams_backend.Base.Tests.{if◌then◌else◌}
use sams_backend.Base.Actions.{
  ⊤, pure, raise, Action, Result, ok, err, Error, ◌>>=◌, ◌>>◌, transaction, require_that, or_raise,
  gets,
}
use mathlib.Core.Logic.{◌⊎◌, inl, inr}
use mathlib.Core.Bool.{Bool, true, false}

-- The outcome of a chain, from the outcome of its first step.
abbrev pub and_then : {S A B : Type 0} → (A → Action S B) → Result A × S → Result B × S
and_then k out = elim out.0 [ ok a ↦ k a out.1 | err e ↦ (err e, out.1) ]

-- An action that leaves a view of the store alone, whether it returns or raises.
abbrev pub Keeps : {S A V : Type 0} → (S → V) → Action S A → Type 0
Keeps {S} view m = (s : S) → view (m s).1 ≡ view s

module _ {S A B V : Type 0} (view : S → V) (m : Action S A) (k : A → Action S B) where
  Keeps-and_then :
      (out : Result A × S) (v : V)
      → view out.1 ≡ v
      → ((a : A) → Keeps view (k a))
      → view (and_then k out).1 ≡ v
  Keeps-and_then (ok a, t) v h rest = rest a t ∙ h
  Keeps-and_then (err e, t) v h rest = h

  pub Keeps-bind : Keeps view m → ((a : A) → Keeps view (k a)) → Keeps view (m >>= k)
  Keeps-bind first rest s = Keeps-and_then (m s) (view s) (first s) rest

module _ {S A B : Type 0} (m : Action S A) (k : A → Action S B) where
  and_then-steps :
      (out : Result A × S) (s' : S) (b : B)
      → and_then k out ≡ (ok b, s')
      → (a : A) × (t : S) × (out ≡ (ok a, t)) × (k a t ≡ (ok b, s'))
  and_then-steps (ok a, t) s' b h = (a, t, refl, h)
  and_then-steps (err e, t) s' b h = cc

  -- The steps of a chain that returns: the first step has returned, and so has the rest.
  pub bind-steps :
      (s s' : S) (b : B)
      → (m >>= k) s ≡ (ok b, s')
      → (a : A) × (t : S) × (m s ≡ (ok a, t)) × (k a t ≡ (ok b, s'))
  bind-steps s s' b h = and_then-steps (m s) s' b h

module _ {S A B : Type 0} (m : Action S A) (k : A → Action S B) where
  and_then-failure :
      (out : Result A × S) (s' : S) (e : Error)
      → and_then k out ≡ (err e, s')
      → (out ≡ (err e, s')) ⊎ ((a : A) × (t : S) × (out ≡ (ok a, t)) × (k a t ≡ (err e, s')))
  and_then-failure (ok a, t) s' e h = inr (a, t, refl, h)
  and_then-failure (err x, t) s' e h = inl cc

  -- Where a chain that raises has raised.
  pub bind-failure :
      (s s' : S) (e : Error)
      → (m >>= k) s ≡ (err e, s')
      → (m s ≡ (err e, s')) ⊎ ((a : A) × (t : S) × (m s ≡ (ok a, t)) × (k a t ≡ (err e, s')))
  bind-failure s s' e h = and_then-failure (m s) s' e h

-- The outcome of a transaction, from the outcome of its body.
abbrev settled : {S A : Type 0} → S → Result A × S → Result A × S
settled s out = elim out.0 [ ok a ↦ (ok a, out.1) | err e ↦ (err e, s) ]

settled-ok :
    {S A : Type 0} (s s' : S) (a : A) (out : Result A × S)
    → settled s out ≡ (ok a, s')
    → out ≡ (ok a, s')
settled-ok s s' a (ok b, t) h = h
settled-ok s s' a (err e, t) h = cc

settled-err :
    {S A : Type 0} (s s' : S) (e : Error) (out : Result A × S)
    → settled s out ≡ (err e, s')
    → s' ≡ s
settled-err s s' e (ok b, t) h = cc
settled-err s s' e (err x, t) h = cc

pub transaction-steps :
    {S A : Type 0} (m : Action S A) (s s' : S) (a : A)
    → transaction m s ≡ (ok a, s')
    → m s ≡ (ok a, s')
transaction-steps m s s' a h = settled-ok s s' a (m s) h

pub transaction-rollback :
    {S A : Type 0} (m : Action S A) (s s' : S) (e : Error) → transaction m s ≡ (err e, s') → s' ≡ s
transaction-rollback m s s' e h = settled-err s s' e (m s) h

-- A transaction behind a guard leaves no trace of a failure either.
pub guarded-rollback :
    {S A : Type 0} (b : Bool) (refusal : Error) (m : Action S A) (s s' : S) (e : Error)
    → (require_that b refusal >> transaction m) s ≡ (err e, s')
    → s' ≡ s
guarded-rollback true refusal m s s' e h = transaction-rollback m s s' e h
guarded-rollback false refusal m s s' e h = cc

pub require_that-steps :
    {S : Type 0} (b : Bool) (e : Error) (s s' : S) (u : ⊤)
    → require_that b e s ≡ (ok u, s')
    → (b ≡ true) × (s ≡ s')
require_that-steps true e s s' u h = (refl, cc)
require_that-steps false e s s' u h = cc

pub or_raise-steps :
    {S A : Type 0} (o : Option A) (e : Error) (s s' : S) (a : A)
    → or_raise o e s ≡ (ok a, s')
    → (o ≡ some a) × (s ≡ s')
or_raise-steps none e s s' a h = cc
or_raise-steps (some x) e s s' a h = (cc, cc)

pub refusal-steps :
    {S A : Type 0} (b : Bool) (e : Error) (a r : A) (t s s' : S)
    → (if b then pure a t else raise e s) ≡ (ok r, s')
    → (b ≡ true) × (t ≡ s')
refusal-steps true e a r t s s' h = (refl, cc)
refusal-steps false e a r t s s' h = cc

pub pure-steps : {S A : Type 0} (a r : A) (s s' : S) → pure a s ≡ (ok r, s') → (a ≡ r) × (s ≡ s')
pure-steps a r s s' h = (cc, cc)

pub guarded-steps :
    {S A : Type 0} (b : Bool) (refusal : Error) (m : Action S A) (s s' : S) (a : A)
    → (require_that b refusal >> transaction m) s ≡ (ok a, s')
    → (b ≡ true) × (m s ≡ (ok a, s'))
guarded-steps true refusal m s s' a h = (refl, transaction-steps m s s' a h)
guarded-steps false refusal m s s' a h = cc

pub guarded-ok :
    {S A : Type 0} (b : Bool) (refusal : Error) (m : Action S A) (s s' : S) (a : A)
    → b ≡ true
    → m s ≡ (ok a, s')
    → (require_that b refusal >> transaction m) s ≡ (ok a, s')
guarded-ok {S = S} {A = A} true refusal m s s' a may h = ap (settled {S = S} {A = A} s) h
guarded-ok false refusal m s s' a may h = cc

-- The steps of what stands behind a guard.
pub guard-steps :
    {S A : Type 0} (b : Bool) (refusal : Error) (m : Action S A) (s s' : S) (a : A)
    → (require_that b refusal >> m) s ≡ (ok a, s')
    → (b ≡ true) × (m s ≡ (ok a, s'))
guard-steps true refusal m s s' a h = (refl, h)
guard-steps false refusal m s s' a h = cc

module _ {S A B : Type 0} (f : S → Option A) (e : Error) (k : A → Action S B) where
  -- The chain that looks a row up, raises where it is missing, and goes on with it.
  abbrev pub with_found : Action S B
  with_found = gets f >>= λ found. or_raise found e >>= k

  answered :
      (o : Option A) (s s' : S) (b : B)
      → (or_raise o e >>= k) s ≡ (ok b, s')
      → (a : A) × (o ≡ some a) × (k a s ≡ (ok b, s'))
  answered none s s' b h = cc
  answered (some a) s s' b h = (a, refl, h)

  pub found-steps :
      (s s' : S) (b : B)
      → with_found s ≡ (ok b, s')
      → (a : A) × (f s ≡ some a) × (k a s ≡ (ok b, s'))
  found-steps s s' b h = answered (f s) s s' b h

  unanswered :
      (o : Option A) (s s' : S) (x : Error)
      → (or_raise o e >>= k) s ≡ (err x, s')
      → (s' ≡ s) ⊎ ((a : A) × (o ≡ some a) × (k a s ≡ (err x, s')))
  unanswered none s s' x h = inl cc
  unanswered (some a) s s' x h = inr (a, refl, h)

  pub found-failure :
      (s s' : S) (x : Error)
      → with_found s ≡ (err x, s')
      → (s' ≡ s) ⊎ ((a : A) × (f s ≡ some a) × (k a s ≡ (err x, s')))
  found-failure s s' x h = unanswered (f s) s s' x h

  pub found-ok : (s : S) (a : A) → f s ≡ some a → with_found s ≡ k a s
  found-ok s a h = ap (λ o. (or_raise o e >>= k) s) h

  Keeps-answered :
      {V : Type 0} (view : S → V) (o : Option A)
      → ((a : A) → Keeps view (k a))
      → Keeps view (or_raise o e >>= k)
  Keeps-answered view none h s = refl
  Keeps-answered view (some a) h s = h a s

  pub Keeps-found :
      {V : Type 0} (view : S → V) → ((a : A) → Keeps view (k a)) → Keeps view with_found
  Keeps-found view h s = Keeps-answered view (f s) h s

module _ {S A V : Type 0} (view : S → V) where
  pub Keeps-if :
      (b : Bool) (m n : Action S A) → Keeps view m → Keeps view n → Keeps view (if b then m else n)
  Keeps-if true m n h k = h
  Keeps-if false m n h k = k

pub Keeps-require_that :
    {S V : Type 0} (view : S → V) (b : Bool) (e : Error) → Keeps view (require_that b e)
Keeps-require_that view true e s = refl
Keeps-require_that view false e s = refl

pub view-if :
    {S V : Type 0} (view : S → V) (b : Bool) (s t u : S)
    → view t ≡ view s
    → view u ≡ view s
    → view (if b then t else u) ≡ view s
view-if view true s t u h k = h
view-if view false s t u h k = k

module _ {ℓ} {S A : Type 0} (P : S → Type ℓ) (m : Action S A) (s : S) where
  by_outcome :
      (o : Result A × S)
      → m s ≡ o
      → ((a : A) (s' : S) → m s ≡ (ok a, s') → P s')
      → ((e : Error) (s' : S) → m s ≡ (err e, s') → P s')
      → P o.1
  by_outcome (ok a, s') h returned raised = returned a s' h
  by_outcome (err e, s') h returned raised = raised e s' h

  -- What holds after an action, from what holds after each way that it can end.
  pub outcome-cases :
      ((a : A) (s' : S) → m s ≡ (ok a, s') → P s')
      → ((e : Error) (s' : S) → m s ≡ (err e, s') → P s')
      → P (m s).1
  outcome-cases returned raised = by_outcome (m s) refl returned raised

module _ {S A B : Type 0} (b : B) where
  and_then-pure : (o : Result A × S) → (and_then (λ _. pure b) o).1 ≡ o.1
  and_then-pure (ok a, s') = refl
  and_then-pure (err e, s') = refl

  -- Returning a value leaves the store to the step before.
  pub bind-pure : (m : Action S A) (s : S) → ((m >>= λ _. pure b) s).1 ≡ (m s).1
  bind-pure m s = and_then-pure (m s)
