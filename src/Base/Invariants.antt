-- ===== src/Base/Invariants.antt =====
-- Properties of the store that an action keeps, and of the values that it returns.
use mathlib.Core.Path.{◌≡◌, refl, sym}
use mathlib.Core.Bool.{Bool, true, false}
use sams_backend.Base.Tests.{if◌then◌else◌}
use sams_backend.Base.Actions.{pure, Action, Result, ok, err, Error, ◌>>=◌, ◌>>◌, require_that}
use sams_backend.Base.Frames.{Keeps, bind-steps, pure-steps, and_then}

-- What holds of the value of an action, whenever it returns one.
abbrev pub Returns {ℓ} : {S A : Type 0} → (A → Type ℓ) → Action S A → Type ℓ
Returns {S} {A} P m = (s s' : S) (a : A) → m s ≡ (ok a, s') → P a

module _ {ℓ} {S A B : Type 0} (P : B → Type ℓ) (m : Action S A) (k : A → Action S B) where
  -- The last step of a chain decides it.
  pub Returns-bind : ((a : A) → Returns P (k a)) → Returns P (m >>= k)
  Returns-bind last s s' b h =
      let (a, t, first, rest) = bind-steps m k s s' b h in last a t s' b rest

pub Returns-pure {ℓ} : {S A : Type 0} (P : A → Type ℓ) (a : A) → P a → Returns P (pure {S = S} a)
Returns-pure P a p s s' b h = rw (sym (pure-steps a b s s' h).0) p

-- An action that keeps a property of the store, whether it returns or raises.
abbrev pub Preserves {ℓ} : {S A : Type 0} → (S → Type ℓ) → Action S A → Type ℓ
Preserves {S} P m = (s : S) → P s → P (m s).1

module _ {ℓ} {S A B : Type 0} (P : S → Type ℓ) (m : Action S A) (k : A → Action S B) where
  Preserves-and_then :
      (o : Result A × S) → P o.1 → ((a : A) → Preserves P (k a)) → P (and_then k o).1
  Preserves-and_then (ok a, t) p rest = rest a t p
  Preserves-and_then (err e, t) p rest = p

  pub Preserves-bind : Preserves P m → ((a : A) → Preserves P (k a)) → Preserves P (m >>= k)
  Preserves-bind first rest s p = Preserves-and_then (m s) (first s p) rest

module _ {ℓ} {S A : Type 0} (P : S → Type ℓ) where
  -- What stands behind a guard may rely on it.
  pub Preserves-guard :
      (b : Bool) (e : Error) (m : Action S A)
      → (b ≡ true → Preserves P m)
      → Preserves P (require_that b e >> m)
  Preserves-guard true e m h s p = h refl s p
  Preserves-guard false e m h s p = p

  pub Preserves-if :
      (b : Bool) (m n : Action S A)
      → Preserves P m
      → Preserves P n
      → Preserves P (if b then m else n)
  Preserves-if true m n h k = h
  Preserves-if false m n h k = k

-- A property of a view is kept with the view.
pub Keeps-Preserves {ℓ} :
    {S A V : Type 0} (view : S → V) (Q : V → Type ℓ) (m : Action S A)
    → Keeps view m
    → Preserves (λ s. Q (view s)) m
Keeps-Preserves view Q m h s q = rw (h s) q
