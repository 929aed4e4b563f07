-- ===== src/Base/Lists.antt =====
-- Membership, search and update in the lists that stand for Python's sets and for the rows of a
-- table.
use Prim.Native.Nat.{ℕ, suc}
use mathlib.Core.Path.{◌≡◌, refl, ap, ◌∙◌}
use mathlib.Core.Logic.{◌↔◌, inl, inr}
use mathlib.Core.Bool.{Bool, true, false, ◌||◌}
use mathlib.Core.Option.{Option, none, some}
use mathlib.Core.List.{List, [], ◌∷◌, ◌++◌}
use native.Mathlib.Omega.{arith}
use sams_backend.Base.Tests.{Eq, ◌==◌, eq_self, if◌then◌else◌, Bool-cases, Bool-ext}

module _ {ℓ} {A : Type ℓ} where
  abbrev pub length : List A → ℕ
  length [] = 0
  length (x ∷ xs) = suc (length xs)

  abbrev pub any : (A → Bool) → List A → Bool
  any p [] = false
  any p (x ∷ xs) = p x || any p xs

  -- The rows that satisfy a `WHERE` clause.
  abbrev pub where_rows : (A → Bool) → List A → List A
  where_rows p [] = []
  where_rows p (x ∷ xs) = let rest = where_rows p xs in if p x then x ∷ rest else rest

  -- `fetchrow`: the first of those rows, if any.
  abbrev pub first_row : (A → Bool) → List A → Option A
  first_row p [] = none
  first_row p (x ∷ xs) = let rest = first_row p xs in if p x then some x else rest

  -- `UPDATE … SET … WHERE`
  abbrev pub update_rows : (A → Bool) → (A → A) → List A → List A
  update_rows p f [] = []
  update_rows p f (x ∷ xs) = (if p x then f x else x) ∷ update_rows p f xs

module _ {ℓ} {A : Type ℓ} ⦃e : Eq A⦄ where
  -- Python's `in`.
  abbrev pub contains : A → List A → Bool
  contains a [] = false
  contains a (x ∷ xs) = x == a || contains a xs

  -- `bool(xs & ys)`
  abbrev pub intersects : List A → List A → Bool
  intersects [] ys = false
  intersects (x ∷ xs) ys = contains x ys || intersects xs ys

  pub contains-append :
      (a : A) (xs ys : List A) → contains a (xs ++ ys) ≡ (contains a xs || contains a ys)
  contains-append a [] ys = refl
  contains-append a (x ∷ xs) ys = ground (arith, contains-append a xs ys)

  intersects-witness :
      (xs ys : List A)
      → intersects xs ys ≡ true
      → (a : A) × (contains a xs ≡ true) × (contains a ys ≡ true)
  intersects-witness [] ys h = cc
  intersects-witness (x ∷ xs) ys h = elim (Bool-cases (contains x ys)) [
    | inl here ↦ (x, rw (eq_self x), here)
    | inr gone ↦
        let (a, inside, other) = intersects-witness xs ys (ground arith) in (a, ground arith, other)
  ]

  contains-intersects :
      (a : A) (xs ys : List A)
      → contains a xs ≡ true
      → contains a ys ≡ true
      → intersects xs ys ≡ true
  contains-intersects a [] ys h k = cc
  contains-intersects a (x ∷ xs) ys h k =
      ground (arith, e.test_iff x a, contains-intersects a xs ys)

  pub intersects_iff :
      (xs ys : List A)
      → (intersects xs ys ≡ true) ↔ ((a : A) × (contains a xs ≡ true) × (contains a ys ≡ true))
  intersects_iff xs ys = (intersects-witness xs ys, λ h. contains-intersects h.0 xs ys h.1 h.2)

  -- The loop `any(r in xs for r in rs)` asks whether the two have a value in common.
  any-contains : (xs rs : List A) → any (λ r. contains r xs) rs ≡ intersects rs xs
  any-contains xs [] = refl
  any-contains xs (r ∷ rs) = ap (λ b. contains r xs || b) (any-contains xs rs)

  intersects_le : (xs ys : List A) → intersects xs ys ≡ true → intersects ys xs ≡ true
  intersects_le xs ys h =
      let (a, here, there) = (intersects_iff xs ys).0 h in (intersects_iff ys xs).1 (a, there, here)

  pub any-contains-intersects : (xs rs : List A) → any (λ r. contains r xs) rs ≡ intersects xs rs
  any-contains-intersects xs rs =
      any-contains xs rs
      ∙ Bool-ext (intersects rs xs) (intersects xs rs) (intersects_le rs xs) (intersects_le xs rs)

-- A statement about each row.
abbrev pub All {ℓ κ} : {Row : Type ℓ} (holds : Row → Type κ) (rows : List Row) → Type κ
All holds [] = Unit
All holds (row ∷ rows) = holds row × All holds rows
