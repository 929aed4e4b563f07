-- ===== src/Base/Rows.antt =====
-- Laws of the row operations: what a query finds after an update.
use mathlib.Core.Path.{◌≡◌, refl, ap, ◌∙◌}
use mathlib.Core.Bool.{Bool, true, false}
use mathlib.Core.Option
use mathlib.Core.Option.{Option, none, some}
use mathlib.Core.List.{List, [], ◌∷◌, ◌++◌}
use mathlib.Core.Logic.{inl, inr}
use native.Mathlib.Omega.{arith}
use sams_backend.Base.Tests.{Bool-cases, if◌then◌else◌}
use sams_backend.Base.Lists.{first_row, update_rows, where_rows, All}

module _ {ℓ} {A : Type ℓ} (p : A → Bool) (f : A → A) where
  -- An update that keeps the test is seen by the query with the same test.
  pub first_row-update_rows :
      ((x : A) → p (f x) ≡ p x)
      → (xs : List A) → first_row p (update_rows p f xs) ≡ Option.map f (first_row p xs)
  first_row-update_rows keep [] = refl
  first_row-update_rows keep (x ∷ xs) = ground (arith, keep x, first_row-update_rows keep xs)

  -- A query with another test sees the update where its row was updated.
  pub first_row-update_where :
      (q : A → Bool)
      → ((x : A) → q (f x) ≡ q x)
      → (xs : List A)
      → first_row q (update_rows p f xs) ≡ Option.map (λ x. if p x then f x else x) (first_row q xs)
  first_row-update_where q keep [] = refl
  first_row-update_where q keep (x ∷ xs) = ground (arith, keep x, first_row-update_where q keep xs)

  -- A row that a query finds and an update hits is found updated.
  pub first_row-update_hit :
      (q : A → Bool)
      → ((x : A) → q (f x) ≡ q x)
      → (xs : List A) (a : A) → first_row q xs ≡ some a
      → p a ≡ true
      → first_row q (update_rows p f xs) ≡ some (f a)
  first_row-update_hit q keep xs a found hit =
      first_row-update_where q keep xs
      ∙ ap (Option.map (λ x. if p x then f x else x)) found
      ∙ rw hit refl

  -- A query that finds none of the updated rows sees no change.
  pub first_row-update_rows_ne :
      (q : A → Bool)
      → ((x : A) → p x ≡ true → q x ≡ false)
      → ((x : A) → p x ≡ true → q (f x) ≡ false)
      → (xs : List A) → first_row q (update_rows p f xs) ≡ first_row q xs
  first_row-update_rows_ne q apart apart' [] = refl
  first_row-update_rows_ne q apart apart' (x ∷ xs) =
      ground (arith, apart x, apart' x, first_row-update_rows_ne q apart apart' xs)

  pub All-update_rows {κ} :
      (P : A → Type κ)
      → ((x : A) → p x ≡ true → P x → P (f x))
      → (xs : List A) → All P xs
      → All P (update_rows p f xs)
  All-update_rows P keep [] h = h
  All-update_rows P keep (x ∷ xs) h = elim (Bool-cases (p x)) [
    | inl hit ↦ rw hit (keep x hit h.0, All-update_rows P keep xs h.1)
    | inr miss ↦ rw miss (h.0, All-update_rows P keep xs h.1)
  ]

module _ {ℓ} {A : Type ℓ} (p : A → Bool) where
  -- A filter that keeps what the query looks for is not noticed by the query.
  pub first_row-where_rows :
      (q : A → Bool)
      → ((x : A) → p x ≡ true → q x ≡ true)
      → (xs : List A) → first_row p (where_rows q xs) ≡ first_row p xs
  first_row-where_rows q keep [] = refl
  first_row-where_rows q keep (x ∷ xs) = ground (arith, keep x, first_row-where_rows q keep xs)

  -- A filter that drops all that the query looks for leaves it nothing.
  pub first_row-where_rows-none :
      (q : A → Bool)
      → ((x : A) → p x ≡ true → q x ≡ false)
      → (xs : List A) → first_row p (where_rows q xs) ≡ none
  first_row-where_rows-none q drop [] = refl
  first_row-where_rows-none q drop (x ∷ xs) =
      ground (arith, drop x, first_row-where_rows-none q drop xs)

  -- A row that is added at the end is found where no other is, and is not seen by other queries.
  pub first_row-append :
      (xs : List A) (y : A)
      → first_row p xs ≡ none
      → p y ≡ true
      → first_row p (xs ++ y ∷ []) ≡ some y
  first_row-append [] y none_yet hit = ground arith
  first_row-append (x ∷ xs) y none_yet hit = ground (arith, first_row-append xs y)

  pub first_row-append_ne :
      (xs : List A) (y : A) → p y ≡ false → first_row p (xs ++ y ∷ []) ≡ first_row p xs
  first_row-append_ne [] y miss = ground arith
  first_row-append_ne (x ∷ xs) y miss = ground (arith, first_row-append_ne xs y)

  -- What a query finds satisfies its test.
  pub test-first_row : (xs : List A) (y : A) → first_row p xs ≡ some y → p y ≡ true
  test-first_row [] y h = cc
  test-first_row (x ∷ xs) y h = ground (arith, test-first_row xs y)

  -- What a query finds is still found when rows are added.
  pub first_row-append_found :
      (xs ys : List A) (y : A) → first_row p xs ≡ some y → first_row p (xs ++ ys) ≡ some y
  first_row-append_found [] ys y h = cc
  first_row-append_found (x ∷ xs) ys y h = ground (arith, first_row-append_found xs ys y)
