-- ===== src/Base/Actions.antt =====
-- A call of a service method: it reads and writes the store, and returns a value or raises. What was
-- written before a raise stays written; a transaction restores the store.
use mathlib.Core.Bool.{Bool, true, false}
use mathlib.Core.List.{List, [], ◌∷◌}
use mathlib.Core.Option.{Option, none, some}
use sams_backend.Base.Tests.{if◌then◌else◌}
use Prim.Native.Nat.{ℕ}
use Prim.Native.String.{String}

-- The exceptions, with the text of the message as the source writes it.
pub data Error : Type 0 where
  value_error : String → Error
  permission_error : String → Error
  type_error : String → Error
  unique_violation : String → Error
  not_null_violation : String → Error
  foreign_key_violation : String → Error
  check_violation : String → Error
  runtime_error : String → Error
  data_error : String → Error
  http_error : ℕ → String → Error

pub data Result (A : Type 0) : Type 0 where
  ok : A → Result A
  err : Error → Result A

abbrev pub ⊤ : Type 0
⊤ = Unit

abbrev pub Action : Type 0 → Type 0 → Type 0
Action S A = S → Result A × S

abbrev pub pure : {S A : Type 0} → A → Action S A
pure a s = (ok a, s)

abbrev pub raise : {S A : Type 0} → Error → Action S A
raise e s = (err e, s)

abbrev pub gets : {S A : Type 0} → (S → A) → Action S A
gets f s = (ok (f s), s)

abbrev pub modify : {S : Type 0} → (S → S) → Action S ⊤
modify f s = (ok tt, f s)

-- `if not x: raise …`
abbrev pub or_raise : {S A : Type 0} → Option A → Error → Action S A
or_raise none e s = (err e, s)
or_raise (some a) e s = (ok a, s)

abbrev pub require_that : {S : Type 0} → Bool → Error → Action S ⊤
require_that true e s = (ok tt, s)
require_that false e s = (err e, s)

infixl 5 ◌>>=◌ ◌>>◌
abbrev pub ◌>>=◌ : {S A B : Type 0} → Action S A → (A → Action S B) → Action S B
◌>>=◌ m f s = let (r, s') = m s in elim r [ ok a ↦ f a s' | err e ↦ (err e, s') ]

abbrev pub ◌>>◌ : {S A B : Type 0} → Action S A → Action S B → Action S B
m >> k = m >>= λ _. k

-- A statement: the first of its checks that fails is raised, else it writes, and then the rest runs.
abbrev pub checked : {S A : Type 0} → List (Bool × Error) → Action S A → (S → S) → Action S A
checked [] rest write s = rest (write s)
checked ((b, e) ∷ cs) rest write s = if b then checked cs rest write s else raise e s

-- `async with conn.transaction()`: a raise rolls back.
abbrev pub transaction : {S A : Type 0} → Action S A → Action S A
transaction m s = let (r, s') = m s in elim r [ ok a ↦ (ok a, s') | err e ↦ (err e, s) ]

-- `except ValueError as exc: raise HTTPException(status_code=400, detail=str(exc))`
abbrev pub as_http : Error → Error
as_http (value_error m) = http_error 400 m
as_http (permission_error m) = permission_error m
as_http (type_error m) = type_error m
as_http (unique_violation m) = unique_violation m
as_http (not_null_violation m) = not_null_violation m
as_http (foreign_key_violation m) = foreign_key_violation m
as_http (check_violation m) = check_violation m
as_http (runtime_error m) = runtime_error m
as_http (data_error m) = data_error m
as_http (http_error code m) = http_error code m

abbrev pub value_errors_to_http : {S A : Type 0} → Action S A → Action S A
value_errors_to_http m s =
    let (r, s') = m s in elim r [ ok a ↦ (ok a, s') | err e ↦ (err (as_http e), s') ]
