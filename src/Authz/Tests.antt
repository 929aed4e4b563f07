-- ===== src/Authz/Tests.antt =====
-- Inputs that meet the conditions of the theorems on the gate, and runs of the gate.
use sams_backend.Base.{
  String, List, [], ◌∷◌, none, true, false, string_eq, contains, ◌≡◌, ◌≢◌, refl, ◌↔◌, ◌⊎◌, arith,
}
use text.Mathlib.TextEquality.{eq_iff}
use sams_backend.Authz.{
  CurrentUser, many, only, any_of, one, is_super, require, has_role, identity_roles, new_user,
  permissions_of, permissions_of_all,
}
use sams_backend.Authz.Gate.{Grants, require_iff}
use sams_backend.Authz.Roles.{has_role-require}

abbrev staff : List String
staff = "teacher" ∷ "parent" ∷ []

abbrev needed : List String
needed = "class:update" ∷ "class:read" ∷ []

require_iff_example :
    (require (many staff) (any_of needed) ≡ true)
    ↔ ((is_super staff ≡ true) ⊎ ((p : String) × (contains p needed ≡ true) × Grants staff p))
require_iff_example = require_iff staff needed

abbrev teacher : CurrentUser
teacher = new_user 7 none "teacher" []

other_text : ◌≢◌ {A = String} "event:create" "admin"
other_text = ground (arith, eq_iff "event:create" "admin")

has_role-require_example :
    has_role teacher "event:create" ≡ require (many (identity_roles teacher)) (only "event:create")
has_role-require_example = has_role-require teacher "event:create" other_text

-- A teacher may read classes and is no administrator.
teacher_reads : require (one "teacher") (only "class:read") ≡ true
unfolding require permissions_of_all permissions_of
teacher_reads = refl

teacher_is_no_admin : require (one "teacher") (only "school_admin") ≡ false
unfolding require permissions_of_all permissions_of
teacher_is_no_admin = refl
