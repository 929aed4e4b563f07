-- ===== src/Authz.antt =====
-- app/core/authz.py and the role tests of `CurrentUser` in app/core/dependencies.py: who holds which
-- role or permission. Python's sets of strings are lists here, read only through `contains`.
mod Catalog
pub mod Gate
pub mod Roles
mod Tests
use sams_backend.Base.{
  ℕ, String, List, [], ◌∷◌, ◌++◌, Option, none, some, Bool, true, false, ◌||◌, ◌&&◌, not, ◌==◌,
  string_eq, contains, intersects, any, if◌then◌else◌,
}
use Catalog.{permissions_catalog}

lookup_permissions : String → List (String × List String) → List String
lookup_permissions r [] = []
lookup_permissions r ((role, perms) ∷ rest) = if role == r then perms else lookup_permissions r rest

-- `COMPOSITE_ROLE_PERMISSIONS[r]`, empty where `r` is no composite role.
pub permissions_of : String → List String
unfolding lookup_permissions permissions_catalog
permissions_of r = lookup_permissions r permissions_catalog

pub permissions_of_all : List String → List String
permissions_of_all [] = []
permissions_of_all (r ∷ rs) = permissions_of r ++ permissions_of_all rs

-- `_ROLE_NAMES`
abbrev pub role_names : List String
role_names =
    "super_admin" ∷ "school_admin" ∷ "admin" ∷ "administrator" ∷ "manager" ∷ "teacher"
    ∷ "event_teacher" ∷ "parent" ∷ "student" ∷ "pending" ∷ []

-- `user_role: str | list[str] | None`; any other value is turned into its text.
pub data RoleArg : Type 0 where
  missing : RoleArg
  one : String → RoleArg
  many : List String → RoleArg
  other : String → RoleArg

-- `allowed_roles: set[str] | str`
pub data Allowed : Type 0 where
  only : String → Allowed
  any_of : List String → Allowed

-- The caller's roles as a set; `none` where `not user_role` holds.
unfoldable pub role_set : RoleArg → Option (List String)
role_set missing = none
role_set (one r) = if r == "" then none else some (r ∷ [])
role_set (many []) = none
role_set (many (r ∷ rs)) = some (r ∷ rs)
role_set (other r) = some (r ∷ [])

abbrev pub requirements : Allowed → List String
requirements (only r) = r ∷ []
requirements (any_of rs) = rs

abbrev pub is_super : List String → Bool
is_super roles = contains "super_admin" roles || contains "*" roles

-- `if "admin" in roles: roles.add("school_admin")`
abbrev pub with_admin_alias : List String → List String
with_admin_alias roles = if contains "admin" roles then "school_admin" ∷ roles else roles

-- The forward expansion of composite roles.
unfoldable pub expand : List String → List String
expand roles = roles ++ permissions_of_all roles

pub require_roles : List String → List String → Bool
unfolding expand
require_roles roles reqs =
    if is_super roles then true else intersects (expand (with_admin_alias roles)) reqs

unfoldable pub require : RoleArg → Allowed → Bool
unfolding role_set require_roles
require user_role allowed_roles = elim (role_set user_role) [
  | none ↦ false
  | some roles ↦ require_roles roles (requirements allowed_roles)
]

-- The `CurrentUser` that a request carries. A token's subject is a number after `parse_id`.
pub record CurrentUser : Type 0 where
  pub id : ℕ
  pub tenant_id : Option String
  pub role : String
  pub roles : List String

-- `RoleList(roles or [role])`
unfoldable pub new_user : ℕ → Option String → String → List String → CurrentUser
new_user id tenant_id role [] = record {
  id = id;
  tenant_id = tenant_id;
  role = role;
  roles = role ∷ [];
}
new_user id tenant_id role (r ∷ rs) = record {
  id = id;
  tenant_id = tenant_id;
  role = role;
  roles = r ∷ rs;
}

-- `set(self.roles)`, with `self.role` added if it is not empty.
abbrev pub identity_roles : CurrentUser → List String
identity_roles u = if u.role == "" then u.roles else u.role ∷ u.roles

-- The loop of `has_role` over the composite roles.
pub carries : String → List String → Bool
carries name [] = false
carries name (r ∷ rs) = contains name (permissions_of r) || carries name rs

unfoldable pub has_role : CurrentUser → String → Bool
unfolding carries
has_role u name =
    let roles = identity_roles u in
    if is_super roles
    then true
    else if (name == "admin" || name == "school_admin")
        && (contains "school_admin" roles || contains "admin" roles)
    then true
    else if contains name roles
    then true
    else carries name roles

unfoldable pub has_any_role : CurrentUser → List String → Bool
has_any_role u names = any (has_role u) names

-- `can`: the policy engine's decision is final, `none` is an engine that could not be reached.
unfoldable pub can : (String → Option Bool) → CurrentUser → String → Bool
can verify u action = elim (verify action) [ some decision ↦ decision | none ↦ has_role u action ]
