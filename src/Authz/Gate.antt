-- ===== src/Authz/Gate.antt =====
-- What the gate of app/core/authz.py lets through, and how it relates to `CurrentUser.has_role` of
-- app/core/dependencies.py.
use sams_backend.Base.{
  String, List, [], ◌∷◌, Bool, true, false, ◌==◌, if◌then◌else◌, string_eq, contains, intersects,
  contains-append, intersects_iff, Bool-cases, eq_self, ◌≡◌, refl, sym, ◌↔◌, ◌⊎◌, inl, inr, arith,
}
use sams_backend.Authz.Catalog.{permissions_catalog}
use sams_backend.Authz.{
  many, only, any_of, lookup_permissions, permissions_of, permissions_of_all, role_names, is_super,
  with_admin_alias, expand, require_roles, require,
}

-- The caller holds a role, `admin` standing for `school_admin` too.
pub data Holds (roles : List String) (r : String) : Type 0 where
  held : contains r roles ≡ true → Holds roles r
  alias : r ≡ "school_admin" → contains "admin" roles ≡ true → Holds roles r

-- A permission comes by itself or with a composite role that carries it: forward only.
pub data Grants (roles : List String) (p : String) : Type 0 where
  itself : Holds roles p → Grants roles p
  carried : (r : String) → Holds roles r → contains p (permissions_of r) ≡ true → Grants roles p

Holds-of_contains :
    (roles : List String) (r : String) → contains r (with_admin_alias roles) ≡ true → Holds roles r
Holds-of_contains roles r h = elim (Bool-cases (contains r roles)) [
  | inl inside ↦ held inside
  | inr outside ↦ elim (Bool-cases (contains "admin" roles)) [
    | inl admin ↦ alias (sym ((string_eq.test_iff "school_admin" r).0 (ground arith))) admin
    | inr plain ↦ ground arith
  ]
]

contains-of_Holds :
    (roles : List String) (r : String) → Holds roles r → contains r (with_admin_alias roles) ≡ true
contains-of_Holds roles r (held h) = ground arith
contains-of_Holds roles r (alias e h) = rw e (rw h refl)

permissions_of_all-witness :
    (p : String) (rs : List String)
    → contains p (permissions_of_all rs) ≡ true
    → (r : String) × (contains r rs ≡ true) × (contains p (permissions_of r) ≡ true)
unfolding permissions_of_all
permissions_of_all-witness p [] h = cc
permissions_of_all-witness p (r ∷ rs) h = elim (Bool-cases (contains p (permissions_of r))) [
  | inl here ↦ (r, rw (eq_self r), here)
  | inr gone ↦
      let (s, inside, k) =
        permissions_of_all-witness p rs
          (ground (arith, contains-append p (permissions_of r) (permissions_of_all rs))) in
      (s, ground arith, k)
]

contains-permissions_of_all :
    (p r : String) (rs : List String)
    → contains r rs ≡ true
    → contains p (permissions_of r) ≡ true
    → contains p (permissions_of_all rs) ≡ true
unfolding permissions_of_all
contains-permissions_of_all p r [] h k = cc
contains-permissions_of_all p r (s ∷ rs) h k =
    rw (contains-append p (permissions_of s) (permissions_of_all rs)) (elim (Bool-cases (s == r)) [
      | inl same ↦ rw ((string_eq.test_iff s r).0 same) (rw k refl)
      | inr other ↦ ground (arith, contains-permissions_of_all p r rs)
    ])

Grants-of_expand :
    (roles : List String) (p : String)
    → contains p (expand (with_admin_alias roles)) ≡ true
    → Grants roles p
unfolding expand
Grants-of_expand roles p h =
    let all = with_admin_alias roles in
    elim (Bool-cases (contains p all)) [
      | inl inside ↦ itself (Holds-of_contains roles p inside)
      | inr outside ↦
          let (r, inside, k) =
            permissions_of_all-witness p all
              (ground (arith, contains-append p all (permissions_of_all all))) in
          carried r (Holds-of_contains roles r inside) k
    ]

expand-of_Grants :
    (roles : List String) (p : String)
    → Grants roles p
    → contains p (expand (with_admin_alias roles)) ≡ true
unfolding expand
expand-of_Grants roles p (itself h) =
    let all = with_admin_alias roles in
    rw (contains-append p all (permissions_of_all all)) (rw (contains-of_Holds roles p h) refl)
expand-of_Grants roles p (carried r h k) =
    let all = with_admin_alias roles in
    rw (contains-append p all (permissions_of_all all))
      (ground (arith, contains-permissions_of_all p r all (contains-of_Holds roles r h) k))

pub require-only :
    (roles : List String) (p : String)
    → require (many roles) (only p) ≡ require_roles roles (p ∷ [])
unfolding require require_roles permissions_of_all
require-only [] p = refl
require-only (r ∷ rs) p = refl

require-many :
    (roles reqs : List String) → require (many roles) (any_of reqs) ≡ require_roles roles reqs
unfolding require require_roles permissions_of_all
require-many [] reqs = refl
require-many (r ∷ rs) reqs = refl

require_roles_iff :
    (roles reqs : List String)
    → (require_roles roles reqs ≡ true)
      ↔ ((is_super roles ≡ true) ⊎ ((p : String) × (contains p reqs ≡ true) × Grants roles p))
unfolding require_roles
require_roles_iff roles reqs =
    let all = expand (with_admin_alias roles) in
    elim (Bool-cases (is_super roles)) [
      | inl super ↦ (λ h. inl super, λ h. rw super refl)
      | inr plain ↦ (
        λ h.
            let (p, inside, k) = (intersects_iff all reqs).0 (ground arith) in
            inr (p, k, Grants-of_expand roles p inside),
        elim [
          | inl super ↦ ground arith
          | inr g ↦
              rw plain ((intersects_iff all reqs).1 (g.0, expand-of_Grants roles g.0 g.2, g.1))
        ],
      )
    ]

-- The gate is exact: a list of roles passes for a set of requirements just when it holds
-- `super_admin` or `*`, or one of the requirements is a role it holds or a permission of a composite
-- role it holds. There is no step back from a permission to a role that would carry it.
pub require_iff :
    (roles reqs : List String)
    → (require (many roles) (any_of reqs) ≡ true)
      ↔ ((is_super roles ≡ true) ⊎ ((p : String) × (contains p reqs ≡ true) × Grants roles p))
require_iff roles reqs = rw (require-many roles reqs) (require_roles_iff roles reqs)

-- No permission list of the catalog holds a role's name.
entries_avoid : List String → List (String × List String) → Bool
entries_avoid names [] = true
entries_avoid names ((r, perms) ∷ rest) =
    if intersects names perms then false else entries_avoid names rest

catalog_avoids_roles : entries_avoid role_names permissions_catalog ≡ true
unfolding entries_avoid permissions_catalog
catalog_avoids_roles = refl

lookup-avoid :
    (names : List String) (cat : List (String × List String)) (r p : String)
    → entries_avoid names cat ≡ true
    → contains p names ≡ true
    → contains p (lookup_permissions r cat) ≡ false
unfolding entries_avoid lookup_permissions
lookup-avoid names [] r p h k = refl
lookup-avoid names ((role, perms) ∷ rest) r p h k = elim (Bool-cases (contains p perms)) [
  | inl bad ↦ let clash = (intersects_iff names perms).1 (p, k, bad) in cc (rw clash at h)
  | inr good ↦ ground (arith, lookup-avoid names rest r p)
]

not-contains-permissions_of :
    (r p : String) → contains p role_names ≡ true → contains p (permissions_of r) ≡ false
unfolding permissions_of
not-contains-permissions_of r p h =
    lookup-avoid role_names permissions_catalog r p catalog_avoids_roles h

pub not-contains-permissions_of_all :
    (p : String) (rs : List String)
    → contains p role_names ≡ true
    → contains p (permissions_of_all rs) ≡ false
unfolding permissions_of_all
not-contains-permissions_of_all p [] h = refl
not-contains-permissions_of_all p (r ∷ rs) h =
    rw (contains-append p (permissions_of r) (permissions_of_all rs))
      (rw (not-contains-permissions_of r p h) (not-contains-permissions_of_all p rs h))

pub intersects-one : (xs : List String) (p : String) → intersects xs (p ∷ []) ≡ contains p xs
intersects-one [] p = refl
intersects-one (x ∷ xs) p =
    ground (arith, intersects-one xs p, string_eq.test_iff p x, string_eq.test_iff x p)
