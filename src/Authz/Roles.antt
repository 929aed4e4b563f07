-- ===== src/Authz/Roles.antt =====
-- Roles at the two gates of the program: `authz.require` of app/core/authz.py and `has_role` of
-- app/core/dependencies.py.
use sams_backend.Base.{
  String, List, [], ◌∷◌, Bool, true, false, ◌||◌, ◌&&◌, ◌==◌, if◌then◌else◌, string_eq, contains,
  contains-append, Bool-cases, ◌≡◌, refl, sym, ap, ◌∙◌, ◌≢◌, inl, inr, arith,
}
use sams_backend.Authz.{
  many, only, CurrentUser, permissions_of, permissions_of_all, role_names, is_super,
  with_admin_alias, expand, require_roles, require, identity_roles, carries, has_role,
}
use sams_backend.Authz.Gate.{require-only, intersects-one, not-contains-permissions_of_all}

str_eq_comm : (a b : String) → (a == b) ≡ (b == a)
str_eq_comm a b = elim (Bool-cases (a == b)) [
  | inl same ↦ rw ((string_eq.test_iff a b).0 same)
  | inr apart ↦ elim (Bool-cases (b == a)) [
    | inl same ↦ rw ((string_eq.test_iff b a).0 same)
    | inr other ↦ apart ∙ sym other
  ]
]

contains-with_admin_alias :
    (p : String) (roles : List String)
    → contains p (with_admin_alias roles)
      ≡ ((p == "school_admin" && contains "admin" roles) || contains p roles)
contains-with_admin_alias p roles = elim (Bool-cases (contains "admin" roles)) [
  | inl admin ↦ rw admin (rw (str_eq_comm "school_admin" p) (and_or (p == "school_admin") _))
  | inr plain ↦ rw plain (plain_or (p == "school_admin") _)
]
  where
    and_or : (a b : Bool) → (a || b) ≡ ((a && true) || b)
    and_or a b = ground arith

    plain_or : (a b : Bool) → b ≡ ((a && false) || b)
    plain_or a b = ground arith

if_or : (a b c : Bool) → (if a then true else (b || c || false)) ≡ (a || c || b)
if_or a b c = ground arith

-- A role's name is passed only by holding that very role, by `admin` in place of `school_admin`, or
-- by `super_admin` and `*`: no permission, and no other role, opens it.
pub require-role :
    (roles : List String) (p : String)
    → contains p role_names ≡ true
    → require (many roles) (only p)
      ≡ (is_super roles || contains p roles || (p == "school_admin" && contains "admin" roles))
unfolding require_roles expand
require-role roles p h =
    let all = with_admin_alias roles in
    rw (require-only roles p) (
      rw (intersects-one (expand all) p) (
        rw (contains-append p all (permissions_of_all all)) (
          rw (not-contains-permissions_of_all p all h) (
            rw (contains-with_admin_alias p roles)
              (if_or (is_super roles) (p == "school_admin" && contains "admin" roles) _)))))

carries-permissions_of_all :
    (name : String) (rs : List String) → carries name rs ≡ contains name (permissions_of_all rs)
unfolding carries permissions_of_all
carries-permissions_of_all name [] = refl
carries-permissions_of_all name (r ∷ rs) =
    rw (contains-append name (permissions_of r) (permissions_of_all rs))
      (rw (carries-permissions_of_all name rs) refl)

-- In the catalog `admin` and `school_admin` carry the same permissions.
permissions_of-admin : permissions_of "admin" ≡ permissions_of "school_admin"
unfolding permissions_of
permissions_of-admin = refl

carries_of_contains :
    (name r : String) (rs : List String)
    → contains r rs ≡ true
    → contains name (permissions_of r) ≡ true
    → carries name rs ≡ true
unfolding carries
carries_of_contains name r [] h k = cc
carries_of_contains name r (s ∷ rs) h k = elim (Bool-cases (s == r)) [
  | inl same ↦ rw ((string_eq.test_iff s r).0 same) (rw k refl)
  | inr other ↦ ground (arith, carries_of_contains name r rs)
]

-- `super_admin` aside, what the alias adds to the composite roles' permissions is carried already.
carries-with_admin_alias :
    (name : String) (roles : List String)
    → carries name (with_admin_alias roles) ≡ carries name roles
carries-with_admin_alias name roles = elim (Bool-cases (contains "admin" roles)) [
  | inl admin ↦ rw admin (elim (Bool-cases (contains name (permissions_of "school_admin"))) [
    | inl held ↦
        unfold carries in
        rw held (sym (carries_of_contains name "admin" roles admin (rw permissions_of-admin held)))
    | inr lacking ↦ unfold carries in rw lacking refl
  ])
  | inr plain ↦ rw plain refl
]

other_name : (name : String) → name ≢ "admin" → (name == "admin") ≡ false
other_name name h = elim (Bool-cases (name == "admin")) [
  | inl same ↦ absurd (h ((string_eq.test_iff name "admin").0 same))
  | inr apart ↦ apart
]

same_ladder :
    (a admin school s d n c : Bool)
    → admin ≡ false
    → (school ≡ true → n ≡ s)
    → (if a then true else if (admin || school) && (s || d) then true else if n then true else c)
      ≡ (if a then true else (school && d || n || c))
same_ladder a admin school s d n c h k = ground arith

-- The two gates agree on every role and permission but the bare name `admin`: what a user's
-- `has_role` says is what `authz.require` says of the user's set of roles.
pub has_role-require :
    (u : CurrentUser) (name : String)
    → name ≢ "admin"
    → has_role u name ≡ require (many (identity_roles u)) (only name)
unfolding require_roles expand
has_role-require u name h =
    let roles = identity_roles u in
    let all = with_admin_alias roles in
    rw (require-only roles name) (
      rw (intersects-one (expand all) name) (
        rw (contains-append name all (permissions_of_all all)) (
          rw (← carries-permissions_of_all name all) (
            rw (carries-with_admin_alias name roles) (
              rw (contains-with_admin_alias name roles) (
                unfold has_role in
                same_ladder (is_super roles) (name == "admin") (name == "school_admin")
                  (contains "school_admin" roles) (contains "admin" roles) (contains name roles)
                  (carries name roles) (other_name name h)
                  (λ e.
                    ap (λ r. contains r roles) ((string_eq.test_iff name "school_admin").0 e))))))))
