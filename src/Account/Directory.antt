-- ===== src/Account/Directory.antt =====
-- Who is known where: the queries of ControlPlaneRepository on tenants, identities, parents, super
-- administrators and their links, and those of UserRepository on the users of a tenant.
use mathlib.Core.List
use sams_backend.Base.{
  ℕ, suc, String, List, [], ◌∷◌, ◌++◌, Option, none, some, Bool, not, ◌&&◌, ◌==◌, string_eq, nat_eq,
  first_row, where_rows, update_rows, contains, is_some, if◌then◌else◌, strip, is_text,
  normal_email, same_text, Action, pure, raise, modify, require_that, ◌>>◌, ⊤, value_error,
  unique_violation, foreign_key_violation, runtime_error,
}
use sams_backend.Account.{
  Control, Outside, TenantRow, IdentityRow, MembershipRow, ParentRow, SuperAdminRow, ParentLinkRow,
  AccountRow, ProfileRow,
}

abbrev pub is_tenant : String → TenantRow → Bool
is_tenant tenant_id t = t.tenant_id == tenant_id

-- `REFERENCES tenants(tenant_id)`
unfoldable pub has_tenant : String → Control → Bool
has_tenant tenant_id s = is_some (first_row (is_tenant tenant_id) s.tenants)

-- "Auto-register dynamic tenant in control plane"
abbrev pub register_tenant : String → Control → Control
register_tenant tenant_id s =
    if has_tenant tenant_id s
    then s
    else record s { tenants = s.tenants ++ record { tenant_id = tenant_id } ∷ [] }

-- The pool of a tenant, once its database answers.
unfoldable pub get_db_pool : Outside → String → Action Control ⊤
get_db_pool out tenant_id = do
  modify (register_tenant tenant_id)
  require_that (out.answers tenant_id) (runtime_error "could not connect to the tenant database")

unfoldable pub get_identity_by_id : ℕ → Control → Option IdentityRow
get_identity_by_id identity_id s = first_row (λ (i : IdentityRow). i.id == identity_id) s.identities

-- `INSERT … ON CONFLICT (email) DO UPDATE SET email = EXCLUDED.email RETURNING …`
unfoldable pub get_or_create_identity : String → Control → IdentityRow × Control
get_or_create_identity email s =
    let key = normal_email email in
    let row : IdentityRow = record { id = s.next_id; email = key } in
    elim (first_row (λ (i : IdentityRow). same_text i.email key) s.identities) [
      | some i ↦ (
        record i { email = key },
        record s {
          identities =
              update_rows (λ (j : IdentityRow). same_text j.email key)
                (λ (j : IdentityRow). record j { email = key }) s.identities;
        },
      )
      | none ↦ (row, record s { identities = s.identities ++ row ∷ []; next_id = suc s.next_id })
    ]

unfoldable pub get_parent_by_email : String → Control → Option ParentRow
get_parent_by_email email s = first_row (λ (p : ParentRow). same_text p.email email) s.parents

-- `email` is UNIQUE.
unfoldable pub create_global_parent : String → String → Action Control ℕ
create_global_parent email password_hash s =
    let row : ParentRow = record {
      id = s.next_id;
      email = email;
      password_hash = password_hash;
      phone = none;
    } in
    if is_some (get_parent_by_email email s)
    then raise (unique_violation "parents.email") s
    else pure s.next_id (record s { parents = s.parents ++ row ∷ []; next_id = suc s.next_id })

unfoldable pub update_parent_password : ℕ → String → Control → Control
update_parent_password parent_id password_hash s = record s {
  parents =
      update_rows (λ (p : ParentRow). p.id == parent_id)
        (λ (p : ParentRow). record p { password_hash = password_hash }) s.parents;
}

unfoldable pub get_super_admin_by_email : String → Control → Option SuperAdminRow
get_super_admin_by_email email s =
    first_row (λ (a : SuperAdminRow). same_text a.email email) s.super_admins

unfoldable pub create_super_admin : String → String → Action Control ℕ
create_super_admin email password_hash s =
    let row : SuperAdminRow = record {
      id = s.next_id;
      email = email;
      password_hash = password_hash;
    } in
    if is_some (get_super_admin_by_email email s)
    then raise (unique_violation "super_admins.email") s
    else pure s.next_id
        (record s { super_admins = s.super_admins ++ row ∷ []; next_id = suc s.next_id })

unfoldable pub update_super_admin_password : ℕ → String → Control → Control
update_super_admin_password super_admin_id password_hash s = record s {
  super_admins =
      update_rows (λ (a : SuperAdminRow). a.id == super_admin_id)
        (λ (a : SuperAdminRow). record a { password_hash = password_hash }) s.super_admins;
}

-- The answer tells whether a row was removed.
unfoldable pub remove_super_admin : String → Control → Bool × Control
remove_super_admin email s =
    let key = strip email in
    (
      is_some (get_super_admin_by_email key s),
      record s {
        super_admins =
            where_rows (λ (a : SuperAdminRow). not (same_text a.email key)) s.super_admins;
      },
    )

abbrev pub is_parent_link : ℕ → String → ParentLinkRow → Bool
is_parent_link parent_id tenant_id l = l.parent_id == parent_id && l.tenant_id == tenant_id

unfoldable pub check_parent_tenant_link : ℕ → String → Control → Bool
check_parent_tenant_link parent_id tenant_id s =
    is_some (first_row (is_parent_link parent_id tenant_id) s.parent_links)

-- `ON CONFLICT (parent_id, tenant_id) DO NOTHING`
unfoldable pub add_parent_tenant_link : ℕ → String → Action Control ⊤
add_parent_tenant_link parent_id tenant_id s =
    if check_parent_tenant_link parent_id tenant_id s
    then pure tt s
    else if has_tenant tenant_id s
    then pure tt (record s {
      parent_links = s.parent_links ++ record { parent_id = parent_id; tenant_id = tenant_id } ∷ [];
    })
    else raise (foreign_key_violation "parent_tenant_links.tenant_id") s

unfoldable pub get_tenants_for_parent : ℕ → Control → List String
get_tenants_for_parent parent_id s =
    List.map (λ (l : ParentLinkRow). l.tenant_id)
      (where_rows (λ (l : ParentLinkRow). l.parent_id == parent_id) s.parent_links)

unfoldable pub get_tenants_for_email : String → Control → List MembershipRow
get_tenants_for_email email s =
    let key = normal_email email in
    where_rows (λ (m : MembershipRow). same_text m.email key) s.memberships

abbrev pub is_account : String → String → AccountRow → Bool
is_account schema email u = u.schema == schema && same_text u.email email

-- `get_user_by_email` in the schema of a tenant.
unfoldable pub get_user_by_email : String → String → Control → Option AccountRow
get_user_by_email schema email s =
    if is_text email then first_row (is_account schema (strip email)) s.accounts else none

abbrev pub valid_roles : List String
valid_roles =
    "super_admin" ∷ "school_admin" ∷ "admin" ∷ "teacher" ∷ "parent" ∷ "student" ∷ "manager"
    ∷ "event_teacher" ∷ "pending" ∷ []

unfoldable pub create_user : String → String → String → String → Action Control ℕ
create_user schema email password_hash role s =
    let key = normal_email email in
    let row : AccountRow = record {
      schema = schema;
      id = s.next_id;
      email = key;
      password_hash = password_hash;
      role = role;
      roles = [];
      permissions = [];
    } in
    if not (contains role valid_roles)
    then raise (value_error "Invalid tenant user role: {role}") s
    else if is_some (first_row (is_account schema key) s.accounts)
    then raise (value_error "Email already registered") s
    else pure s.next_id (record s { accounts = s.accounts ++ row ∷ []; next_id = suc s.next_id })

unfoldable pub update_user_password_hash : String → ℕ → String → Control → Control
update_user_password_hash schema user_id password_hash s = record s {
  accounts =
      update_rows (λ (u : AccountRow). u.schema == schema && u.id == user_id)
        (λ (u : AccountRow). record u { password_hash = password_hash }) s.accounts;
}

abbrev pub is_profile : String → ℕ → ProfileRow → Bool
is_profile schema user_id p = p.schema == schema && p.id == user_id

abbrev with_phone : Option String → ProfileRow → ProfileRow
with_phone phone p = record p { phone = phone }

-- `create_parent` of TenantRepository: the profile in the schema of a tenant.
unfoldable pub create_parent_profile : String → ℕ → Option String → Control → Control
create_parent_profile schema user_id phone s =
    let row : ProfileRow = record { schema = schema; id = user_id; phone = phone } in
    if is_some (first_row (is_profile schema user_id) s.parent_profiles)
    then record s {
      parent_profiles =
          update_rows (is_profile schema user_id) (with_phone phone) s.parent_profiles;
    }
    else record s { parent_profiles = s.parent_profiles ++ row ∷ [] }

-- `create_teacher` of TenantRepository; on a conflict it only renames.
unfoldable pub create_teacher_profile : String → ℕ → Control → Control
create_teacher_profile schema user_id s =
    let row : ProfileRow = record { schema = schema; id = user_id; phone = none } in
    if is_some (first_row (is_profile schema user_id) s.teacher_profiles)
    then s
    else record s { teacher_profiles = s.teacher_profiles ++ row ∷ [] }
