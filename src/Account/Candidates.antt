-- ===== src/Account/Candidates.antt =====
-- Whose password hash a login checks: _enumerate_login_tenants, _fetch_login_candidate and
-- _legacy_scan_for_candidate of app/domains/auth/service.py.
use sams_backend.Base.{
  String, List, [], ◌∷◌, ◌++◌, Option, none, some, Bool, false, ◌==◌, nat_eq, string_eq,
  if◌then◌else◌, is_text, Action, ok, err, pure, ◌>>=◌,
}
use sams_backend.Account.{
  Control, Outside, TenantRow, MembershipRow, ParentRow, SuperAdminRow, AccountRow,
}
use sams_backend.Account.Directory.{
  get_db_pool, get_parent_by_email, get_super_admin_by_email, check_parent_tenant_link,
  get_tenants_for_parent, get_tenants_for_email, get_user_by_email,
}
use sams_backend.Account.Tokens.{distinct}

unfoldable pub verify_password : Outside → String → String → Bool
verify_password out password password_hash = elim (out.verify password password_hash) [
  | none ↦ false
  | some answer ↦ answer
]

-- `m["tenant_id"] for m in … if m.get("tenant_id")`
abbrev pub named_tenants : List MembershipRow → List String
named_tenants [] = []
named_tenants (m ∷ ms) =
    let rest = named_tenants ms in if is_text m.tenant_id then m.tenant_id ∷ rest else rest

abbrev pub tenants_of_parent : Option ParentRow → Control → List String
tenants_of_parent none s = []
tenants_of_parent (some p) s = get_tenants_for_parent p.id s

abbrev pub home_of : Option SuperAdminRow → List String
home_of none = []
home_of (some a) = "" ∷ []

-- `_enumerate_login_tenants`: the set of tenants.
unfoldable pub enumerate_login_tenants : String → Control → List String
enumerate_login_tenants email s = distinct (
    named_tenants (get_tenants_for_email email s)
    ++ tenants_of_parent (get_parent_by_email email s) s
    ++ home_of (get_super_admin_by_email email s))

pub data Holder : Type 0 where
  as_super_admin : SuperAdminRow → Holder
  as_parent : ParentRow → Holder
  as_user : AccountRow → Holder

-- An account whose password hash is to be checked, for one tenant.
pub record Candidate : Type 0 where
  pub tenant_id : String
  pub hash : String
  pub holder : Holder

unfoldable pub user_candidate : String → Option AccountRow → Option Candidate
user_candidate tenant_id none = none
user_candidate tenant_id (some u) =
    if is_text u.password_hash
    then some (record { tenant_id = tenant_id; hash = u.password_hash; holder = as_user u })
    else none

-- The look into the tenant's own table; a tenant that does not answer gives nothing.
unfoldable pub local_candidate : Outside → String → String → Action Control (Option Candidate)
local_candidate out email tenant_id s =
    let (r, t) = get_db_pool out tenant_id s in
    elim r [
      | ok u ↦ pure (user_candidate tenant_id (get_user_by_email tenant_id email t)) t
      | err e ↦ pure none t
    ]

abbrev pub admin_candidate : String → SuperAdminRow → Candidate
admin_candidate tenant_id a = record {
  tenant_id = tenant_id;
  hash = a.password_hash;
  holder = as_super_admin a;
}

abbrev pub parent_candidate : String → ParentRow → Candidate
parent_candidate tenant_id p = record {
  tenant_id = tenant_id;
  hash = p.password_hash;
  holder = as_parent p;
}

-- `if parent and await cp_repo.check_parent_tenant_link(…)`, then the tenant's own table.
unfoldable pub tenant_candidate :
    Outside → String → String → Option ParentRow → Action Control (Option Candidate)
tenant_candidate out email tenant_id none s = local_candidate out email tenant_id s
tenant_candidate out email tenant_id (some p) s =
    if check_parent_tenant_link p.id tenant_id s
    then pure (some (parent_candidate tenant_id p)) s
    else local_candidate out email tenant_id s

unfoldable pub fetch_login_candidate :
    Outside
    → String
    → String
    → Option ParentRow
    → Option SuperAdminRow
    → Action Control (Option Candidate)
fetch_login_candidate out email tenant_id parent none s =
    tenant_candidate out email tenant_id parent s
fetch_login_candidate out email tenant_id parent (some a) s =
    if tenant_id == ""
    then pure (some (admin_candidate tenant_id a)) s
    else tenant_candidate out email tenant_id parent s

abbrev pub keep_some : Option Candidate → List Candidate → List Candidate
keep_some none cs = cs
keep_some (some c) cs = c ∷ cs

unfoldable pub fetch_candidates :
    Outside
    → String
    → Option ParentRow
    → Option SuperAdminRow
    → List String
    → Action Control (List Candidate)
fetch_candidates out email parent super_admin [] = pure []
fetch_candidates out email parent super_admin (tenant_id ∷ rest) =
    fetch_login_candidate out email tenant_id parent super_admin >>= λ found.
    fetch_candidates out email parent super_admin rest >>= λ more. pure (keep_some found more)

-- `_legacy_scan_for_candidate`: the first tenant whose own table has the account.
unfoldable pub legacy_scan : Outside → String → List TenantRow → Action Control (Option Candidate)
legacy_scan out email [] = pure none
legacy_scan out email (t ∷ ts) =
    (if is_text t.tenant_id then local_candidate out email t.tenant_id else pure none) >>= λ found.
    elim found [ some c ↦ pure (some c) | none ↦ legacy_scan out email ts ]
