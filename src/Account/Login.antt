-- ===== src/Account/Login.antt =====
-- _complete_login and login_user of app/domains/auth/service.py, with what they are made of. The set of
-- tenants of an account is walked in the order that `walk` gives; the padding comparisons and the
-- background call to the identity provider write nothing and are left out.
use mathlib.Core.List
use sams_backend.Base.{
  ℕ, zero, suc, String, List, [], ◌∷◌, Option, none, some, Bool, true, false, nat_eq, string_eq,
  where_rows, contains, if◌then◌else◌, is_text, normal_email, Action, pure, raise, gets, modify,
  require_that, ◌>>=◌, ◌>>◌, value_error,
}
use sams_backend.Account.{Control, Outside, ParentRow, SuperAdminRow, AccountRow, Session}
use sams_backend.Account.Directory.{
  get_db_pool, get_or_create_identity, get_parent_by_email, get_super_admin_by_email,
  check_parent_tenant_link, get_user_by_email, create_user, create_parent_profile,
}
use sams_backend.Account.Memberships.{upsert_user_tenant_map}
use sams_backend.Account.Tokens.{
  all_roles, create_access_token, issue_refresh_token, create_selection_challenge,
}
use sams_backend.Account.Candidates.{
  Candidate, Holder, as_super_admin, as_parent, as_user, enumerate_login_tenants, fetch_candidates,
  fetch_login_candidate, legacy_scan, verify_password,
}

-- Who is logged in, and where: what the two tokens are made from.
pub record Login : Type 0 where
  pub user_id : ℕ
  pub tenant_id : String
  pub role : String
  pub roles : List String

unfoldable pub open_session : Outside → String → ℕ → Login → Action Control Session
open_session out email identity_id login =
    issue_refresh_token out identity_id login.tenant_id login.role >>= λ refresh_token.
    pure (record {
      access_token =
          create_access_token out login.user_id login.tenant_id login.role email login.roles
            (some identity_id);
      refresh_token = refresh_token;
    })

-- The local user of a parent, made at the first login into a school.
unfoldable pub local_parent_id : String → String → ParentRow → Action Control ℕ
local_parent_id email tenant_id p s = elim (get_user_by_email tenant_id email s) [
  | some u ↦ pure u.id s
  | none ↦
      (create_user tenant_id email p.password_hash "parent" >>= λ user_id.
      modify (create_parent_profile tenant_id user_id p.phone) >> pure user_id)
        s
]

unfoldable pub parent_login : Outside → String → String → ParentRow → Action Control Login
parent_login out email tenant_id p = do
  linked ← gets (check_parent_tenant_link p.id tenant_id)
  require_that linked (value_error "Invalid email or password")
  get_db_pool out tenant_id
  user_id ← local_parent_id email tenant_id p
  upsert_user_tenant_map out.now email tenant_id "parent"
  pure (record { user_id = user_id; tenant_id = tenant_id; role = "parent"; roles = [] })

unfoldable pub user_login : Outside → String → String → AccountRow → Action Control Login
user_login out email tenant_id u = do
  upsert_user_tenant_map out.now email tenant_id u.role
  pure (record { user_id = u.id; tenant_id = tenant_id; role = u.role; roles = all_roles u })

unfoldable pub login_of : Outside → String → Candidate → Action Control Login
login_of out email c = elim c.holder [
  | as_super_admin a ↦
      pure (record { user_id = a.id; tenant_id = ""; role = "super_admin"; roles = [] })
  | as_parent p ↦ parent_login out email c.tenant_id p
  | as_user u ↦ user_login out email c.tenant_id u
]

unfoldable pub complete_login : Outside → String → Candidate → Action Control Session
complete_login out email chosen s =
    let (identity, t) = get_or_create_identity email s in
    (login_of out email chosen >>= open_session out email identity.id) t

pub data LoginResult : Type 0 where
  session : Session → LoginResult
  select_tenant : String → List (String × String) → LoginResult

abbrev pub role_of : Holder → String
role_of (as_super_admin a) = "super_admin"
role_of (as_parent p) = "parent"
role_of (as_user u) = u.role

unfoldable pub issue_login_selection_challenge :
    Outside → String → List Candidate → Action Control LoginResult
issue_login_selection_challenge out email matched s =
    let (identity, t) = get_or_create_identity email s in
    (create_selection_challenge out identity.id (List.map (λ (c : Candidate). c.tenant_id) matched)
        >> pure (
            select_tenant out.fresh_token
              (List.map (λ (c : Candidate). (c.tenant_id, role_of c.holder)) matched)))
      t

unfoldable pub finish_login : Outside → String → Candidate → Action Control LoginResult
finish_login out email chosen = complete_login out email chosen >>= λ made. pure (session made)

-- `if not chosen or not verify_password(…)`, then the session.
unfoldable pub login_as : Outside → String → String → Option Candidate → Action Control LoginResult
login_as out email password none = raise (value_error "Invalid email or password")
login_as out email password (some chosen) =
    require_that (verify_password out password chosen.hash)
      (value_error "Invalid email or password")
    >> finish_login out email chosen

unfoldable pub login_into :
    Outside
    → String
    → String
    → String
    → List String
    → Option ParentRow
    → Option SuperAdminRow
    → Action Control LoginResult
login_into out email password tenant_id tenants parent super_admin =
    require_that (contains tenant_id tenants) (value_error "Invalid email or password")
    >> (fetch_login_candidate out email tenant_id parent super_admin
        >>= login_as out email password)

unfoldable pub login_legacy : Outside → String → String → Action Control LoginResult
login_legacy out email password = gets (λ (s : Control). s.tenants) >>= λ ts.
    legacy_scan out email ts >>= λ found. elim found [
      | none ↦ raise (
          value_error
            "This account is not associated with a school. Ask an administrator to invite you to one.")
      | some c ↦ login_as out email password (some c)
    ]

-- No match is refused, one match is a session, and several are a question.
unfoldable pub settle_matches : Outside → String → List Candidate → Action Control LoginResult
settle_matches out email [] = raise (value_error "Invalid email or password")
settle_matches out email (c ∷ []) = finish_login out email c
settle_matches out email (c ∷ d ∷ cs) = issue_login_selection_challenge out email (c ∷ d ∷ cs)

-- `list(tenant_ids)[:8]`
abbrev pub take : ℕ → List String → List String
take zero xs = []
take (suc n) [] = []
take (suc n) (x ∷ xs) = x ∷ take n xs

unfoldable pub login_anywhere :
    Outside
    → String
    → String
    → List String
    → Option ParentRow
    → Option SuperAdminRow
    → Action Control LoginResult
login_anywhere out email password tenants parent super_admin =
    fetch_candidates out email parent super_admin (take 8 tenants) >>= λ candidates.
    settle_matches out email
      (where_rows (λ (c : Candidate). verify_password out password c.hash) candidates)

abbrev pub is_named : Option String → Bool
is_named none = false
is_named (some tenant_id) = is_text tenant_id

abbrev pub name_or_empty : Option String → String
name_or_empty none = ""
name_or_empty (some tenant_id) = tenant_id

abbrev pub no_tenants : List String → Bool
no_tenants [] = true
no_tenants (t ∷ ts) = false

unfoldable pub login_user :
    (List String → List String)
    → Outside
    → String
    → String
    → Option String
    → Action Control LoginResult
login_user walk out given password tenant_id s =
    let email = normal_email given in
    let tenants = walk (enumerate_login_tenants email s) in
    let parent = get_parent_by_email email s in
    let super_admin = get_super_admin_by_email email s in
    if is_named tenant_id
    then login_into out email password (name_or_empty tenant_id) tenants parent super_admin s
    else if no_tenants tenants
    then login_legacy out email password s
    else login_anywhere out email password tenants parent super_admin s
