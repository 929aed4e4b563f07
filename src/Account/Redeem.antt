-- ===== src/Account/Redeem.antt =====
-- login_redeem of app/domains/auth/service.py: a selection challenge is exchanged for a session.
use sams_backend.Base.{
  ℕ, String, Option, none, some, ◌==◌, string_eq, contains, if◌then◌else◌, is_text, Action, Result,
  ok, err, Error, raise, gets, modify, or_raise, require_that, ◌>>=◌, ◌>>◌, value_error,
  permission_error, type_error, unique_violation, not_null_violation, foreign_key_violation,
  check_violation, runtime_error, data_error, http_error,
}
use sams_backend.Account.{Control, Outside, ChallengeRow, MembershipRow, IdentityRow, Session}
use sams_backend.Account.Directory.{get_identity_by_id}
use sams_backend.Account.Memberships.{get_membership, touch_membership_last_active}
use sams_backend.Account.Tokens.{Local, resolve_local_account, redeem_selection_challenge}
use sams_backend.Account.Login.{Login, open_session}

abbrev pub refused_token : Error
refused_token = value_error "Invalid or expired selection token"

-- `except ValueError as exc: raise ValueError("Invalid or expired selection token") from exc`
abbrev relabel : Error → Error
relabel (value_error m) = refused_token
relabel (permission_error m) = permission_error m
relabel (type_error m) = type_error m
relabel (unique_violation m) = unique_violation m
relabel (not_null_violation m) = not_null_violation m
relabel (foreign_key_violation m) = foreign_key_violation m
relabel (check_violation m) = check_violation m
relabel (data_error m) = data_error m
relabel (runtime_error m) = runtime_error m
relabel (http_error code m) = http_error code m

abbrev pub relabel_outcome : {A : Type 0} → Result A × Control → Result A × Control
relabel_outcome (ok a, t) = (ok a, t)
relabel_outcome (err e, t) = (err (relabel e), t)

abbrev pub relabelled : {A : Type 0} → Action Control A → Action Control A
relabelled m s = relabel_outcome (m s)

abbrev pub role_or_empty : Option MembershipRow → String
role_or_empty none = ""
role_or_empty (some m) = m.role

-- The role that tells whether this is the parent branch.
abbrev pub hint_role : ℕ → String → Control → String
hint_role identity_id tenant_id s =
    if tenant_id == ""
    then "super_admin"
    else if is_text tenant_id
    then role_or_empty (get_membership identity_id tenant_id s)
    else ""

abbrev pub touch : ℕ → ℕ → String → Control → Control
touch now identity_id tenant_id s =
    if is_text tenant_id then touch_membership_last_active now identity_id tenant_id s else s

abbrev pub login_from : String → Local → Login
login_from tenant_id account = record {
  user_id = account.user_id;
  tenant_id = tenant_id;
  role = account.role;
  roles = account.roles;
}

unfoldable pub seat_in : Outside → String → ℕ → Local → IdentityRow → Action Control Session
seat_in out tenant_id identity_id account identity =
    modify (touch out.now identity_id tenant_id)
    >> open_session out identity.email identity_id (login_from tenant_id account)

unfoldable pub enter : Outside → String → ℕ → Action Control Session
enter out tenant_id identity_id = gets (hint_role identity_id tenant_id) >>= λ hint.
    relabelled (resolve_local_account out identity_id tenant_id hint) >>= λ account.
    gets (get_identity_by_id identity_id) >>= λ found.
    or_raise found (type_error "'NoneType' object is not subscriptable")
    >>= seat_in out tenant_id identity_id account

-- What follows the redemption, which has been written by then.
unfoldable pub admit : Outside → String → Option ChallengeRow → Action Control Session
admit out tenant_id none = raise refused_token
admit out tenant_id (some c) =
    require_that (contains tenant_id c.matched_tenants) refused_token
    >> enter out tenant_id c.identity_id

unfoldable pub login_redeem : Outside → String → String → Action Control Session
login_redeem out selection_token tenant_id s =
    let (found, t) = redeem_selection_challenge out (out.digest selection_token) s in
    admit out tenant_id found t
