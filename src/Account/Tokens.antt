-- ===== src/Account/Tokens.antt =====
-- The refresh tokens and the selection challenges: their queries in ControlPlaneRepository, and
-- create_access_token, issue_refresh_token, _resolve_local_account and rotate_refresh_token of
-- app/domains/auth/service.py.
use sams_backend.Base.{
  ℕ, suc, ◌+◌, ◌*◌, String, List, [], ◌∷◌, ◌++◌, Option, none, some, Bool, true, false, not, ◌&&◌,
  ◌||◌, ◌==◌, string_eq, nat_eq, ltb, leb, first_row, where_rows, update_rows, is_some,
  if◌then◌else◌, is_text, Action, pure, raise, gets, modify, or_raise, ◌>>=◌, ◌>>◌, ⊤, value_error,
  type_error, unique_violation,
}
use sams_backend.Account.{Control, Outside, RefreshRow, ChallengeRow, AccountRow, Claims, Session}
use sams_backend.Account.Directory.{
  get_db_pool, get_identity_by_id, get_super_admin_by_email, get_user_by_email,
}

-- `list(dict.fromkeys(xs))`
abbrev pub distinct : List String → List String
distinct [] = []
distinct (x ∷ xs) = x ∷ where_rows (λ y. not (y == x)) (distinct xs)

abbrev pub no_roles : List String → Bool
no_roles [] = true
no_roles (x ∷ xs) = false

-- `[role] if role else []`
abbrev pub role_list : String → List String
role_list role = if is_text role then role ∷ [] else []

-- The role of a user, then the other roles, then the permissions.
unfoldable pub all_roles : AccountRow → List String
all_roles u = distinct (role_list u.role ++ u.roles ++ u.permissions)

unfoldable pub create_access_token :
    Outside → ℕ → String → String → String → List String → Option ℕ → Claims
create_access_token out user_id tenant_id role email roles identity_id = record {
  sub = user_id;
  tenant_id = tenant_id;
  role = role;
  roles = if no_roles roles then role_list role else roles;
  email = email;
  exp = out.now + out.access_minutes * 60;
  identity_id = identity_id;
}

abbrev pub has_digest : String → RefreshRow → Bool
has_digest token_hash r = r.token_hash == token_hash

unfoldable pub get_refresh_token : String → Control → Option RefreshRow
get_refresh_token token_hash s = first_row (has_digest token_hash) s.refresh_tokens

abbrev pub add_refresh_token : RefreshRow → Control → Control
add_refresh_token row s = record s {
  refresh_tokens = s.refresh_tokens ++ row ∷ [];
  next_id = suc s.next_id;
}

abbrev pub new_refresh_row : Outside → ℕ → ℕ → String → String → ℕ → RefreshRow
new_refresh_row out id identity_id tenant_id role family_id = record {
  id = id;
  token_hash = out.digest out.fresh_token;
  identity_id = identity_id;
  tenant_id = tenant_id;
  role = role;
  family_id = family_id;
  revoked_at = none;
  replaced_by = none;
  expires_at = out.now + out.refresh_days * 86400;
}

-- The insert of a new token, from the drawn secret; `token_hash` is UNIQUE.
unfoldable pub create_refresh_token : Outside → ℕ → String → String → ℕ → Action Control ⊤
create_refresh_token out identity_id tenant_id role family_id s =
    if is_some (get_refresh_token (out.digest out.fresh_token) s)
    then raise (unique_violation "refresh_tokens.token_hash") s
    else pure tt
        (add_refresh_token (new_refresh_row out s.next_id identity_id tenant_id role family_id) s)

abbrev pub is_token : ℕ → RefreshRow → Bool
is_token id r = r.id == id

abbrev pub retire : ℕ → ℕ → RefreshRow → RefreshRow
retire now new_id r = record r { revoked_at = some now; replaced_by = some new_id }

-- `rotate_refresh_token` of the repository.
unfoldable pub replace_token : ℕ → ℕ → ℕ → Control → Control
replace_token now old_id new_id s = record s {
  refresh_tokens = update_rows (is_token old_id) (retire now new_id) s.refresh_tokens;
}

abbrev pub is_live_in : ℕ → RefreshRow → Bool
is_live_in family_id r = r.family_id == family_id && not (is_some r.revoked_at)

abbrev pub revoke : ℕ → RefreshRow → RefreshRow
revoke now r = record r { revoked_at = some now }

unfoldable pub revoke_refresh_token_family : ℕ → ℕ → Control → Control
revoke_refresh_token_family now family_id s = record s {
  refresh_tokens = update_rows (is_live_in family_id) (revoke now) s.refresh_tokens;
}

-- The first token of a new family.
unfoldable pub issue_refresh_token : Outside → ℕ → String → String → Action Control String
issue_refresh_token out identity_id tenant_id role = do
  create_refresh_token out identity_id tenant_id role out.fresh_family
  pure out.fresh_token

-- The local user id, the role and the roles of an account.
pub record Local : Type 0 where
  pub user_id : ℕ
  pub role : String
  pub roles : List String

abbrev known_account : {A : Type 0} → Option A → Action Control A
known_account found = or_raise found (value_error "Account no longer exists")

abbrev pub parent_local : AccountRow → Local
parent_local u = record { user_id = u.id; role = "parent"; roles = "parent" ∷ [] }

abbrev pub local_user : String → AccountRow → Local
local_user role u =
    if role == "parent" && u.role == "parent"
    then parent_local u
    else record { user_id = u.id; role = u.role; roles = all_roles u }

unfoldable pub resolve_in_tenant : Outside → String → String → String → Action Control Local
resolve_in_tenant out email tenant_id role = do
  get_db_pool out tenant_id
  found ← gets (get_user_by_email tenant_id email)
  user ← known_account found
  pure (local_user role user)

unfoldable pub resolve_super_admin : String → Action Control Local
resolve_super_admin email = do
  found ← gets (get_super_admin_by_email email)
  admin ← known_account found
  pure (record { user_id = admin.id; role = "super_admin"; roles = "super_admin" ∷ [] })

abbrev pub is_super_session : String → String → Bool
is_super_session tenant_id role = not (is_text tenant_id) || role == "super_admin"

unfoldable pub resolve_local_account : Outside → ℕ → String → String → Action Control Local
resolve_local_account out identity_id tenant_id role = do
  found ← gets (get_identity_by_id identity_id)
  identity ← known_account found
  (if is_super_session tenant_id role
      then resolve_super_admin identity.email
      else resolve_in_tenant out identity.email tenant_id role)

abbrev pub new_session : Outside → RefreshRow → Local → Session
new_session out row account = record {
  access_token =
      create_access_token out account.user_id row.tenant_id account.role "" account.roles
        (some row.identity_id);
  refresh_token = out.fresh_token;
}

-- The new token of the same family, and the end of the presented one.
unfoldable pub replace_row : Outside → RefreshRow → Local → Action Control Session
replace_row out row account = do
  create_refresh_token out row.identity_id row.tenant_id account.role row.family_id
  found ← gets (get_refresh_token (out.digest out.fresh_token))
  new_row ← or_raise found (type_error "'NoneType' object is not subscriptable")
  modify (replace_token out.now row.id new_row.id)
  pure (new_session out row account)

unfoldable pub renew : Outside → RefreshRow → Action Control Session
renew out row =
    resolve_local_account out row.identity_id row.tenant_id row.role >>= replace_row out row

-- A presented token that is revoked ends its family; one that is past its time is refused.
unfoldable pub redeem_row : Outside → RefreshRow → Action Control Session
redeem_row out row s =
    if is_some row.revoked_at
    then raise (value_error "Invalid refresh token")
        (revoke_refresh_token_family out.now row.family_id s)
    else if leb row.expires_at out.now
    then raise (value_error "Refresh token expired") s
    else renew out row s

unfoldable pub rotate_refresh_token : Outside → String → Action Control Session
rotate_refresh_token out raw_token = do
  found ← gets (get_refresh_token (out.digest raw_token))
  row ← or_raise found (value_error "Invalid refresh token")
  redeem_row out row

abbrev pub is_challenge : String → ChallengeRow → Bool
is_challenge token_hash c = c.token_hash == token_hash

-- `token_hash` is UNIQUE.
unfoldable pub create_selection_challenge : Outside → ℕ → List String → Action Control ⊤
create_selection_challenge out identity_id matched_tenants s =
    let token_hash = out.digest out.fresh_token in
    let row : ChallengeRow = record {
      token_hash = token_hash;
      identity_id = identity_id;
      matched_tenants = matched_tenants;
      consumed_at = none;
      expires_at = out.now + 2 * 60;
    } in
    if is_some (first_row (is_challenge token_hash) s.challenges)
    then raise (unique_violation "auth_selection_challenges.token_hash") s
    else pure tt (record s { challenges = s.challenges ++ row ∷ [] })

-- Not consumed, and not past its time.
abbrev pub is_redeemable : ℕ → String → ChallengeRow → Bool
is_redeemable now token_hash c =
    is_challenge token_hash c && (not (is_some c.consumed_at) && ltb now c.expires_at)

abbrev pub consume : ℕ → ChallengeRow → ChallengeRow
consume now c = record c { consumed_at = some now }

-- `UPDATE … SET consumed_at … WHERE … RETURNING`
unfoldable pub redeem_selection_challenge :
    Outside → String → Control → Option ChallengeRow × Control
redeem_selection_challenge out token_hash s = (
  first_row (is_redeemable out.now token_hash) s.challenges,
  record s {
    challenges = update_rows (is_redeemable out.now token_hash) (consume out.now) s.challenges;
  },
)
