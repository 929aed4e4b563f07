-- ===== src/Account/Tests.antt =====
-- A control plane with two schools, and the theorems on accounts at it.
use sams_backend.Base.{
  ℕ, String, List, [], ◌∷◌, none, some, true, false, ◌==◌, nat_eq, string_eq, All, strip, lower,
  same_text, Result, ok, err, value_error, ◌≡◌, refl, arith,
}
use sams_backend.Account.{
  Control, Outside, RefreshRow, MembershipRow, AccountRow, Session, active, revoked, membership_eq,
  MembershipStatus,
}
use sams_backend.Account.Tokens.{
  get_refresh_token, create_refresh_token, rotate_refresh_token, redeem_row, renew, replace_row,
  replace_token, resolve_local_account, resolve_in_tenant, all_roles, create_access_token,
  is_live_in, revoke_refresh_token_family,
}
use sams_backend.Account.Directory.{get_identity_by_id, get_user_by_email, get_db_pool, has_tenant}
use sams_backend.Account.Rotation.{tokens}
use sams_backend.Account.Reuse.{rotate_refresh_token_once}
use sams_backend.Account.LiveTokens.{OneLive}
use sams_backend.Account.Families.{Run, nothing, rotates, Run-OneLive}
use sams_backend.Account.Lifecycle.{upserts, restores, apply_call, state_of, Edge, KeyUnique}
use sams_backend.Account.Diagram.{apply_call-Edge}
use sams_backend.Account.Standing.{run, readmits, run-revoked}

abbrev pub dora : String
dora = "dora@school.com"

-- The address is a teacher at tenant_a; tokens are their own digests and passwords their own hashes.
abbrev pub outside : ℕ → String → ℕ → Outside
outside now token family = record {
  now = now;
  access_minutes = 30;
  refresh_days = 30;
  super_admin_email = "sa@desk.com";
  bootstrap_code = "bootstrap";
  teacher_invite_code = "regester123";
  digest = λ x. x;
  hash = λ x. x;
  verify = λ p h. some (h == p);
  answers = λ t. true;
  fresh_token = token;
  fresh_family = family;
  fresh_uuid = "u-1";
  fresh_code = "INV-1";
}

abbrev token : RefreshRow
token = record {
  id = 50;
  token_hash = "first";
  identity_id = 1;
  tenant_id = "tenant_a";
  role = "teacher";
  family_id = 9;
  revoked_at = none;
  replaced_by = none;
  expires_at = 1000;
}

abbrev pub teacher : String → ℕ → AccountRow
teacher schema id = record {
  schema = schema;
  id = id;
  email = "dora@school.com";
  password_hash = "secret";
  role = "teacher";
  roles = [];
  permissions = [];
}

abbrev pub member : String → MembershipStatus → MembershipRow
member tenant_id status = record {
  identity_id = 1;
  email = "dora@school.com";
  tenant_id = tenant_id;
  role = "teacher";
  roles = [];
  status = status;
  invited_by = none;
  is_default = false;
  last_active_at = none;
  updated_at = 0;
}

abbrev pub plane : List MembershipRow → List RefreshRow → Control
plane memberships refresh_tokens = record {
  tenants = record { tenant_id = "tenant_a" } ∷ record { tenant_id = "tenant_b" } ∷ [];
  identities = record { id = 1; email = "dora@school.com" } ∷ [];
  memberships = memberships;
  parents = [];
  super_admins = [];
  parent_links = [];
  invitations = [];
  user_invitations = [];
  access_requests = [];
  challenges = [];
  refresh_tokens = refresh_tokens;
  accounts = teacher "tenant_a" 7 ∷ teacher "tenant_b" 8 ∷ [];
  parent_profiles = [];
  teacher_profiles = [];
  next_id = 100;
}

abbrev at_a : Control
at_a = plane (member "tenant_a" active ∷ []) (token ∷ [])

-- The first rotation, evaluated.
abbrev rotated : Result Session × Control
rotated = rotate_refresh_token (outside 10 "second" 0) "first" at_a

rotated_session : Session
rotated_session = record {
  access_token = record {
    sub = 7;
    tenant_id = "tenant_a";
    role = "teacher";
    roles = "teacher" ∷ [];
    email = "";
    exp = 1810;
    identity_id = some 1;
  };
  refresh_token = "second";
}

rotates_once : rotated.0 ≡ ok rotated_session
unfolding rotated_session rotate_refresh_token get_refresh_token redeem_row renew
    resolve_local_account resolve_in_tenant get_identity_by_id get_db_pool has_tenant
    get_user_by_email replace_row create_refresh_token replace_token create_access_token all_roles
    strip same_text lower
rotates_once = refl

rotates_whole : rotated ≡ (ok rotated_session, rotated.1)
unfolding rotated_session rotate_refresh_token get_refresh_token redeem_row renew
    resolve_local_account resolve_in_tenant get_identity_by_id get_db_pool has_tenant
    get_user_by_email replace_row create_refresh_token replace_token create_access_token all_roles
    strip same_text lower
rotates_whole = refl

rotate_refresh_token_once_example :
    (row : RefreshRow) × (get_refresh_token "first" at_a ≡ some row)
    × (rotate_refresh_token (outside 20 "third" 0) "first" rotated.1 ≡ (
      err (value_error "Invalid refresh token"),
      revoke_refresh_token_family 20 row.family_id rotated.1,
    ))
    × All
        (λ r. is_live_in row.family_id r ≡ false)
        (tokens (revoke_refresh_token_family 20 row.family_id rotated.1))
rotate_refresh_token_once_example =
    rotate_refresh_token_once (outside 10 "second" 0) (outside 20 "third" 0) "first" at_a rotated.1
      rotated_session rotates_whole refl

one_token-OneLive : OneLive (tokens at_a)
one_token-OneLive f = ground arith

a_day : Run at_a rotated.1
a_day = rotates (outside 10 "second" 0) "first" at_a nothing

Run-OneLive_example : OneLive (tokens rotated.1)
Run-OneLive_example = Run-OneLive at_a rotated.1 a_day one_token-OneLive

abbrev ended : Control
ended = plane (member "tenant_a" revoked ∷ []) []

ended-KeyUnique : KeyUnique ended.memberships
ended-KeyUnique i t = ground arith

apply_call-Edge_example :
    Edge
      (restores dora "tenant_a")
      (state_of 1 "tenant_a" ended.memberships)
      (state_of 1 "tenant_a" (apply_call 5 (restores dora "tenant_a") ended).memberships)
apply_call-Edge_example =
    apply_call-Edge 5 (restores dora "tenant_a") 1 "tenant_a" ended ended-KeyUnique

run-revoked_example :
    state_of 1 "tenant_a"
      (run
        ((5, restores dora "tenant_a") ∷ (6, upserts dora "tenant_a" "teacher") ∷ [])
        ended).memberships
    ≡ some revoked
unfolding readmits state_of
run-revoked_example =
    run-revoked 1 "tenant_a"
      ((5, restores dora "tenant_a") ∷ (6, upserts dora "tenant_a" "teacher") ∷ []) ended
      ended-KeyUnique (refl, (refl, tt)) refl
