-- ===== src/Account/LoginTests.antt =====
-- A teacher of two schools logs in, and registers, and changes the password.
use sams_backend.Base.{
  String, some_inj, is_text, sym, ap, ◌∙◌, ℕ, [], ◌∷◌, none, some, Bool, true, nat_eq, string_eq,
  first_row, contains, strip, lower, normal_email, same_text, Action, Result, ok, pure, ◌≡◌, refl,
  ⊤,
}
use sams_backend.Account.{
  AccountRow, Control, ChallengeRow, Session, active, UserInvitationRow, InvitationRow,
}
use sams_backend.Account.Tokens.{
  get_refresh_token, create_refresh_token, resolve_local_account, resolve_in_tenant, all_roles,
  create_access_token, issue_refresh_token, create_selection_challenge, redeem_selection_challenge,
  is_redeemable,
}
use sams_backend.Account.Directory.{
  get_identity_by_id, get_or_create_identity, get_super_admin_by_email, get_parent_by_email,
  get_user_by_email, get_tenants_for_email, get_db_pool, has_tenant, update_user_password_hash,
}
use sams_backend.Account.Memberships.{
  upsert_user_tenant_map, upsert_mapping, insert_or_update, get_membership,
  touch_membership_last_active,
}
use sams_backend.Account.Candidates.{
  verify_password, enumerate_login_tenants, fetch_login_candidate, tenant_candidate,
  local_candidate, user_candidate, fetch_candidates,
}
use sams_backend.Account.Login.{
  LoginResult, session, select_tenant, login_user, login_into, login_as, finish_login,
  complete_login, login_of, user_login, open_session, login_anywhere, settle_matches,
  issue_login_selection_challenge,
}
use sams_backend.Account.Redeem.{login_redeem, admit, enter, seat_in}
use sams_backend.Account.Genuine.{people}
use sams_backend.Account.Sessions.{SessionIn}
use sams_backend.Account.Answers.{Answer}
use sams_backend.Account.Admission.{login_user-Answer, login_user_named}
use sams_backend.Account.SingleUse.{login_redeem-SessionIn}
use sams_backend.Account.Passwords.{change_password, change_in, change_user, check_current}
use sams_backend.Account.LoginHash.{Home, local_user, login_hash, change_password-login_hash}
use sams_backend.Account.Codes.{codes}
use sams_backend.Account.Register.{Application, register_user}
use sams_backend.Account.Operator.{
  OneOperator, SpentInactive, register_user-OneOperator, register_user-SpentInactive,
  register_user_consumes_no_user_invitation,
}
use sams_backend.Account.Tests.{teacher, dora, outside, plane, member}

-- Active at both schools, with the same password.
abbrev both : Control
both = plane (member "tenant_a" active ∷ member "tenant_b" active ∷ []) []

abbrev asked_which : Result LoginResult × Control
asked_which = login_user (λ x. x) (outside 10 "choice" 0) "Dora@School.com " "secret" none both

abbrev choices : LoginResult
choices = select_tenant "choice" (("tenant_a", "teacher") ∷ ("tenant_b", "teacher") ∷ [])

asks : asked_which ≡ (ok choices, asked_which.1)
unfolding login_user enumerate_login_tenants get_tenants_for_email get_parent_by_email
    get_super_admin_by_email normal_email strip lower same_text login_anywhere fetch_candidates
    fetch_login_candidate tenant_candidate local_candidate user_candidate get_db_pool has_tenant
    get_user_by_email verify_password settle_matches issue_login_selection_challenge
    get_or_create_identity create_selection_challenge
asks = refl

login_user-Answer_example :
    Answer (outside 10 "choice" 0) "secret" (normal_email "Dora@School.com ") (people both) choices
login_user-Answer_example =
    login_user-Answer (λ x. x) (outside 10 "choice" 0) "Dora@School.com " "secret" none both
      asked_which.1 choices asks

abbrev named : Result LoginResult × Control
named = login_user (λ x. x) (outside 10 "fresh" 4) dora "secret" (some "tenant_b") both

abbrev seated : Session
seated = record {
  access_token =
      create_access_token (outside 10 "fresh" 4) 8 "tenant_b" "teacher" dora ("teacher" ∷ [])
        (some 1);
  refresh_token = "fresh";
}

names : named ≡ (ok (session seated), named.1)
unfolding login_user enumerate_login_tenants get_tenants_for_email get_parent_by_email
    get_super_admin_by_email normal_email strip lower same_text login_into fetch_login_candidate
    tenant_candidate local_candidate user_candidate get_db_pool has_tenant get_user_by_email
    verify_password login_as finish_login complete_login get_or_create_identity login_of user_login
    upsert_user_tenant_map upsert_mapping insert_or_update all_roles open_session
    issue_refresh_token create_refresh_token get_refresh_token create_access_token
names = refl

login_user_named_example :
    (contains "tenant_b" (enumerate_login_tenants (normal_email dora) both) ≡ true)
    × ((made : Session) × (session seated ≡ session made) × SessionIn "tenant_b" made)
login_user_named_example =
    login_user_named (λ x. x) (outside 10 "fresh" 4) dora "secret" "tenant_b" both named.1
      (session seated) refl names

abbrev challenge : ChallengeRow
challenge = record {
  token_hash = "choice";
  identity_id = 1;
  matched_tenants = "tenant_a" ∷ "tenant_b" ∷ [];
  consumed_at = none;
  expires_at = 130;
}

abbrev waiting : Control
waiting = record both { challenges = challenge ∷ [] }

abbrev redeemed : Result Session × Control
redeemed = login_redeem (outside 20 "fresh" 4) "choice" "tenant_b" waiting

abbrev chosen : Session
chosen = record {
  access_token =
      create_access_token (outside 20 "fresh" 4) 8 "tenant_b" "teacher" dora ("teacher" ∷ [])
        (some 1);
  refresh_token = "fresh";
}

redeems : redeemed ≡ (ok chosen, redeemed.1)
unfolding login_redeem redeem_selection_challenge admit enter get_membership resolve_local_account
    get_identity_by_id resolve_in_tenant get_db_pool has_tenant get_user_by_email strip lower
    same_text all_roles seat_in touch_membership_last_active open_session issue_refresh_token
    create_refresh_token get_refresh_token create_access_token
redeems = refl

login_redeem-SessionIn_example :
    (c : ChallengeRow) × (first_row (is_redeemable 20 "choice") waiting.challenges ≡ some c)
    × (contains "tenant_b" c.matched_tenants ≡ true)
    × SessionIn "tenant_b" chosen
login_redeem-SessionIn_example =
    login_redeem-SessionIn (outside 20 "fresh" 4) "choice" "tenant_b" waiting redeemed.1 chosen
      redeems

abbrev changed : Result Bool × Control
changed = change_password (outside 10 "t" 0) true dora "teacher" "tenant_a" "secret" "better" both

changes : changed ≡ (ok true, changed.1)
unfolding change_password change_in change_user get_db_pool has_tenant get_user_by_email strip lower
    same_text check_current verify_password update_user_password_hash
changes = refl

kept_text :
    (s : Control) (known : AccountRow)
    → get_user_by_email "tenant_a" dora s ≡ some known
    → is_text known.password_hash ≡ true
    → (u : AccountRow) → get_user_by_email "tenant_a" dora s ≡ some u
    → is_text u.password_hash ≡ true
kept_text s known found text u found_too =
    ap (λ (x : AccountRow). is_text x.password_hash) (some_inj u known (sym found_too ∙ found))
    ∙ text

home_before : Home (outside 10 "t" 0) "teacher" dora "tenant_a" both "tenant_a"
unfolding get_user_by_email get_parent_by_email strip lower same_text
home_before = local_user refl refl refl refl refl (kept_text both (teacher "tenant_a" 7) refl refl)

home_after : Home (outside 10 "t" 0) "teacher" dora "tenant_a" changed.1 "tenant_a"
unfolding get_user_by_email get_parent_by_email strip lower same_text change_password change_in
    change_user get_db_pool has_tenant check_current verify_password update_user_password_hash
home_after =
    local_user refl refl refl refl refl
      (kept_text changed.1 (record (teacher "tenant_a" 7) { password_hash = "better" }) refl refl)

change_password-login_hash_example :
    ((old : String) × (login_hash (outside 10 "t" 0) dora "tenant_a" both ≡ some old)
      × (verify_password (outside 10 "t" 0) "secret" old ≡ true))
    × ((latest : String) × (login_hash (outside 10 "t" 0) dora "tenant_a" changed.1 ≡ some latest)
        × (verify_password (outside 10 "t" 0) "better" latest ≡ true))
change_password-login_hash_example =
    change_password-login_hash (outside 10 "t" 0) true dora "teacher" "tenant_a" "tenant_a" "secret"
      "better" both changed.1 true refl home_before home_after changes

-- A pending user invitation, and a teacher who registers with it.
abbrev invited_teacher : UserInvitationRow
invited_teacher = record {
  id = "u-7";
  email = "nour@school.com";
  tenant_id = "tenant_a";
  role = "teacher";
  inviter_id = some "3";
  status = "pending";
  created_at = 5;
}

abbrev one_use : InvitationRow
one_use = record {
  id = "u-8";
  code = "INV-9";
  tenant_id = "tenant_b";
  role = "teacher";
  target_email = none;
  max_uses = 1;
  uses_count = 0;
  expires_at = 100;
  is_active = true;
}

abbrev inviting : Control
inviting = record both {
  user_invitations = invited_teacher ∷ [];
  super_admins = record { id = 2; email = "sa@desk.com"; password_hash = "x" } ∷ [];
  invitations = one_use ∷ [];
}

abbrev newcomer : Application
newcomer = record {
  email = "nour@school.com";
  password = "pw";
  role = "student";
  tenant_id = "";
  code = "u-7";
}

abbrev with_code : Application
with_code = record newcomer { code = "INV-9" }

-- Nothing is written for students here.
abbrev no_place : ℕ → Application → Action Control ⊤
no_place user_id a = pure tt

one_operator : OneOperator (outside 10 "t" 0) (codes inviting)
unfolding normal_email strip lower
one_operator = (refl, tt)

register_user-OneOperator_example :
    OneOperator
      (outside 10 "t" 0)
      (codes (register_user no_place (outside 10 "t" 0) newcomer inviting).1)
register_user-OneOperator_example =
    register_user-OneOperator no_place (outside 10 "t" 0) (λ user_id a s. refl) newcomer inviting
      one_operator

register_user-SpentInactive_example :
    SpentInactive (codes (register_user no_place (outside 10 "t" 0) with_code inviting).1)
register_user-SpentInactive_example =
    register_user-SpentInactive no_place (outside 10 "t" 0) (λ user_id a s. refl) with_code inviting
      ((λ h. cc), tt)

register_user_consumes_no_user_invitation_example :
    (register_user no_place (outside 10 "t" 0) newcomer inviting).1.user_invitations
    ≡ invited_teacher ∷ []
register_user_consumes_no_user_invitation_example =
    register_user_consumes_no_user_invitation no_place (outside 10 "t" 0) (λ user_id a s. refl)
      newcomer inviting
