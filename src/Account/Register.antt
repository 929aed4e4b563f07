-- ===== src/Account/Register.antt =====
-- register_user of app/domains/auth/service.py. What it writes for a student in the tables of the
-- tenant (levels, classes and the student's own row) is the action `place_student`; the calls of the
-- identity provider write nothing here.
use sams_backend.Base.{
  ℕ, String, List, [], ◌∷◌, Option, none, some, Bool, true, not, ◌&&◌, ◌||◌, ◌==◌, string_eq,
  contains, is_some, if◌then◌else◌, strip, lower, is_text, normal_email, Action, pure, raise, gets,
  modify, require_that, ◌>>=◌, ◌>>◌, ⊤, value_error, permission_error,
}
use sams_backend.Account.{Control, Outside, ParentRow, AccountRow, Claims}
use sams_backend.Account.Directory.{
  get_db_pool, get_super_admin_by_email, create_super_admin, get_parent_by_email,
  create_global_parent, add_parent_tenant_link, get_user_by_email, create_user,
  create_parent_profile, create_teacher_profile,
}
use sams_backend.Account.Memberships.{upsert_user_tenant_map}
use sams_backend.Account.Tokens.{create_access_token}
use sams_backend.Account.Candidates.{verify_password}
use sams_backend.Account.Invites.{
  Invite, find_invite, fallback_codes, check_usable, increment_invitation_uses,
}

-- What the caller asks for; no tenant is the empty text.
pub record Application : Type 0 where
  pub email : String
  pub password : String
  pub role : String
  pub tenant_id : String
  pub code : String

abbrev locked : Option String → String → String
locked none given = given
locked (some value) given = if is_text value then lower (strip value) else given

abbrev is_reserved_for : Option String → String → Bool
is_reserved_for none email = true
is_reserved_for (some target) email =
    if is_text target then normal_email target == normal_email email else true

-- "Lock parameters strictly to the invitation creator's organization & role"
unfoldable pub lock_to : Outside → Application → Option Invite → Action Control Application
lock_to out a none = pure a
lock_to out a (some i) =
    check_usable out.now i
    >> (require_that (is_reserved_for i.target_email a.email)
          (value_error "Invitation code is strictly reserved for email: {target_email}")
        >> pure
            (record a { tenant_id = locked i.tenant_id a.tenant_id; role = locked i.role a.role }))

abbrev pub is_recognized : Outside → Application → Bool
is_recognized out a =
    contains (lower a.code) fallback_codes
    || a.role == "super_admin" && a.code == out.bootstrap_code

-- `if invitation: await cp_repo.increment_invitation_uses(invitation["code"])`
abbrev pub count_use : Option Invite → Control → Control
count_use none s = s
count_use (some i) s = increment_invitation_uses i.code s

abbrev pub token_for : Outside → ℕ → String → String → String → Claims
token_for out user_id tenant_id role email =
    create_access_token out user_id tenant_id role email [] none

abbrev pub is_operator : Outside → String → Bool
is_operator out email = normal_email email == normal_email out.super_admin_email

unfoldable pub register_super_admin : Outside → Application → Option Invite → Action Control Claims
register_super_admin out a invite =
    require_that (is_operator out a.email) (
      permission_error
        "super_admin registration is restricted to the platform's single designated operator account.")
    >> (require_that (is_some invite || a.code == out.bootstrap_code) (
          permission_error
            "super_admin accounts require the dedicated platform bootstrap code, not a staff self-registration passphrase.")
        >> (gets (get_super_admin_by_email a.email) >>= λ known.
            require_that (not (is_some known)) (value_error "Email already registered")
            >> (create_super_admin a.email (out.hash a.password) >>= λ user_id.
                modify (count_use invite)
                >> pure (token_for out user_id "" "super_admin" a.email))))

-- The global parent, known by the password, or new.
unfoldable pub global_parent : Outside → Application → Option ParentRow → Action Control ℕ
global_parent out a none = create_global_parent a.email (out.hash a.password)
global_parent out a (some p) =
    require_that (verify_password out a.password p.password_hash)
      (value_error "Email already registered with a different password")
    >> pure p.id

-- The parent's user in the tenant, known or new.
unfoldable pub local_parent : Outside → Application → Option AccountRow → Action Control ℕ
local_parent out a (some u) = pure u.id
local_parent out a none =
    create_user a.tenant_id a.email (out.hash a.password) "parent" >>= λ user_id.
    modify (create_parent_profile a.tenant_id user_id none) >> pure user_id

-- The membership, the use of the invitation and the token, at the end of both branches below.
unfoldable pub finish_registration :
    Outside → Application → Option Invite → ℕ → Action Control Claims
finish_registration out a invite user_id =
    upsert_user_tenant_map out.now a.email a.tenant_id a.role
    >> (modify (count_use invite) >> pure (token_for out user_id a.tenant_id a.role a.email))

unfoldable pub register_parent : Outside → Application → Option Invite → Action Control Claims
register_parent out a invite =
    require_that (is_text a.tenant_id) (value_error "Tenant ID is required for parent registration")
    >> (gets (get_parent_by_email a.email) >>= λ known. global_parent out a known >>= λ parent_id.
        add_parent_tenant_link parent_id a.tenant_id
        >> (get_db_pool out a.tenant_id
            >> (gets (get_user_by_email a.tenant_id a.email) >>= λ user.
                local_parent out a user >>= finish_registration out a invite)))

-- "school_admin is deliberately NOT covered by the generic fallback passphrases"
unfoldable pub check_pass : Outside → Application → Option Invite → Action Control ⊤
check_pass out a invite =
    require_that (not (a.role == "school_admin" && not (is_some invite))) (
      permission_error
        "A school_admin account can only be created from a real invitation issued by a super_admin or an existing school_admin for this tenant.")
    >> require_that
        (not
            (not (is_some invite) && contains a.role ("teacher" ∷ "manager" ∷ "event_teacher" ∷ []))
          || contains a.code
              (out.teacher_invite_code ∷ "regester123" ∷ "register123" ∷ "SCHOOL-STAFF-2026" ∷ []))
        (permission_error "Invalid or missing registration pass")

unfoldable pub write_profile :
    (ℕ → Application → Action Control ⊤) → Application → ℕ → Action Control ⊤
write_profile place_student a user_id =
    if a.role == "teacher"
    then modify (create_teacher_profile a.tenant_id user_id)
    else if a.role == "student"
    then place_student user_id a
    else pure tt

unfoldable pub register_school_user :
    (ℕ → Application → Action Control ⊤)
    → Outside
    → Application
    → Option Invite
    → Action Control Claims
register_school_user place_student out a invite =
    require_that (is_text a.tenant_id) (value_error "Tenant ID is required for school users")
    >> (check_pass out a invite
        >> (get_db_pool out a.tenant_id
            >> (gets (get_user_by_email a.tenant_id a.email) >>= λ known.
                require_that (not (is_some known)) (value_error "Email already registered")
                >> (create_user a.tenant_id a.email (out.hash a.password) a.role >>= λ user_id.
                    write_profile place_student a user_id
                    >> finish_registration out a invite user_id))))

abbrev pub school_roles : List String
school_roles = "school_admin" ∷ "teacher" ∷ "student" ∷ "manager" ∷ "event_teacher" ∷ []

unfoldable pub register_as :
    (ℕ → Application → Action Control ⊤)
    → Outside
    → Option Invite
    → Application
    → Action Control Claims
register_as place_student out invite a =
    if a.role == "super_admin"
    then register_super_admin out a invite
    else if a.role == "parent"
    then register_parent out a invite
    else if contains a.role school_roles
    then register_school_user place_student out a invite
    else raise (value_error "Invalid registration role: {role}")

unfoldable pub register_user :
    (ℕ → Application → Action Control ⊤) → Outside → Application → Action Control Claims
register_user place_student out given =
    let a : Application = record given { code = strip given.code } in
    require_that (is_text a.code) (value_error "Invitation code is required for registration")
    >> (gets (find_invite a.code) >>= λ invite.
        require_that (is_some invite || is_recognized out a)
          (value_error "Invalid or unrecognized invitation code")
        >> (lock_to out a invite >>= register_as place_student out invite))
