-- ===== src/Account/Invites.antt =====
-- The invitations: the queries of ControlPlaneRepository on `invitations` and those of
-- InvitationRepository on `user_invitations`, with create_invitation and get_invitation of
-- app/domains/auth/service.py.
use mathlib.Core.Option
use sams_backend.Base.{
  ℕ, ◌+◌, ◌*◌, String, List, [], ◌∷◌, ◌++◌, Option, none, some, Bool, true, false, not, ◌&&◌, ◌||◌,
  ◌==◌, string_eq, ltb, leb, first_row, where_rows, update_rows, contains, is_some, coalesce,
  if◌then◌else◌, strip, lower, is_text, normal_email, same_text, starts_with, Action, pure, raise,
  gets, or_raise, require_that, ◌>>=◌, ◌>>◌, ⊤, value_error, unique_violation, check_violation,
  foreign_key_violation,
}
use sams_backend.Account.{Control, Outside, InvitationRow, UserInvitationRow}
use sams_backend.Account.Directory.{has_tenant}

abbrev same_target : String → Option String → Bool
same_target key none = false
same_target key (some email) = same_text email key

-- `WHERE UPPER(code) = UPPER($1) OR UPPER(target_email) = UPPER($1) OR id::text = $1`
abbrev pub is_invitation : String → InvitationRow → Bool
is_invitation key i = same_text i.code key || same_target key i.target_email || i.id == key

unfoldable pub get_invitation_by_code : String → Control → Option InvitationRow
get_invitation_by_code code s = first_row (is_invitation (strip code)) s.invitations

abbrev pub use_once : InvitationRow → InvitationRow
use_once i = record i {
  uses_count = i.uses_count + 1;
  is_active = if leb i.max_uses (i.uses_count + 1) then false else i.is_active;
}

unfoldable pub increment_invitation_uses : String → Control → Control
increment_invitation_uses code s = record s {
  invitations = update_rows (is_invitation (strip code)) use_once s.invitations;
}

abbrev pub invitation_roles : List String
invitation_roles =
    "school_admin" ∷ "teacher" ∷ "parent" ∷ "student" ∷ "manager" ∷ "super_admin" ∷ []

-- The insert: `code` is UNIQUE, the role is checked, and the tenant is referenced.
unfoldable pub insert_invitation : InvitationRow → Action Control InvitationRow
insert_invitation row s =
    if is_some (first_row (λ (i : InvitationRow). i.code == row.code) s.invitations)
    then raise (unique_violation "invitations.code") s
    else if not (contains row.role invitation_roles)
    then raise (check_violation "invitations.role") s
    else if has_tenant row.tenant_id s
    then pure row (record s { invitations = s.invitations ++ row ∷ [] })
    else raise (foreign_key_violation "invitations.tenant_id") s

abbrev normal_target : Option String → Option String
normal_target none = none
normal_target (some email) = if is_text email then some (normal_email email) else none

-- The code is `INV-{tenant}-{role}-` with drawn digits.
unfoldable pub create_invitation :
    Outside → String → String → Option String → ℕ → ℕ → Action Control InvitationRow
create_invitation out tenant_id role target_email max_uses valid_days = insert_invitation (record {
  id = out.fresh_uuid;
  code = out.fresh_code;
  tenant_id = tenant_id;
  role = role;
  target_email = normal_target target_email;
  max_uses = max_uses;
  uses_count = 0;
  expires_at = out.now + valid_days * 86400;
  is_active = true;
})

-- `WHERE (id::text = $1 OR UPPER(email) = UPPER($1) OR $1 LIKE 'INV-%') AND status = 'pending'`
abbrev pub is_user_invitation : String → UserInvitationRow → Bool
is_user_invitation key i =
    (i.id == key || same_text i.email key || starts_with "INV-" key) && i.status == "pending"

-- `ORDER BY created_at DESC LIMIT 1`
unfoldable pub newest : List UserInvitationRow → Option UserInvitationRow
newest [] = none
newest (i ∷ is) = elim (newest is) [
  | none ↦ some i
  | some j ↦ if ltb i.created_at j.created_at then some j else some i
]

-- The dictionary of an invitation, from either table; `none` stands for `None`.
pub record Invite : Type 0 where
  pub code : String
  pub tenant_id : Option String
  pub role : Option String
  pub target_email : Option String
  pub max_uses : ℕ
  pub uses_count : ℕ
  pub expires_at : Option ℕ
  pub is_active : Bool

abbrev pub from_invitation : InvitationRow → Invite
from_invitation i = record {
  code = i.code;
  tenant_id = some i.tenant_id;
  role = some i.role;
  target_email = i.target_email;
  max_uses = i.max_uses;
  uses_count = i.uses_count;
  expires_at = some i.expires_at;
  is_active = i.is_active;
}

abbrev pub from_user_invitation : String → UserInvitationRow → Invite
from_user_invitation code i = record {
  code = code;
  tenant_id = some i.tenant_id;
  role = some i.role;
  target_email = some i.email;
  max_uses = 1;
  uses_count = 0;
  expires_at = none;
  is_active = true;
}

-- The table of codes first, then the newest user invitation that the code names.
unfoldable pub find_invite : String → Control → Option Invite
find_invite code s = coalesce (Option.map from_invitation (get_invitation_by_code code s)) (
    Option.map (from_user_invitation code)
      (newest (where_rows (is_user_invitation code) s.user_invitations)))

abbrev pub fallback_codes : List String
fallback_codes = "school-staff-2026" ∷ "regester123" ∷ "register123" ∷ "teacher-pass-2026" ∷ []

abbrev pub is_expired : ℕ → Option ℕ → Bool
is_expired now none = false
is_expired now (some at) = ltb at now

-- The checks of register_user on an invitation that it has found.
unfoldable pub check_usable : ℕ → Invite → Action Control ⊤
check_usable now i =
    require_that i.is_active (value_error "Invitation code is inactive or has already been used")
    >> (require_that (not (is_expired now i.expires_at)) (value_error "Invitation code has expired")
        >> require_that (not (leb i.max_uses i.uses_count))
            (value_error "Invitation code max uses reached"))

abbrev passphrase : String → Invite
passphrase code = record {
  code = code;
  tenant_id = none;
  role = none;
  target_email = none;
  max_uses = 999999;
  uses_count = 0;
  expires_at = none;
  is_active = true;
}

abbrev pub known_invite : String → Option Invite → Option Invite
known_invite code (some i) = some i
known_invite code none =
    if contains (lower code) fallback_codes then some (passphrase code) else none

unfoldable pub check_shown : ℕ → Invite → Action Control Invite
check_shown now i =
    require_that i.is_active (value_error "Invalid or inactive invitation code")
    >> (require_that (not (is_expired now i.expires_at)) (value_error "Invitation code has expired")
        >> (require_that (not (leb i.max_uses i.uses_count))
              (value_error "Invitation code maximum usage limit reached")
            >> pure i))

unfoldable pub get_invitation : Outside → String → Action Control Invite
get_invitation out code =
    gets (λ s. known_invite (strip code) (find_invite (strip code) s)) >>= λ found.
    or_raise found (value_error "Invalid or inactive invitation code") >>= check_shown out.now

-- InvitationRepository.create_invitation_record and get_invitation_by_email.
unfoldable pub create_invitation_record :
    Outside → String → String → String → Option String → Action Control UserInvitationRow
create_invitation_record out email tenant_id role inviter_id s =
    let row : UserInvitationRow = record {
      id = out.fresh_uuid;
      email = normal_email email;
      tenant_id = strip tenant_id;
      role = strip role;
      inviter_id = inviter_id;
      status = "pending";
      created_at = out.now;
    } in
    if has_tenant (strip tenant_id) s
    then pure row (record s { user_invitations = s.user_invitations ++ row ∷ [] })
    else raise (foreign_key_violation "user_invitations.tenant_id") s

unfoldable pub get_invitation_by_email : String → String → Control → Option UserInvitationRow
get_invitation_by_email email tenant_id s =
    first_row
      (λ (i : UserInvitationRow).
        (same_text i.email (normal_email email) && i.tenant_id == strip tenant_id)
        && i.status == "pending")
      s.user_invitations
