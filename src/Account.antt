-- ===== src/Account.antt =====
-- The tables of the control plane (app/core/database.py, _initialize_control_plane_tables, and the
-- migrations alembic/versions/cp_0003 to cp_0008), with the `users` of all tenants beside them, and what
-- a call takes from outside: the clock, drawn secrets, the password hash and the reach of a database.
pub mod Directory
pub mod Tokens
pub mod Pools
pub mod Rotation
pub mod Reuse
pub mod LiveTokens
pub mod Families
pub mod Memberships
pub mod Lifecycle
pub mod Diagram
pub mod Standing
pub mod Candidates
pub mod Login
pub mod Redeem
pub mod Invites
pub mod Register
pub mod Codes
pub mod Registration
pub mod Registering
pub mod Operator
pub mod Passwords
mod Tests
pub mod LoginHash
mod LoginTests
pub mod NewPassword
pub mod ChangedPassword
pub mod SingleUse
pub mod Genuine
pub mod Scan
pub mod Sessions
pub mod Answers
pub mod Admission
use sams_backend.Base.{ℕ, String, List, Option, Bool, Eq, nat_beq, ◌≡◌, ◌↔◌, true, arith}

-- A row of `tenants`.
pub record TenantRow : Type 0 where
  pub tenant_id : String

-- A row of `identities`.
pub record IdentityRow : Type 0 where
  pub id : ℕ
  pub email : String

pub data MembershipStatus : Type 0 where
  invited pending_approval active suspended revoked : MembershipStatus

abbrev pub membership_code : MembershipStatus → ℕ
membership_code invited = 0
membership_code pending_approval = 1
membership_code active = 2
membership_code suspended = 3
membership_code revoked = 4

pub membership_test_iff :
    (a b : MembershipStatus) → (nat_beq (membership_code a) (membership_code b) ≡ true) ↔ (a ≡ b)
membership_test_iff a b = ground arith

instance abbrev pub membership_eq : Eq MembershipStatus
membership_eq = record {
  test = λ a b. nat_beq (membership_code a) (membership_code b);
  test_iff = membership_test_iff;
}

-- A row of `user_tenant_map`.
pub record MembershipRow : Type 0 where
  pub identity_id : ℕ
  pub email : String
  pub tenant_id : String
  pub role : String
  pub roles : List String
  pub status : MembershipStatus
  pub invited_by : Option String
  pub is_default : Bool
  pub last_active_at : Option ℕ
  pub updated_at : ℕ

-- A row of `parents`.
pub record ParentRow : Type 0 where
  pub id : ℕ
  pub email : String
  pub password_hash : String
  pub phone : Option String

-- A row of `super_admins`.
pub record SuperAdminRow : Type 0 where
  pub id : ℕ
  pub email : String
  pub password_hash : String

-- A row of `parent_tenant_links`.
pub record ParentLinkRow : Type 0 where
  pub parent_id : ℕ
  pub tenant_id : String

-- A row of `invitations`; the key is the text of a UUID.
pub record InvitationRow : Type 0 where
  pub id : String
  pub code : String
  pub tenant_id : String
  pub role : String
  pub target_email : Option String
  pub max_uses : ℕ
  pub uses_count : ℕ
  pub expires_at : ℕ
  pub is_active : Bool

-- A row of `user_invitations`.
pub record UserInvitationRow : Type 0 where
  pub id : String
  pub email : String
  pub tenant_id : String
  pub role : String
  pub inviter_id : Option String
  pub status : String
  pub created_at : ℕ

pub data RequestStatus : Type 0 where
  pending approved rejected withdrawn : RequestStatus

-- A row of `access_requests`.
pub record AccessRequestRow : Type 0 where
  pub id : ℕ
  pub identity_id : ℕ
  pub tenant_id : String
  pub requested_role : String
  pub note : Option String
  pub status : RequestStatus
  pub reject_reason : Option String
  pub decided_by : Option String
  pub decided_at : Option ℕ

-- A row of `auth_selection_challenges`.
pub record ChallengeRow : Type 0 where
  pub token_hash : String
  pub identity_id : ℕ
  pub matched_tenants : List String
  pub consumed_at : Option ℕ
  pub expires_at : ℕ

-- A row of `refresh_tokens`.
pub record RefreshRow : Type 0 where
  pub id : ℕ
  pub token_hash : String
  pub identity_id : ℕ
  pub tenant_id : String
  pub role : String
  pub family_id : ℕ
  pub revoked_at : Option ℕ
  pub replaced_by : Option ℕ
  pub expires_at : ℕ

-- A row of `users` in the schema of a tenant.
pub record AccountRow : Type 0 where
  pub schema : String
  pub id : ℕ
  pub email : String
  pub password_hash : String
  pub role : String
  pub roles : List String
  pub permissions : List String

-- A row of `parenets` or of `teachers` in the schema of a tenant.
pub record ProfileRow : Type 0 where
  pub schema : String
  pub id : ℕ
  pub phone : Option String

pub record Control : Type 0 where
  pub tenants : List TenantRow
  pub identities : List IdentityRow
  pub memberships : List MembershipRow
  pub parents : List ParentRow
  pub super_admins : List SuperAdminRow
  pub parent_links : List ParentLinkRow
  pub invitations : List InvitationRow
  pub user_invitations : List UserInvitationRow
  pub access_requests : List AccessRequestRow
  pub challenges : List ChallengeRow
  pub refresh_tokens : List RefreshRow
  pub accounts : List AccountRow
  pub parent_profiles : List ProfileRow
  pub teacher_profiles : List ProfileRow
  pub next_id : ℕ

-- What one call takes from outside: the time in seconds, the settings of app/core/config.py, sha256,
-- the password hash of passlib (`verify` answers `none` where it cannot identify the stored value),
-- whether the database of a tenant answers, and the secrets and keys that are drawn in the call.
pub record Outside : Type 0 where
  pub now : ℕ
  pub access_minutes : ℕ
  pub refresh_days : ℕ
  pub super_admin_email : String
  pub bootstrap_code : String
  pub teacher_invite_code : String
  pub digest : String → String
  pub hash : String → String
  pub verify : String → String → Option Bool
  pub answers : String → Bool
  pub fresh_token : String
  pub fresh_family : ℕ
  pub fresh_uuid : String
  pub fresh_code : String

-- The claims of an access token; the signature is the business of PyJWT.
pub record Claims : Type 0 where
  pub sub : ℕ
  pub tenant_id : String
  pub role : String
  pub roles : List String
  pub email : String
  pub exp : ℕ
  pub identity_id : Option ℕ

-- `{"access_token": …, "refresh_token": …}`
pub record Session : Type 0 where
  pub access_token : Claims
  pub refresh_token : String
