-- ===== src/Account/Codes.antt =====
-- The calls of a registration that write neither super administrators nor invitations.
use sams_backend.Base.{
  ℕ, String, List, Option, none, some, string_eq, first_row, same_text, normal_email, Action, pure,
  modify, require_that, ◌>>◌, value_error, Keeps, Keeps-bind, Keeps-require_that, Option-cases, ◌≡◌,
  refl, ◌∙◌, arith, inl, inr,
}
use sams_backend.Account.{
  Control, Outside, IdentityRow, SuperAdminRow, InvitationRow, UserInvitationRow, ParentRow,
  AccountRow,
}
use sams_backend.Account.Directory.{
  create_global_parent, add_parent_tenant_link, create_user, create_parent_profile,
  create_teacher_profile, get_or_create_identity,
}
use sams_backend.Account.Memberships.{upsert_user_tenant_map, upsert_mapping, insert_or_update}
use sams_backend.Account.Candidates.{verify_password}
use sams_backend.Account.Register.{Application, global_parent, local_parent}

-- The tables that decide who may register as what.
pub record Codes : Type 0 where
  pub super_admins : List SuperAdminRow
  pub invitations : List InvitationRow
  pub user_invitations : List UserInvitationRow

abbrev pub codes : Control → Codes
codes s = record {
  super_admins = s.super_admins;
  invitations = s.invitations;
  user_invitations = s.user_invitations;
}

create_global_parent-codes :
    (email password_hash : String) → Keeps codes (create_global_parent email password_hash)
unfolding create_global_parent
create_global_parent-codes email password_hash s = ground arith

pub add_parent_tenant_link-codes :
    (parent_id : ℕ) (tenant_id : String) → Keeps codes (add_parent_tenant_link parent_id tenant_id)
unfolding add_parent_tenant_link
add_parent_tenant_link-codes parent_id tenant_id s = ground arith

pub create_user-codes :
    (schema email password_hash role : String)
    → Keeps codes (create_user schema email password_hash role)
unfolding create_user
create_user-codes schema email password_hash role s = ground arith

create_parent_profile-codes :
    (schema : String) (user_id : ℕ) (phone : Option String) (s : Control)
    → codes (create_parent_profile schema user_id phone s) ≡ codes s
unfolding create_parent_profile
create_parent_profile-codes schema user_id phone s = ground arith

pub create_teacher_profile-codes :
    (schema : String) (user_id : ℕ) (s : Control)
    → codes (create_teacher_profile schema user_id s) ≡ codes s
unfolding create_teacher_profile
create_teacher_profile-codes schema user_id s = ground arith

identity-codes : (email : String) (s : Control) → codes (get_or_create_identity email s).1 ≡ codes s
unfolding get_or_create_identity
identity-codes email s =
    elim (Option-cases
      (first_row (λ (i : IdentityRow). same_text i.email (normal_email email)) s.identities)) [
        | inl e ↦ rw (e, get_or_create_identity) refl
        | inr (x, e) ↦ rw (e, get_or_create_identity) refl
      ]

mapping-codes :
    (now identity_id : ℕ) (email tenant_id role : String)
    → Keeps codes (upsert_mapping now identity_id email tenant_id role)
unfolding upsert_mapping insert_or_update
mapping-codes now identity_id email tenant_id role s = ground arith

pub upsert_user_tenant_map-codes :
    (now : ℕ) (email tenant_id role : String)
    → Keeps codes (upsert_user_tenant_map now email tenant_id role)
unfolding upsert_user_tenant_map
upsert_user_tenant_map-codes now email tenant_id role s =
    let (identity, t) = get_or_create_identity email s in
    mapping-codes now identity.id (normal_email email) tenant_id role t ∙ identity-codes email s

pub global_parent-codes :
    (out : Outside) (a : Application) (known : Option ParentRow)
    → Keeps codes (global_parent out a known)
unfolding global_parent
global_parent-codes out a none s = create_global_parent-codes a.email (out.hash a.password) s
global_parent-codes out a (some p) s =
    Keeps-bind codes
      (require_that (verify_password out a.password p.password_hash)
        (value_error "Email already registered with a different password"))
      (λ _. pure p.id) (Keeps-require_that codes (verify_password out a.password p.password_hash) _)
      (λ _ x. refl) s

pub local_parent-codes :
    (out : Outside) (a : Application) (known : Option AccountRow)
    → Keeps codes (local_parent out a known)
unfolding local_parent
local_parent-codes out a (some u) s = refl
local_parent-codes out a none s =
    let profile : ℕ → Action Control ℕ =
      λ user_id. modify (create_parent_profile a.tenant_id user_id none) >> pure user_id in
    Keeps-bind codes (create_user a.tenant_id a.email (out.hash a.password) "parent") profile
      (create_user-codes a.tenant_id a.email (out.hash a.password) "parent")
      (λ user_id t. create_parent_profile-codes a.tenant_id user_id none t) s
