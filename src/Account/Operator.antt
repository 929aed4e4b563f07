-- ===== src/Account/Operator.antt =====
-- What register_user keeps: the one operator, the exhausted invitations, and the user invitations.
use sams_backend.Base.{
  ℕ, suc, List, [], ◌∷◌, ◌++◌, Bool, true, false, string_eq, leb, is_some, if◌then◌else◌, strip,
  All, All-update_rows, Action, Error, pure, raise, ⊤, Keeps, ◌≡◌, refl,
}
use sams_backend.Account.{Control, Outside, SuperAdminRow, InvitationRow, UserInvitationRow}
use sams_backend.Account.Directory.{create_super_admin, get_super_admin_by_email}
use sams_backend.Account.Invites.{increment_invitation_uses, is_invitation, use_once}
use sams_backend.Account.Register.{Application, is_operator, register_user}
use sams_backend.Account.Codes.{Codes, codes}
use sams_backend.Account.Registration.{Lasting}
use sams_backend.Account.Registering.{register_user-Safe}

All-append {ℓ κ} :
    {A : Type ℓ} (P : A → Type κ) (xs : List A) (y : A) → All P xs → P y → All P (xs ++ y ∷ [])
All-append P [] y h p = (p, tt)
All-append P (x ∷ xs) y h p = (h.0, All-append P xs y h.1 p)

-- Every super administrator has the address of the designated operator.
abbrev pub OneOperator : Outside → Codes → Type 0
OneOperator out v = All (λ (a : SuperAdminRow). is_operator out a.email ≡ true) v.super_admins

-- An invitation that has been used as often as it may is no longer active.
abbrev pub SpentInactive : Codes → Type 0
SpentInactive v =
    All (λ (i : InvitationRow). leb i.max_uses i.uses_count ≡ true → i.is_active ≡ false)
      v.invitations

refused_or :
    {A : Type 0} (P : Control → Type 0) (b : Bool) (e : Error) (s t : Control) (a : A)
    → P s
    → P t
    → P ((if b then raise {A = A} e s else pure a t)).1
refused_or P true e s t a p q = p
refused_or P false e s t a p q = q

use_once-SpentInactive :
    (i : InvitationRow)
    → leb (use_once i).max_uses (use_once i).uses_count ≡ true
    → (use_once i).is_active ≡ false
use_once-SpentInactive i h = rw h refl

module _ (place_student : ℕ → Application → Action Control ⊤) (out : Outside)
    (places : (user_id : ℕ) (a : Application) → Keeps codes (place_student user_id a)) where
  operator_law : Lasting place_student out (OneOperator out)
  unfolding create_super_admin increment_invitation_uses
  operator_law = record {
    places = places;
    creates = λ email hash operator s v.
        refused_or (λ t. OneOperator out (codes t)) (is_some (get_super_admin_by_email email s)) _ s
          (record s {
            super_admins =
                s.super_admins
                ++ record { id = s.next_id; email = email; password_hash = hash } ∷ [];
            next_id = suc s.next_id;
          })
          s.next_id v
          (All-append (λ (a : SuperAdminRow). is_operator out a.email ≡ true) s.super_admins
            (record { id = s.next_id; email = email; password_hash = hash }) v operator);
    counts = λ i s v. v;
  }

  spent_law : Lasting place_student out SpentInactive
  unfolding create_super_admin increment_invitation_uses
  spent_law = record {
    places = places;
    creates = λ email hash operator s v.
        refused_or (λ t. SpentInactive (codes t)) (is_some (get_super_admin_by_email email s)) _ s _
          s.next_id v v;
    counts = λ i s v.
        All-update_rows (is_invitation (strip i.code)) use_once _
          (λ x hit was. use_once-SpentInactive x) s.invitations v;
  }

  kept_law :
      (us : List UserInvitationRow) → Lasting place_student out (λ v. v.user_invitations ≡ us)
  unfolding create_super_admin increment_invitation_uses
  kept_law us = record {
    places = places;
    creates = λ email hash operator s v.
        refused_or (λ t. t.user_invitations ≡ us) (is_some (get_super_admin_by_email email s)) _ s _
          s.next_id v v;
    counts = λ i s v. v;
  }

  -- If every super administrator has the address of the designated operator, so it is after any
  -- registration, whether it returns or raises, by whatever code or invitation.
  pub register_user-OneOperator :
      (given : Application) (s : Control)
      → OneOperator out (codes s)
      → OneOperator out (codes (register_user place_student out given s).1)
  register_user-OneOperator given = register_user-Safe operator_law given

  -- If every invitation that has been used as often as it may is inactive, so it is after any
  -- registration.
  pub register_user-SpentInactive :
      (given : Application) (s : Control)
      → SpentInactive (codes s)
      → SpentInactive (codes (register_user place_student out given s).1)
  register_user-SpentInactive given = register_user-Safe spent_law given

  -- No registration closes a user invitation: the table is as it was, so that a pending invitation stays
  -- pending after it has been used.
  pub register_user_consumes_no_user_invitation :
      (given : Application) (s : Control)
      → (register_user place_student out given s).1.user_invitations ≡ s.user_invitations
  register_user_consumes_no_user_invitation given s =
      register_user-Safe (kept_law s.user_invitations) given s refl
