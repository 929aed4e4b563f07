-- ===== src/Enrollment/CancelSteps.antt =====
-- The steps of `cancel_enrollment` of app/domains/tenant/service.py that may raise.
use sams_backend.Base.{
  [], ◌∷◌, checked-ends, pure, Option-cases, ℕ, String, List, Option, none, some, Bool, true, false,
  not, nat_eq, string_eq, Action, err, Error, modify, or_raise, require_that, ◌>>◌, ⊤, value_error,
  bind-failure, ◌⊎◌, ◌≡◌, inl, inr, arith,
}
use sams_backend.Tenant.{
  Store, Notice, enrollment_cancelled, notice_row, sent, notification_checks, create_notification,
  get_class_map_by_id, get_class_by_id,
}
use sams_backend.Enrollment.Rows.{Details, get_payment_by_enrollment, delete_enrollment}
use sams_backend.Enrollment.Service.{is_paid, check_cancel_right, notify_head_teacher, text_or}

-- The guards of the call: they read the store only.
pub check_cancel_right-Keeps :
    (student_id user_id : ℕ) (roles : List String) (s : Store)
    → (check_cancel_right student_id user_id roles s).1 ≡ s
unfolding check_cancel_right
check_cancel_right-Keeps student_id user_id roles s = ground arith

abbrev cancelled_text : Details → Notice
cancelled_text d =
    enrollment_cancelled (text_or d.student_name "Student #{student_id}")
      (text_or d.event_title "the event")

create_notification-failure :
    (event_id recipient : ℕ) (text : Notice) (s s' : Store) (e : Error)
    → create_notification event_id recipient text s ≡ (err e, s')
    → s' ≡ s
unfolding create_notification
create_notification-failure event_id recipient text s s' e h =
    let row = notice_row event_id text recipient in
    elim (checked-ends (pure tt) s (λ t. sent t (row ∷ [])) (notification_checks row s)) [
      | inl (x, refused) ↦ cc
      | inr (passed, stored) ↦ cc
    ]

notify_head_teacher-failure :
    (d : Details) (s s' : Store) (e : Error) → notify_head_teacher d s ≡ (err e, s') → s' ≡ s
unfolding notify_head_teacher
notify_head_teacher-failure d s s' e h =
    elim (Option-cases (get_class_map_by_id d.row.event_class_map_id s)) [
      | inl unmapped ↦ ground arith
      | inr (m, mapped) ↦ elim (Option-cases (get_class_by_id m.class_id s)) [
        | inl gone ↦ ground arith
        | inr (c, here) ↦ elim (Option-cases c.head_teacher_id) [
          | inl headless ↦ ground arith
          | inr (teacher_id, headed) ↦
              create_notification-failure m.event_id teacher_id (cancelled_text d) s s' e
                (ground arith)
        ]
      ]
    ]

guard-failure :
    (b : Bool) (refusal : Error) (m : Action Store ⊤) (s s' : Store) (e : Error)
    → (require_that b refusal >> m) s ≡ (err e, s')
    → (s' ≡ s) ⊎ (m s ≡ (err e, s'))
guard-failure true refusal m s s' e h = inr h
guard-failure false refusal m s s' e h = inl cc

pub or_raise-failure :
    {A : Type 0} (o : Option A) (refusal e : Error) (s s' : Store)
    → or_raise o refusal s ≡ (err e, s')
    → s' ≡ s
or_raise-failure none refusal e s s' h = cc
or_raise-failure (some a) refusal e s s' h = cc

-- The second half of the call: the payment, the notice, the delete.
abbrev pub unpaid_only : Error
unpaid_only = value_error "Cannot cancel enrollment after payment has been completed"

abbrev pub carry_out : ℕ → Details → Action Store ⊤
carry_out enrollment_id d = notify_head_teacher d >> modify (delete_enrollment enrollment_id)

abbrev pub after_check : ℕ → Details → Action Store ⊤
after_check enrollment_id d s =
    (require_that (not (is_paid (get_payment_by_enrollment enrollment_id s))) unpaid_only
        >> carry_out enrollment_id d)
      s

carry_out-failure :
    (enrollment_id : ℕ) (d : Details) (s s' : Store) (e : Error)
    → carry_out enrollment_id d s ≡ (err e, s')
    → s' ≡ s
carry_out-failure enrollment_id d s s' e h =
    elim (bind-failure (notify_head_teacher d) (λ _. modify (delete_enrollment enrollment_id)) s s'
      e h) [ inl told ↦ notify_head_teacher-failure d s s' e told | inr (a, t, done, never) ↦ cc ]

pub after_check-failure :
    (enrollment_id : ℕ) (d : Details) (s s' : Store) (e : Error)
    → after_check enrollment_id d s ≡ (err e, s')
    → s' ≡ s
after_check-failure enrollment_id d s s' e h =
    elim (guard-failure (not (is_paid (get_payment_by_enrollment enrollment_id s))) unpaid_only
      (carry_out enrollment_id d) s s' e h) [
        | inl same ↦ same
        | inr rest ↦ carry_out-failure enrollment_id d s s' e rest
      ]
