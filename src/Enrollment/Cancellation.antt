-- ===== src/Enrollment/Cancellation.antt =====
-- What `cancel_enrollment` of app/domains/tenant/service.py lets through, and what it leaves.
use sams_backend.Base.{
  ℕ, String, List, [], ◌∷◌, none, some, Bool, true, false, not, ◌&&◌, ◌||◌, ◌==◌, nat_eq, string_eq,
  contains, some_inj, if◌then◌else◌, Result, ok, err, Error, modify, or_raise, ◌>>◌, ⊤, value_error,
  permission_error, first_row-where_rows-none, not_null_violation, bind-steps, bind-failure,
  guard-steps, pure-steps, or_raise-steps, ◌⊎◌, ◌≡◌, refl, sym, ap, ◌∙◌, inl, inr, arith,
}
use sams_backend.Tenant.{
  Store, EnrollmentRow, PaymentRow, ClassMapRow, ClassRow, get_class_map_by_id, get_class_by_id,
}
use sams_backend.Enrollment.Rows.{
  Details, get_enrollment_by_id, enrollment_row, get_payment_by_enrollment, delete_enrollment,
  can_parent_approve_for_student,
}
use sams_backend.Enrollment.Service.{
  is_paid, check_cancel_right, notify_head_teacher, cancel_enrollment,
}
use sams_backend.Enrollment.CancelSteps.{
  check_cancel_right-Keeps, or_raise-failure, unpaid_only, carry_out, after_check,
  after_check-failure,
}

-- A cancellation that raises changes nothing.
pub cancel_enrollment_atomic :
    (enrollment_id user_id : ℕ) (roles : List String) (s s' : Store) (e : Error)
    → cancel_enrollment enrollment_id user_id roles s ≡ (err e, s')
    → s' ≡ s
unfolding cancel_enrollment
cancel_enrollment_atomic enrollment_id user_id roles s s' e h =
    let missing = value_error "Enrollment not found" in
    elim (bind-failure (or_raise (get_enrollment_by_id enrollment_id s) missing)
      (λ d. check_cancel_right d.row.student_id user_id roles >> after_check enrollment_id d) s s' e
      h) [
        | inl none_there ↦
            or_raise-failure (get_enrollment_by_id enrollment_id s) missing e s s' none_there
        | inr (d, s1, looked, h1) ↦
            let (found, e1) =
              or_raise-steps (get_enrollment_by_id enrollment_id s) missing s s1 d looked in
            elim (bind-failure (check_cancel_right d.row.student_id user_id roles)
              (λ _. after_check enrollment_id d) s1 s' e h1) [
                | inl refused ↦
                    ap (λ (x : Result ⊤ × Store). x.1) (sym refused)
                    ∙ check_cancel_right-Keeps d.row.student_id user_id roles s1
                    ∙ sym e1
                | inr (u, s2, right, h2) ↦
                    after_check-failure enrollment_id d s2 s' e h2
                    ∙ ap (λ (x : Result ⊤ × Store). x.1) (sym right)
                    ∙ check_cancel_right-Keeps d.row.student_id user_id roles s1
                    ∙ sym e1
              ]
      ]

-- Who may cancel: staff, a parent who may approve for the student, or the student, as long as the
-- caller is not a parent too.
abbrev pub may_cancel : List String → Bool → Bool → Bool
may_cancel roles can_approve is_own =
    contains "school_admin" roles
    || contains "teacher" roles
    || (if contains "parent" roles then can_approve else contains "student" roles && is_own)

check_cancel_right-may_cancel :
    (student_id user_id : ℕ) (roles : List String) (s s' : Store) (u : ⊤)
    → check_cancel_right student_id user_id roles s ≡ (ok u, s')
    → may_cancel roles (can_parent_approve_for_student student_id user_id s) (student_id == user_id)
      ≡ true
unfolding check_cancel_right
check_cancel_right-may_cancel student_id user_id roles s s' u h = ground arith

-- The steps of a cancellation that returns.
record Cancelled (enrollment_id user_id : ℕ) (roles : List String) (s s' : Store) : Type 0 where
  details : Details
  was_there : get_enrollment_by_id enrollment_id s ≡ some details
  was_allowed :
      may_cancel roles
        (can_parent_approve_for_student details.row.student_id user_id s)
        (details.row.student_id == user_id)
      ≡ true
  was_unpaid : not (is_paid (get_payment_by_enrollment enrollment_id s)) ≡ true
  told : Store
  telling : notify_head_teacher details s ≡ (ok tt, told)
  gone : delete_enrollment enrollment_id told ≡ s'

cancel_enrollment-Cancelled :
    (enrollment_id user_id : ℕ) (roles : List String) (s s' : Store) (u : ⊤)
    → cancel_enrollment enrollment_id user_id roles s ≡ (ok u, s')
    → Cancelled enrollment_id user_id roles s s'
unfolding cancel_enrollment
cancel_enrollment-Cancelled enrollment_id user_id roles s s' u h =
    let missing = value_error "Enrollment not found" in
    let (d, s1, looked, h1) =
      bind-steps (or_raise (get_enrollment_by_id enrollment_id s) missing)
        (λ d. check_cancel_right d.row.student_id user_id roles >> after_check enrollment_id d) s s'
        u h in
    let (found, e1) = or_raise-steps (get_enrollment_by_id enrollment_id s) missing s s1 d looked in
    let (v, s2, right, h2) =
      bind-steps (check_cancel_right d.row.student_id user_id roles)
        (λ _. after_check enrollment_id d) s1 s' u h1 in
    let e2 : s ≡ s2 =
      e1
      ∙ sym (
          ap (λ (x : Result ⊤ × Store). x.1) (sym right)
          ∙ check_cancel_right-Keeps d.row.student_id user_id roles s1) in
    let (unpaid, h3) =
      guard-steps (not (is_paid (get_payment_by_enrollment enrollment_id s))) unpaid_only
        (carry_out enrollment_id d) s s' u (ap (after_check enrollment_id d) e2 ∙ h2) in
    let (w, t, sent, h4) =
      bind-steps (notify_head_teacher d) (λ _. modify (delete_enrollment enrollment_id)) s s' u
        h3 in
    record {
      details = d;
      was_there = found;
      was_allowed =
          check_cancel_right-may_cancel d.row.student_id user_id roles s s2 v
            (ap (check_cancel_right d.row.student_id user_id roles) e1 ∙ right);
      was_unpaid = unpaid;
      told = t;
      telling = sent;
      gone = (pure-steps tt u (delete_enrollment enrollment_id t) s' h4).1;
    }

delete_enrollment-gone :
    (enrollment_id : ℕ) (s : Store)
    → (enrollment_row enrollment_id (delete_enrollment enrollment_id s) ≡ none)
      × (get_payment_by_enrollment enrollment_id (delete_enrollment enrollment_id s) ≡ none)
unfolding delete_enrollment get_payment_by_enrollment
delete_enrollment-gone enrollment_id s = (
  first_row-where_rows-none (λ (en : EnrollmentRow). en.id == enrollment_id)
      (λ (en : EnrollmentRow). not (en.id == enrollment_id)) (λ en h. ground arith) s.enrollments,
  first_row-where_rows-none (λ (p : PaymentRow). p.enrollment_id == enrollment_id)
      (λ (p : PaymentRow). not (p.enrollment_id == enrollment_id)) (λ p h. ground arith) s.payments,
)

not-true : (b : Bool) → not b ≡ true → b ≡ false
not-true b h = ground arith

pub outcome-cases :
    (out : Result ⊤ × Store)
    → ((e : Error) × (t : Store) × (out ≡ (err e, t))) ⊎ ((u : ⊤) × (t : Store) × (out ≡ (ok u, t)))
outcome-cases (ok u, t) = inr (u, t, refl)
outcome-cases (err e, t) = inl (e, t, refl)

-- A cancellation that returns was asked for by someone who may cancel, of an enrollment that is there
-- and is not paid, and leaves neither the enrollment nor a payment for it.
pub cancel_enrollment_lem :
    (enrollment_id user_id : ℕ) (roles : List String) (s s' : Store) (u : ⊤)
    → cancel_enrollment enrollment_id user_id roles s ≡ (ok u, s')
    → (d : Details) × (get_enrollment_by_id enrollment_id s ≡ some d)
      × (may_cancel roles
            (can_parent_approve_for_student d.row.student_id user_id s)
            (d.row.student_id == user_id)
          ≡ true)
      × (is_paid (get_payment_by_enrollment enrollment_id s) ≡ false)
      × (enrollment_row enrollment_id s' ≡ none)
      × (get_payment_by_enrollment enrollment_id s' ≡ none)
cancel_enrollment_lem enrollment_id user_id roles s s' u h =
    let run = cancel_enrollment-Cancelled enrollment_id user_id roles s s' u h in
    let (row, payment) = delete_enrollment-gone enrollment_id run.told in
    (
      run.details,
      run.was_there,
      run.was_allowed,
      not-true (is_paid (get_payment_by_enrollment enrollment_id s)) run.was_unpaid,
      ap (enrollment_row enrollment_id) (sym run.gone) ∙ row,
      ap (get_payment_by_enrollment enrollment_id) (sym run.gone) ∙ payment,
    )

headless_fails :
    (d : Details) (s : Store) (m : ClassMapRow) (c : ClassRow)
    → get_class_map_by_id d.row.event_class_map_id s ≡ some m
    → get_class_by_id m.class_id s ≡ some c
    → c.head_teacher_id ≡ none
    → notify_head_teacher d s ≡ (err (not_null_violation "notifications.recipient_user_id"), s)
unfolding notify_head_teacher
headless_fails d s m c mapped class headless =
    rw (mapped, notify_head_teacher, class, headless) refl

-- An enrollment whose class has no head teacher cannot be cancelled by anyone: every call raises, and
-- changes nothing.
pub cancel_enrollment_needs_head_teacher :
    (enrollment_id user_id : ℕ) (roles : List String) (s : Store) (d : Details) (m : ClassMapRow)
    (c : ClassRow)
    → get_enrollment_by_id enrollment_id s ≡ some d
    → get_class_map_by_id d.row.event_class_map_id s ≡ some m
    → get_class_by_id m.class_id s ≡ some c
    → c.head_teacher_id ≡ none
    → (e : Error) × (cancel_enrollment enrollment_id user_id roles s ≡ (err e, s))
cancel_enrollment_needs_head_teacher enrollment_id user_id roles s d m c found mapped class
      headless =
    let run = cancel_enrollment enrollment_id user_id roles s in
    elim (outcome-cases run) [
      | inl (e, t, failed) ↦ (
        e,
        failed
            ∙ ap (λ (x : Store). (err e, x))
                (cancel_enrollment_atomic enrollment_id user_id roles s t e failed),
      )
      | inr (u, t, done) ↦
          let went = cancel_enrollment-Cancelled enrollment_id user_id roles s t u done in
          let same = some_inj d went.details (sym found ∙ went.was_there) in
          let sent : notify_head_teacher d s ≡ (ok tt, went.told) =
            ap (λ (x : Details). notify_head_teacher x s) same ∙ went.telling in
          cc (sym (headless_fails d s m c mapped class headless) ∙ sent)
    ]

-- A super administrator without another role is refused, whatever the enrollment, and changes nothing.
pub super_admin_cannot_cancel :
    (enrollment_id user_id : ℕ) (s : Store) (d : Details)
    → get_enrollment_by_id enrollment_id s ≡ some d
    → cancel_enrollment enrollment_id user_id ("super_admin" ∷ []) s
      ≡ (err (permission_error "Unauthorized role to cancel enrollment"), s)
unfolding cancel_enrollment check_cancel_right
super_admin_cannot_cancel enrollment_id user_id s d found = rw (found, cancel_enrollment) refl
