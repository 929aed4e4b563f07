-- ===== src/Enrollment/Payment.antt =====
-- `pay_enrollment` and `cancel_enrollment` of app/domains/tenant/service.py, one after the other.
use mathlib.Core.Option
use sams_backend.Base.{
  ℕ, String, List, true, false, ◌==◌, nat_eq, update_rows, first_row-update_rows, Option-cases, ok,
  err, Error, pure-steps, ◌≡◌, refl, sym, ap, ◌∙◌, inl, inr,
}
use sams_backend.Tenant.{Store, PaymentRow}
use sams_backend.Enrollment.Rows.{get_payment_by_enrollment}
use sams_backend.Enrollment.Service.{is_paid, set_paid, pay_enrollment, cancel_enrollment}
use sams_backend.Enrollment.Cancellation.{
  outcome-cases, cancel_enrollment_atomic, cancel_enrollment_lem,
}

-- A payment that went through is on record as paid.
pay_enrollment-paid :
    (enrollment_id : ℕ) (s s' : Store)
    → pay_enrollment enrollment_id s ≡ (ok true, s')
    → is_paid (get_payment_by_enrollment enrollment_id s') ≡ true
unfolding pay_enrollment get_payment_by_enrollment
pay_enrollment-paid enrollment_id s s' h =
    elim (Option-cases (get_payment_by_enrollment enrollment_id s)) [
      | inl none_due ↦
          let (denied, e) =
            pure-steps false true s s' (sym (rw (none_due, pay_enrollment) refl) ∙ h) in
          cc
      | inr (p, due) ↦
          let written = record s {
            payments =
                update_rows (λ (q : PaymentRow). q.enrollment_id == enrollment_id) set_paid
                  s.payments;
          } in
          let (granted, e) =
            pure-steps true true written s' (sym (rw (due, pay_enrollment) refl) ∙ h) in
          ap (λ (x : Store). is_paid (get_payment_by_enrollment enrollment_id x)) (sym e)
          ∙ ap is_paid (
              first_row-update_rows (λ (q : PaymentRow). q.enrollment_id == enrollment_id) set_paid
                (λ q. refl) s.payments
              ∙ ap (Option.map set_paid) due)
    ]

-- In the store that a payment has left, every attempt to cancel its enrollment raises and changes nothing.
pub paid_enrollment_stays :
    (enrollment_id user_id : ℕ) (roles : List String) (s s' : Store)
    → pay_enrollment enrollment_id s ≡ (ok true, s')
    → (e : Error) × (cancel_enrollment enrollment_id user_id roles s' ≡ (err e, s'))
paid_enrollment_stays enrollment_id user_id roles s s' h =
    elim (outcome-cases (cancel_enrollment enrollment_id user_id roles s')) [
      | inl (e, t, failed) ↦ (
        e,
        failed
            ∙ ap (λ (x : Store). (err e, x))
                (cancel_enrollment_atomic enrollment_id user_id roles s' t e failed),
      )
      | inr (u, t, done) ↦
          let (d, found, may, unpaid, gone, clear) =
            cancel_enrollment_lem enrollment_id user_id roles s' t u done in
          cc (pay_enrollment-paid enrollment_id s s' h, unpaid)
    ]
