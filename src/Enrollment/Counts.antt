-- ===== src/Enrollment/Counts.antt =====
-- How many enrollments of a student in an event `create_enrollment` of
-- app/domains/tenant/tenant_repository.py leaves.
use sams_backend.Base.{
  true, false, raise, pure, ok, ◌>>◌, not_null_violation, ℕ, ◌+◌, ◌≤◌, List, [], ◌∷◌, ◌++◌, Option,
  none, some, Bool, ◌&&◌, ◌==◌, nat_eq, length, first_row, where_rows, update_rows, Option-cases,
  if◌then◌else◌, ltb, ◌≡◌, refl, inl, inr, arith,
}
use sams_backend.Tenant.{Store, EnrollmentRow, EnrollmentState, get_class_map_by_id}
use sams_backend.Enrollment.Rows.{
  Details, is_map_of, is_enrolled_in, get_enrollments_for_student_and_event, create_enrollment,
  create_payment, is_pair, new_enrollment,
}
use sams_backend.Enrollment.Service.{charge}

-- A charge that returns has written nothing.
pub charge-steps :
    (id : ℕ) (d : Option Details) (s s' : Store) (r : ℕ)
    → (charge id d >> pure id) s ≡ (ok r, s')
    → s ≡ s'
unfolding charge create_payment
charge-steps id none s s' r h = cc
charge-steps id (some d) s s' r h = free (ltb 0 d.ticket_price) h
  where
    free :
        (b : Bool)
        → ((if b then raise (not_null_violation "payments.currency") else pure tt) >> pure id) s
          ≡ (ok r, s')
        → s ≡ s'
    free true k = cc
    free false k = cc

length-where_rows-append :
    (p : EnrollmentRow → Bool) (xs : List EnrollmentRow) (x : EnrollmentRow)
    → length (where_rows p (xs ++ x ∷ [])) ≡ length (where_rows p xs) + (if p x then 1 else 0)
length-where_rows-append p [] x = ground arith
length-where_rows-append p (y ∷ xs) x = ground (arith, length-where_rows-append p xs x)

length-where_rows-update_rows :
    (p q : EnrollmentRow → Bool) (f : EnrollmentRow → EnrollmentRow)
    → ((x : EnrollmentRow) → p (f x) ≡ p x)
    → (xs : List EnrollmentRow)
    → length (where_rows p (update_rows q f xs)) ≡ length (where_rows p xs)
length-where_rows-update_rows p q f keep [] = refl
length-where_rows-update_rows p q f keep (x ∷ xs) =
    ground (arith, keep x, length-where_rows-update_rows p q f keep xs)

pub le_of_eq : {a b : ℕ} → a ≡ b → a ≤ b
le_of_eq h = omega (arith, h)

le_of_eq_add : {a b : ℕ} (c : ℕ) → a ≡ b → a ≤ b + c
le_of_eq_add c h = omega (arith, h)

pub le_trans : {a b c : ℕ} → a ≤ b → b ≤ c → a ≤ c
le_trans h k = omega (arith, h, k)

-- How many enrollments of a student in an event a new one leaves.
pub length-create_enrollment :
    (student_id map_id : ℕ) (state : EnrollmentState) (t p : Option ℕ) (k e : ℕ) (s : Store)
    → length (
        get_enrollments_for_student_and_event k e
          (create_enrollment student_id map_id state t p s).1)
      ≤ length (get_enrollments_for_student_and_event k e s)
        + (if student_id == k && is_map_of e s map_id then 1 else 0)
unfolding create_enrollment get_enrollments_for_student_and_event is_enrolled_in is_map_of
    get_class_map_by_id
length-create_enrollment student_id map_id state t p k e s =
    elim (Option-cases (first_row (is_pair student_id map_id) s.enrollments)) [
      | inl new ↦
          rw (new, create_enrollment)
            (le_of_eq (
              length-where_rows-append (is_enrolled_in k e s) s.enrollments
                (new_enrollment s.next_id student_id map_id state t p)))
      | inr (old, found) ↦
          rw (found, create_enrollment)
            (le_of_eq_add (if student_id == k && is_map_of e s map_id then 1 else 0) (
              length-where_rows-update_rows (is_enrolled_in k e s) (is_pair student_id map_id)
                (λ (en : EnrollmentRow). record en { state = state }) (λ en. refl) s.enrollments))
    ]
