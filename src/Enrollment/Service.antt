-- ===== src/Enrollment/Service.antt =====
-- The service methods on enrollments and payments, in app/domains/tenant/service.py.
use sams_backend.Base.{
  ℕ, String, List, [], ◌∷◌, Option, none, some, Bool, true, false, not, ◌||◌, ◌==◌, nat_eq,
  string_eq, contains, first_row, update_rows, if◌then◌else◌, ltb, is_text, Action, pure, raise,
  gets, modify, or_raise, require_that, ◌>>=◌, ◌>>◌, ⊤, value_error, permission_error,
  not_null_violation,
}
use sams_backend.Tenant.{
  Store, EnrollmentRow, EnrollmentState, PaymentRow, pending, paid, refunded, StudentRow,
  ClassMapRow, Event, status_eq, published, enrollment_cancelled, get_class_map_by_id,
  get_event_by_id, get_student_by_id, get_class_by_id, create_notification,
}
use sams_backend.Enrollment.Rows.{
  get_enrollments_for_student_and_event, Details, get_enrollment_by_id, create_enrollment,
  create_payment, get_payment_by_enrollment, can_parent_approve_for_student, delete_enrollment,
}

abbrev pub is_published : Option Event → Bool
is_published none = false
is_published (some e) = e.row.status == published

abbrev pub is_in_class : ℕ → StudentRow → Bool
is_in_class class_id t = elim t.class_id [ none ↦ false | some c ↦ c == class_id ]

-- "If ticket price > 0, we can create a pending payment".
unfoldable pub charge : ℕ → Option Details → Action Store ⊤
charge enrollment_id none = pure tt
charge enrollment_id (some d) =
    if ltb 0 d.ticket_price then create_payment enrollment_id d.ticket_price pending else pure tt

-- The end of `enroll_student`, for a student who is not in the event yet.
unfoldable pub enroll_new :
    ℕ → ClassMapRow → EnrollmentState → Option ℕ → Option ℕ → StudentRow → Action Store ℕ
enroll_new student_id class_map state teacher_id parent_id student s =
    let (enrollment_id, made) =
      create_enrollment student_id class_map.id state teacher_id parent_id s in
    if is_in_class class_map.class_id student
    then (charge enrollment_id (get_enrollment_by_id enrollment_id made) >> pure enrollment_id) made
    else raise (value_error "Student is not in the class mapped to this event") s

-- The enrollments of the student in the event: the one of this mapping is returned, and another one
-- refuses the request.
unfoldable pub known_enrollment : ℕ → List EnrollmentRow → Action Store ℕ
known_enrollment map_id existing =
    elim (first_row (λ (en : EnrollmentRow). en.event_class_map_id == map_id) existing) [
      | none ↦ raise (value_error "Student is already enrolled in this event")
      | some en ↦ pure en.id
    ]

abbrev pub is_none : List EnrollmentRow → Bool
is_none [] = true
is_none (en ∷ ens) = false

-- The enrollment of a known student for a known mapping.
unfoldable pub enroll_into :
    ℕ → ℕ → EnrollmentState → Option ℕ → Option ℕ → ClassMapRow → StudentRow → Action Store ℕ
enroll_into student_id map_id state teacher_id parent_id class_map student s =
    let existing = get_enrollments_for_student_and_event student_id class_map.event_id s in
    if is_none existing
    then enroll_new student_id class_map state teacher_id parent_id student s
    else known_enrollment map_id existing s

unfoldable pub enroll_student : ℕ → ℕ → EnrollmentState → Option ℕ → Option ℕ → Action Store ℕ
enroll_student student_id map_id state teacher_id parent_id = do
  mapping ← gets (get_class_map_by_id map_id)
  class_map ← or_raise mapping (value_error "Event class mapping not found")
  event ← gets (get_event_by_id class_map.event_id)
  require_that (is_published event) (value_error "Enrollment is only allowed for published events")
  found ← gets (get_student_by_id student_id)
  student ← or_raise found (value_error "Student not found")
  enroll_into student_id map_id state teacher_id parent_id class_map student

-- Who may cancel, by the roles of the caller as a set.
unfoldable pub check_cancel_right : ℕ → ℕ → List String → Action Store ⊤
check_cancel_right student_id user_id roles s =
    if contains "school_admin" roles || contains "teacher" roles
    then pure tt s
    else if contains "parent" roles
    then require_that (can_parent_approve_for_student student_id user_id s)
        (permission_error
          "Only a parent authorized to approve for this student can cancel their enrollments")
        s
    else if contains "student" roles
    then require_that (student_id == user_id)
        (permission_error "Students can only cancel their own enrollments") s
    else raise (permission_error "Unauthorized role to cancel enrollment") s

abbrev pub is_paid : Option PaymentRow → Bool
is_paid none = false
is_paid (some p) = elim p.status [ pending ↦ false | paid ↦ true | refunded ↦ false ]

-- `x or …`
abbrev pub text_or : String → String → String
text_or text other = if is_text text then text else other

-- The notice to the head teacher: `recipient_user_id` is `NOT NULL`, so a class without a head
-- teacher makes the insert fail.
unfoldable pub notify_head_teacher : Details → Action Store ⊤
notify_head_teacher d s = elim (get_class_map_by_id d.row.event_class_map_id s) [
  | none ↦ pure tt s
  | some class_map ↦ elim (get_class_by_id class_map.class_id s) [
    | none ↦ pure tt s
    | some c ↦ elim c.head_teacher_id [
      | none ↦ raise (not_null_violation "notifications.recipient_user_id") s
      | some teacher_id ↦
          (create_notification class_map.event_id teacher_id
            (enrollment_cancelled (text_or d.student_name "Student #{student_id}")
              (text_or d.event_title "the event"))
            s)
    ]
  ]
]

unfoldable pub cancel_enrollment : ℕ → ℕ → List String → Action Store ⊤
cancel_enrollment enrollment_id user_id roles = do
  found ← gets (get_enrollment_by_id enrollment_id)
  enrollment ← or_raise found (value_error "Enrollment not found")
  check_cancel_right enrollment.row.student_id user_id roles
  payment ← gets (get_payment_by_enrollment enrollment_id)
  require_that (not (is_paid payment))
      (value_error "Cannot cancel enrollment after payment has been completed")
  notify_head_teacher enrollment
  modify (delete_enrollment enrollment_id)

-- `UPDATE payments SET status = 'paid' WHERE enrollment_id = $1`
abbrev pub set_paid : PaymentRow → PaymentRow
set_paid p = record p { status = paid }

unfoldable pub pay_enrollment : ℕ → Action Store Bool
pay_enrollment enrollment_id s = elim (get_payment_by_enrollment enrollment_id s) [
  | none ↦ pure false s
  | some p ↦ pure true (record s {
    payments =
        update_rows (λ (q : PaymentRow). q.enrollment_id == enrollment_id) set_paid s.payments;
  })
]
