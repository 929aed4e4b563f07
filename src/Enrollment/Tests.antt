-- ===== src/Enrollment/Tests.antt =====
-- A trip of one class, and the theorems on enrollments at it.
use sams_backend.Base.{
  ℕ, List, [], ◌∷◌, Option, none, some, true, false, ◌==◌, nat_eq, string_eq, Result, ok, err,
  Error, ◌≡◌, refl, arith,
}
use sams_backend.Authz.{CurrentUser}
use sams_backend.Tenant.{
  Store, EnrollmentRow, requested_by_student, published, enrolled, pending, ClassRow,
  get_class_map_by_id, get_event_by_id, get_student_by_id, get_class_by_id, create_notification,
  EventRow, PaymentRow,
}
use sams_backend.Enrollment.Rows.{
  Details, get_enrollment_by_id, details_of, get_enrollments_for_student_and_event, is_enrolled_in,
  is_map_of, create_enrollment, create_payment, get_payment_by_enrollment,
  can_parent_approve_for_student, enrollment_row,
}
use sams_backend.Enrollment.Service.{
  enroll_student, enroll_into, enroll_new, charge, is_paid, check_cancel_right, notify_head_teacher,
  cancel_enrollment, pay_enrollment,
}
use sams_backend.Enrollment.Cancellation.{
  may_cancel, cancel_enrollment_lem, cancel_enrollment_needs_head_teacher,
}
use sams_backend.Enrollment.Uniqueness.{EnrolledOnce, enroll_student-EnrolledOnce}
use sams_backend.Enrollment.Payment.{paid_enrollment_stays}

abbrev parent : CurrentUser
parent = record { id = 6; tenant_id = some "tenant_a"; role = "parent"; roles = "parent" ∷ [] }

abbrev room : Option ℕ → ClassRow
room head = record {
  id = 20;
  name = "Grade 1 - A";
  level_id = 10;
  head_teacher_id = head;
  capacity = 25;
  is_active = true;
  academic_year_id = 1;
  section_label = some "A";
}

abbrev trip : EventRow
trip = record {
  id = 10;
  title = "Museum";
  created_by = 2;
  school_subsidy = 0;
  status = published;
  predicted_attendance = none;
  manager_reviewer_id = none;
  finance_reviewer_id = none;
  total_cost = none;
  submitted_at = none;
  manager_approved_at = none;
  finance_priced_at = none;
  published_at = none;
  rejection_reason = none;
}

abbrev seat : EnrollmentRow
seat = record {
  id = 70;
  student_id = 30;
  event_class_map_id = 15;
  state = requested_by_student;
  teacher_id = none;
  parent_id = none;
}

abbrev school : Option ℕ → List EnrollmentRow → List PaymentRow → Store
school head enrollments payments = record {
  events = trip ∷ [];
  class_maps = record { id = 15; event_id = 10; class_id = 20; ticket_price = 500 } ∷ [];
  classes = room head ∷ [];
  levels = record { level_id = 10; name = "Grade 1"; ordinal = some 1 } ∷ [];
  students =
      record { id = 30; name = "Amal"; class_id = some 20; status = enrolled; exited_on = none }
      ∷ [];
  links = record { student_id = 30; parent_id = 6; can_approve = true } ∷ [];
  users = record { id = 2; role = "teacher" } ∷ [];
  enrollments = enrollments;
  payments = payments;
  notifications = [];
  years = [];
  rollovers = [];
  rollover_lines = [];
  class_history = [];
  resource_types = [];
  resources = [];
  resource_costs = [];
  next_id = 80;
}

abbrev open_school : Store
open_school = school (some 2) [] []

abbrev seated_school : Store
seated_school =
    school (some 2) (seat ∷ [])
      (record { id = 71; enrollment_id = 70; amount = 500; status = pending } ∷ [])

abbrev seat_details : Details
seat_details = record {
  row = seat;
  student_name = "Amal";
  event_title = "Museum";
  ticket_price = 500;
  event_created_by = 2;
}

abbrev state_after : {A : Type 0} → Result A × Store → Store
state_after out = out.1

-- The school where the trip costs nothing.
abbrev free_school : Store
free_school = record open_school {
  class_maps = record { id = 15; event_id = 10; class_id = 20; ticket_price = 0 } ∷ [];
}

enrolls :
    enroll_student 30 15 requested_by_student none none free_school
    ≡ (ok 80, state_after (enroll_student 30 15 requested_by_student none none free_school))
unfolding enroll_student enroll_into enroll_new create_enrollment charge create_payment
    get_class_map_by_id get_event_by_id get_student_by_id get_enrollments_for_student_and_event
    is_enrolled_in is_map_of get_enrollment_by_id details_of get_class_by_id
enrolls = refl

none_yet : EnrolledOnce free_school
unfolding get_enrollments_for_student_and_event
none_yet k e = omega arith

enroll_student-EnrolledOnce_example :
    EnrolledOnce (state_after (enroll_student 30 15 requested_by_student none none free_school))
enroll_student-EnrolledOnce_example =
    enroll_student-EnrolledOnce 30 15 requested_by_student none none free_school
      (state_after (enroll_student 30 15 requested_by_student none none free_school)) 80 none_yet
      enrolls

pays : pay_enrollment 70 seated_school ≡ (ok true, state_after (pay_enrollment 70 seated_school))
unfolding pay_enrollment get_payment_by_enrollment
pays = refl

paid_enrollment_stays_example :
    (e : Error) × (cancel_enrollment 70 6
        ("parent" ∷ [])
        (state_after (pay_enrollment 70 seated_school))
      ≡ (err e, state_after (pay_enrollment 70 seated_school)))
paid_enrollment_stays_example =
    paid_enrollment_stays 70 6 ("parent" ∷ []) seated_school
      (state_after (pay_enrollment 70 seated_school)) pays

cancels :
    cancel_enrollment 70 6 ("parent" ∷ []) seated_school
    ≡ (ok tt, state_after (cancel_enrollment 70 6 ("parent" ∷ []) seated_school))
unfolding cancel_enrollment check_cancel_right can_parent_approve_for_student get_enrollment_by_id
    details_of get_student_by_id get_class_map_by_id get_class_by_id get_payment_by_enrollment
    notify_head_teacher create_notification
cancels = refl

cancel_enrollment_lem_example :
    (d : Details) × (get_enrollment_by_id 70 seated_school ≡ some d)
    × (may_cancel
          ("parent" ∷ [])
          (can_parent_approve_for_student d.row.student_id 6 seated_school)
          (d.row.student_id == 6)
        ≡ true)
    × (is_paid (get_payment_by_enrollment 70 seated_school) ≡ false)
    × (enrollment_row 70 (state_after (cancel_enrollment 70 6 ("parent" ∷ []) seated_school))
        ≡ none)
    × (get_payment_by_enrollment 70
          (state_after (cancel_enrollment 70 6 ("parent" ∷ []) seated_school))
        ≡ none)
cancel_enrollment_lem_example =
    cancel_enrollment_lem 70 6 ("parent" ∷ []) seated_school
      (state_after (cancel_enrollment 70 6 ("parent" ∷ []) seated_school)) tt cancels

found_seat :
    (head : Option ℕ) (payments : List PaymentRow)
    → get_enrollment_by_id 70 (school head (seat ∷ []) payments) ≡ some seat_details
unfolding get_enrollment_by_id details_of get_student_by_id get_class_map_by_id get_class_by_id
found_seat head payments = refl

cancel_enrollment_needs_head_teacher_example :
    (e : Error) × (cancel_enrollment 70 6 ("parent" ∷ []) (school none (seat ∷ []) [])
      ≡ (err e, school none (seat ∷ []) []))
unfolding get_class_map_by_id get_class_by_id
cancel_enrollment_needs_head_teacher_example =
    cancel_enrollment_needs_head_teacher 70 6 ("parent" ∷ []) (school none (seat ∷ []) [])
      seat_details (record { id = 15; event_id = 10; class_id = 20; ticket_price = 500 })
      (room none) (found_seat none []) refl refl refl
