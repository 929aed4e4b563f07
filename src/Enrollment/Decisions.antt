-- ===== src/Enrollment/Decisions.antt =====
-- Which decisions the route `update_enrollment_approval` of app/domains/students/router.py lets through.
use sams_backend.Base.{some, true, ◌==◌, nat_eq, ◌≡◌}
use sams_backend.Authz.{CurrentUser, has_role}
use sams_backend.Tenant.{Store, EnrollmentState, requested_by_student, approved_by_parent}
use sams_backend.Enrollment.Rows.{Details, can_parent_approve_for_student}
use sams_backend.Enrollment.Approval.{is_parent_answer, is_teacher_answer}

-- A decision that a person may take on an enrollment: a parent with the right to approve answers a
-- request, and the creator of the event answers what a parent has approved.
pub data Decided (user : CurrentUser) (d : Details) (s : Store)
    : EnrollmentState → EnrollmentState → Type 0 where
  parent_answers :
      (next : EnrollmentState)
      → is_parent_answer (some next) ≡ true
      → has_role user "parent" ≡ true
      → can_parent_approve_for_student d.row.student_id user.id s ≡ true
      → Decided user d s requested_by_student next
  teacher_answers :
      (next : EnrollmentState)
      → is_teacher_answer (some next) ≡ true
      → has_role user "teacher" ≡ true
      → (user.id == d.event_created_by) ≡ true
      → Decided user d s approved_by_parent next
