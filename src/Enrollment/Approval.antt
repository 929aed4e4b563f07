-- ===== src/Enrollment/Approval.antt =====
-- The routes of app/domains/students/router.py that make and decide an enrollment.
use sams_backend.Base.{
  ℕ, Option, none, some, Bool, true, false, not, ◌&&◌, ◌==◌, nat_eq, string_eq, if◌then◌else◌,
  Action, pure, raise, gets, modify, or_raise, require_that, ◌>>=◌, ◌>>◌, ⊤, value_errors_to_http,
  http_error, type_error,
}
use sams_backend.Authz.{CurrentUser, has_role}
use sams_backend.Tenant.{
  Store, EnrollmentState, requested_by_student, approved_by_parent, approved_by_teacher,
  rejected_by_parent, rejected_by_teacher,
}
use sams_backend.Enrollment.Rows.{
  Details, get_enrollment_by_id, update_enrollment_state, is_student_linked_to_parent,
  can_parent_approve_for_student,
}
use sams_backend.Enrollment.Service.{enroll_student}

-- The state in which a request starts, with the teacher and the parent that it names.
pub record Start : Type 0 where
  pub state : EnrollmentState
  pub teacher_id : Option ℕ
  pub parent_id : Option ℕ

abbrev pub start : EnrollmentState → Option ℕ → Option ℕ → Start
start state teacher_id parent_id = record {
  state = state;
  teacher_id = teacher_id;
  parent_id = parent_id;
}

unfoldable pub start_of : CurrentUser → ℕ → Action Store Start
start_of user student_id s =
    if has_role user "parent"
    then if is_student_linked_to_parent student_id user.id s
      then if can_parent_approve_for_student student_id user.id s
        then pure (start approved_by_parent none (some user.id)) s
        else pure (start requested_by_student none none) s
      else if has_role user "teacher"
      then pure (start approved_by_teacher (some user.id) none) s
      else raise (http_error 403 "Parent is not linked to this student") s
    else if has_role user "teacher"
    then pure (start approved_by_teacher (some user.id) none) s
    else pure (start requested_by_student none none) s

-- The route `POST /enrollments`.
unfoldable pub request_enrollment : CurrentUser → ℕ → ℕ → Action Store Details
request_enrollment user student_id map_id = do
  begin ← start_of user student_id
  enrollment_id ←
      value_errors_to_http
        (enroll_student student_id map_id begin.state begin.teacher_id begin.parent_id)
  found ← gets (get_enrollment_by_id enrollment_id)
  or_raise found (type_error "argument after ** must be a mapping, not NoneType")

-- The state that a request asks for; `none` is a text that names none.
abbrev pub Asked : Type 0
Asked = Option EnrollmentState

abbrev pub is_parent_answer : Asked → Bool
is_parent_answer none = false
is_parent_answer (some requested_by_student) = false
is_parent_answer (some approved_by_parent) = true
is_parent_answer (some rejected_by_parent) = true
is_parent_answer (some approved_by_teacher) = false
is_parent_answer (some rejected_by_teacher) = false

abbrev pub is_teacher_answer : Asked → Bool
is_teacher_answer none = false
is_teacher_answer (some requested_by_student) = false
is_teacher_answer (some approved_by_parent) = false
is_teacher_answer (some rejected_by_parent) = false
is_teacher_answer (some approved_by_teacher) = true
is_teacher_answer (some rejected_by_teacher) = true

abbrev pub is_requested : EnrollmentState → Bool
is_requested requested_by_student = true
is_requested approved_by_parent = false
is_requested rejected_by_parent = false
is_requested approved_by_teacher = false
is_requested rejected_by_teacher = false

abbrev pub is_approved_by_parent : EnrollmentState → Bool
is_approved_by_parent requested_by_student = false
is_approved_by_parent approved_by_parent = true
is_approved_by_parent rejected_by_parent = false
is_approved_by_parent approved_by_teacher = false
is_approved_by_parent rejected_by_teacher = false

-- `is_parent_decision`
unfoldable pub is_parent_decision : CurrentUser → Details → Store → Bool
is_parent_decision user d s =
    has_role user "parent" && can_parent_approve_for_student d.row.student_id user.id s

unfoldable pub linked_but_not_authorized : CurrentUser → Details → Store → Bool
linked_but_not_authorized user d s =
    has_role user "parent"
    && not (can_parent_approve_for_student d.row.student_id user.id s)
    && is_student_linked_to_parent d.row.student_id user.id s

unfoldable pub check_parent_decision : Details → Asked → Action Store ⊤
check_parent_decision d asked = do
  require_that (is_requested d.row.state)
      (http_error 400 "Parent cannot approve/reject an enrollment in '{current_state}' state")
  require_that (is_parent_answer asked) (
      http_error 400
        "Parent can only transition enrollment to approved_by_parent or rejected_by_parent")

unfoldable pub check_teacher_decision : CurrentUser → Details → Asked → Action Store ⊤
check_teacher_decision user d asked = do
  require_that (user.id == d.event_created_by)
      (http_error 403 "Only the trip's creator may approve or reject its enrollments")
  require_that (not (is_requested d.row.state))
      (http_error 400 "Enrollment must be approved by a parent before teacher approval")
  require_that (is_approved_by_parent d.row.state)
      (http_error 400 "Teacher cannot approve/reject an enrollment in '{current_state}' state")
  require_that (is_teacher_answer asked) (
      http_error 400
        "Teacher can only transition enrollment to approved_by_teacher or rejected_by_teacher")

-- The branches of the route, and the teacher and the parent that the update names: `parent_id` is set
-- for every holder of the parent's role, also where the teacher's branch is taken.
unfoldable pub named_parent : CurrentUser → Option ℕ
named_parent user = if has_role user "parent" then some user.id else none

unfoldable pub decide : CurrentUser → Details → Asked → Action Store (Option ℕ)
decide user d asked s =
    if is_parent_decision user d s
    then (check_parent_decision d asked >> pure none) s
    else if has_role user "teacher"
    then (check_teacher_decision user d asked >> pure (some user.id)) s
    else if linked_but_not_authorized user d s
    then raise
        (http_error 403
          "This parent is linked to the student but is not authorized to approve or reject their enrollments")
        s
    else raise (http_error 403 "Unauthorized role for approval") s

-- The end of the route: the update, and the row read again. An asked state that names none has been
-- refused before.
unfoldable pub record_decision : CurrentUser → ℕ → Asked → Option ℕ → Action Store Details
record_decision user enrollment_id asked teacher_id = do
  state ← or_raise asked (http_error 400 "not a state")
  modify (update_enrollment_state enrollment_id state teacher_id (named_parent user))
  updated ← gets (get_enrollment_by_id enrollment_id)
  or_raise updated (type_error "argument after ** must be a mapping, not NoneType")

-- The route `POST /enrollments/{enrollment_id}/approve`.
unfoldable pub update_enrollment_approval : CurrentUser → ℕ → Asked → Action Store Details
update_enrollment_approval user enrollment_id asked = do
  found ← gets (get_enrollment_by_id enrollment_id)
  details ← or_raise found (http_error 404 "Enrollment not found")
  teacher_id ← decide user details asked
  record_decision user enrollment_id asked teacher_id
