-- ===== src/Event/Workflow/Effects.antt =====
-- The side effects of `TenantService.transition_event` (app/domains/tenant/service.py): the fields to
-- write and the notifications.
use mathlib.Core.List
use sams_backend.Base.{
  Action, pure, gets, ◌>>=◌, ◌>>◌, ⊤, ℕ, String, ◌+◌, ◌*◌, ◌/◌, List, [], ◌∷◌, Option, none, some,
  Bool, false, ◌==◌, is_text, strip, string_eq, nat_eq, contains, if◌then◌else◌, where_rows, length,
}
use sams_backend.Authz.{CurrentUser}
use sams_backend.Tenant.{
  Status, approved, status_eq, StudentRow, LinkRow, UserRow, Notice, proposal_submitted,
  proposal_approved, trip_published, child_trip_published, event_published, child_event_published,
  event_rejected, Store, ClassMapping, Event, create_notification,
}
use sams_backend.Event.Workflow.Table.{
  WorkflowAction, submit_for_approval, propose, submit_to_manager, submit_to_event_teacher,
  manager_approve, approve, manager_reject, reject, teacher_publish, publish, submit,
  manager_publish, other,
}

-- `update_fields`; a field that stays `none` is not in the dictionary.
pub record UpdateFields : Type 0 where
  pub status : Status
  pub predicted_attendance : Option ℕ
  pub manager_reviewer_id : Option ℕ
  pub finance_reviewer_id : Option ℕ
  pub total_cost : Option ℕ
  pub submitted_at : Option ℕ
  pub manager_approved_at : Option ℕ
  pub finance_priced_at : Option ℕ
  pub published_at : Option ℕ
  pub rejection_reason : Option String

abbrev pub no_fields : Status → UpdateFields
no_fields next = record {
  status = next;
  predicted_attendance = none;
  manager_reviewer_id = none;
  finance_reviewer_id = none;
  total_cost = none;
  submitted_at = none;
  manager_approved_at = none;
  finance_priced_at = none;
  published_at = none;
  rejection_reason = none;
}

abbrev pub class_ids_of : Event → List ℕ
class_ids_of event = List.map (λ (m : ClassMapping). m.class_id) event.class_mappings

-- `class_id = ANY($1)`: a student without a class is in none of them.
abbrev pub is_in_classes : List ℕ → StudentRow → Bool
is_in_classes class_ids t = elim t.class_id [ none ↦ false | some c ↦ contains c class_ids ]

unfoldable pub students_in : List ℕ → Store → List StudentRow
students_in class_ids s = where_rows (is_in_classes class_ids) s.students

-- `get_predicted_attendance`: `int(round(0.8 * n))`. A multiple of 0.8 is never halfway between two
-- integers, so rounding is to the nearest one.
unfoldable pub predicted_attendance : List ℕ → Store → ℕ
unfolding students_in
predicted_attendance class_ids s = (4 * length (students_in class_ids s) + 2) / 5

unfoldable pub managers_of : Store → List UserRow
managers_of s = where_rows (λ (u : UserRow). u.role == "manager") s.users

unfoldable pub notify_users : ℕ → Notice → List UserRow → Action Store ⊤
notify_users event_id text [] = pure tt
notify_users event_id text (u ∷ us) =
    create_notification event_id u.id text >> notify_users event_id text us

unfoldable pub parents_of : ℕ → Store → List LinkRow
parents_of student_id s = where_rows (λ (l : LinkRow). l.student_id == student_id) s.links

unfoldable pub notify_parents : ℕ → Notice → List LinkRow → Action Store ⊤
notify_parents event_id text [] = pure tt
notify_parents event_id text (l ∷ ls) =
    create_notification event_id l.parent_id text >> notify_parents event_id text ls

-- The nested loops of the fan-out: each student, then the student's linked parents.
unfoldable pub notify_students : ℕ → Notice → Notice → List StudentRow → Action Store ⊤
unfolding notify_parents
notify_students event_id to_student to_parent [] = pure tt
notify_students event_id to_student to_parent (t ∷ ts) =
    create_notification event_id t.id to_student
    >> ((gets (parents_of t.id) >>= notify_parents event_id to_parent)
        >> notify_students event_id to_student to_parent ts)

abbrev pub stored_reason : Option String → String
stored_reason none = "No reason provided"
stored_reason (some r) = if is_text r then strip r else "No reason provided"

-- The fan-out runs over the students of the mapped classes, and not at all without a class.
abbrev pub fan_out_to : ℕ → Notice → Notice → List ℕ → Action Store ⊤
fan_out_to event_id to_student to_parent [] = pure tt
fan_out_to event_id to_student to_parent (c ∷ cs) =
    gets (students_in (c ∷ cs)) >>= notify_students event_id to_student to_parent

abbrev pub fan_out : ℕ → Notice → Notice → Event → Action Store ⊤
fan_out event_id to_student to_parent event =
    fan_out_to event_id to_student to_parent (class_ids_of event)

-- The fields that a submission writes.
unfoldable pub submit_fields : ℕ → Event → UpdateFields → Store → UpdateFields
submit_fields now event fields s =
    let class_ids = class_ids_of event in
    record fields {
      submitted_at = some now;
      rejection_reason = none;
      predicted_attendance = elim class_ids [
        | [] ↦ fields.predicted_attendance
        | c ∷ cs ↦ some (predicted_attendance (c ∷ cs) s)
      ];
    }

abbrev pub approve_fields : ℕ → CurrentUser → UpdateFields → UpdateFields
approve_fields now actor fields = record fields {
  manager_approved_at = some now;
  manager_reviewer_id = some actor.id;
  rejection_reason = none;
}

abbrev pub reject_fields : Option String → UpdateFields → UpdateFields
reject_fields reason fields = record fields { rejection_reason = some (stored_reason reason) }

unfoldable pub publish_fields : ℕ → Event → UpdateFields → UpdateFields
publish_fields now event fields =
    if event.row.status == approved then record fields { published_at = some now } else fields

-- `update_fields`, by the action; each is set before the notifications of its branch.
unfoldable pub effect_fields :
    ℕ → WorkflowAction → CurrentUser → Event → Option String → UpdateFields → Store → UpdateFields
unfolding submit_fields publish_fields
effect_fields now submit_for_approval actor event reason f s = submit_fields now event f s
effect_fields now propose actor event reason f s = submit_fields now event f s
effect_fields now submit_to_manager actor event reason f s = submit_fields now event f s
effect_fields now submit_to_event_teacher actor event reason f s = submit_fields now event f s
effect_fields now manager_approve actor event reason f s = approve_fields now actor f
effect_fields now approve actor event reason f s = approve_fields now actor f
effect_fields now manager_reject actor event reason f s = reject_fields reason f
effect_fields now reject actor event reason f s = reject_fields reason f
effect_fields now teacher_publish actor event reason f s = publish_fields now event f
effect_fields now publish actor event reason f s = publish_fields now event f
effect_fields now manager_publish actor event reason f s = record f { published_at = some now }
effect_fields now submit actor event reason f s = f
effect_fields now (other a) actor event reason f s = f

abbrev pub tell_managers : ℕ → Event → Action Store ⊤
tell_managers id event = gets managers_of >>= notify_users id (proposal_submitted event.row.title)

unfoldable pub publish_notices : ℕ → Event → Action Store ⊤
publish_notices id event =
    if event.row.status == approved
    then fan_out id (trip_published event.row.title) (child_trip_published event.row.title) event
    else pure tt

-- The notifications, by the action.
unfoldable pub effect_notices : ℕ → WorkflowAction → Event → Option String → Action Store ⊤
unfolding notify_users publish_notices notify_students
effect_notices id submit_for_approval event reason = tell_managers id event
effect_notices id propose event reason = tell_managers id event
effect_notices id submit_to_manager event reason = tell_managers id event
effect_notices id submit_to_event_teacher event reason = tell_managers id event
effect_notices id manager_approve event reason =
    create_notification id event.row.created_by (proposal_approved event.row.title)
effect_notices id approve event reason =
    create_notification id event.row.created_by (proposal_approved event.row.title)
effect_notices id manager_reject event reason =
    create_notification id event.row.created_by (event_rejected event.row.title reason)
effect_notices id reject event reason =
    create_notification id event.row.created_by (event_rejected event.row.title reason)
effect_notices id teacher_publish event reason = publish_notices id event
effect_notices id publish event reason = publish_notices id event
effect_notices id manager_publish event reason =
    fan_out id (event_published event.row.title) (child_event_published event.row.title) event
effect_notices id submit event reason = pure tt
effect_notices id (other a) event reason = pure tt
