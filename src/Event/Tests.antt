-- ===== src/Event/Tests.antt =====
-- A small school with one trip, and the theorems on events at it.
use sams_backend.Base.{
  All, foreign_key_violation, ◌⊎◌, ℕ, String, ◌++◌, List, [], ◌∷◌, Option, none, some, true, false,
  ◌==◌, nat_eq, string_eq, is_some, ok, err, permission_error, Result, ◌≡◌, ◌≢◌, refl, sym, ap, ◌∙◌,
  some_inj, Bool-cases, ◌&&◌, inl, inr, arith,
}
use sams_backend.Authz.{CurrentUser}
use sams_backend.Tenant.{
  Status, draft, proposed, approved, published, EventRow, Event, Store, enrolled, get_event_by_id,
  get_class_by_id, create_notification, NotificationRow, sent,
}
use sams_backend.Event.Permission.{
  read, edit_draft, approve as approve_event, check_event_permission, is_editable,
  heads_a_mapped_class,
}
use sams_backend.Event.Workflow.{
  propose, submit_to_manager, manager_approve, teacher_publish, submit, transitions, is_authorized,
  check_preconditions, perform, effect_fields, effect_notices, update_event, submit_fields,
  publish_fields, publish_notices, persist, write_fields, predicted_attendance, notify_users,
  notify_students, students_in, parents_of, managers_of, transition_event,
}
use sams_backend.Event.Guards.{Ready, transition_event_ok, transition_event_failure}
use sams_backend.Event.Notices.{action_notices}
use sams_backend.Event.Steps.{event_row, made}
use sams_backend.Event.Delivery.{Accepted}
use sams_backend.Event.Lifecycle.{
  ◌⟶◌, publication, IsStamped, AllStamped, Request, serve_all, transition_event_edge,
  published_was_reviewed,
}
use sams_backend.Event.Publication.{
  transition_event_notices, submit_publishes_silently, submit_to_manager_skips_the_owner,
}
use sams_backend.Event.Rights.{
  with_status, read_survives_progress, draft_is_private, is_editable_only_own_draft, approve_agrees,
}

abbrev user : ℕ → String → CurrentUser
user id role = record { id = id; tenant_id = some "tenant_a"; role = role; roles = role ∷ [] }

abbrev teacher : CurrentUser
teacher = user 2 "teacher"

abbrev colleague : CurrentUser
colleague = user 3 "teacher"

abbrev pub manager : CurrentUser
manager = user 4 "manager"

abbrev trip_row : Status → EventRow
trip_row status = record {
  id = 10;
  title = "Museum";
  created_by = 2;
  school_subsidy = 0;
  status = status;
  predicted_attendance = none;
  manager_reviewer_id = none;
  finance_reviewer_id = none;
  total_cost = none;
  submitted_at = none;
  manager_approved_at = none;
  finance_priced_at = none;
  published_at = none;
  rejection_reason = none;
}

abbrev pub school : Status → Store
school status = record {
  events = trip_row status ∷ [];
  class_maps = record { id = 50; event_id = 10; class_id = 20; ticket_price = 500 } ∷ [];
  classes =
      record {
        id = 20;
        name = "Grade 1 - A";
        level_id = 30;
        head_teacher_id = some 2;
        capacity = 25;
        is_active = true;
        academic_year_id = 1;
        section_label = some "A";
      }
      ∷ [];
  levels = record { level_id = 30; name = "Grade 1"; ordinal = some 1 } ∷ [];
  students =
      record { id = 40; name = "Lina"; class_id = some 20; status = enrolled; exited_on = none }
      ∷ [];
  links = record { student_id = 40; parent_id = 60; can_approve = true } ∷ [];
  users =
      record { id = 2; role = "teacher" }
      ∷ record { id = 4; role = "manager" }
      ∷ record { id = 40; role = "student" }
      ∷ record { id = 60; role = "parent" }
      ∷ [];
  enrollments = [];
  payments = [];
  notifications = [];
  years = [];
  rollovers = [];
  rollover_lines = [];
  class_history = [];
  resource_types = [];
  resources = [];
  resource_costs = [];
  next_id = 100;
}

abbrev trip : Status → Event
trip status = record {
  row = trip_row status;
  class_mappings =
      record { id = 50; class_id = 20; ticket_price = 500; head_teacher_id = none } ∷ [];
}

found_trip : (st : Status) → get_event_by_id 10 (school st) ≡ some (trip st)
unfolding get_event_by_id get_class_by_id
found_trip st = refl

managers-Accepted :
    All (Accepted (school draft)) (action_notices 10 propose (trip draft) none (school draft))
unfolding managers_of
managers-Accepted = ((refl, (refl, (refl, tt))), tt)

families-Accepted :
    All
      (Accepted (school approved))
      (action_notices 10 teacher_publish (trip approved) none (school approved))
unfolding students_in parents_of
families-Accepted = ((refl, (refl, (refl, tt))), ((refl, (refl, (refl, tt))), tt))

propose-Ready : Ready (school draft) 10 propose teacher none (trip draft) proposed "teacher"
unfolding transitions is_authorized
propose-Ready = record {
  found = found_trip draft;
  listed = refl;
  authorized = refl;
  prepared = record { own_event = λ g. refl; has_class = λ g. refl; explained = λ g. cc };
  writable = record { delivered = managers-Accepted; reviewable = refl };
}

submit-Ready : Ready (school approved) 10 submit teacher none (trip approved) published "teacher"
unfolding transitions is_authorized
submit-Ready = record {
  found = found_trip approved;
  listed = refl;
  authorized = refl;
  prepared = record { own_event = λ g. cc; has_class = λ g. cc; explained = λ g. cc };
  writable = record { delivered = tt; reviewable = refl };
}

teacher_publish-Ready :
    Ready (school approved) 10 teacher_publish teacher none (trip approved) published "teacher"
unfolding transitions is_authorized
teacher_publish-Ready = record {
  found = found_trip approved;
  listed = refl;
  authorized = refl;
  prepared = record { own_event = λ g. cc; has_class = λ g. cc; explained = λ g. cc };
  writable = record { delivered = families-Accepted; reviewable = refl };
}

proposes :
    let s' = made 1 10 propose teacher (trip draft) none proposed (school draft) in
    transition_event 1 10 propose teacher none (school draft) ≡ (ok (get_event_by_id 10 s'), s')
proposes = transition_event_ok 1 10 propose teacher none (school draft) propose-Ready

transition_event_edge_example :
    let s' = (transition_event 1 10 propose teacher none (school draft)).1 in
    (e : EventRow) × (e' : EventRow) × (event_row 10 (school draft) ≡ some e)
    × (event_row 10 s' ≡ some e')
    × (e.status ⟶ e'.status)
    × ((j : ℕ) → ◌≢◌ {A = ℕ} 10 j → event_row j s' ≡ event_row j (school draft))
transition_event_edge_example =
    transition_event_edge 1 10 propose teacher none (school draft)
      {result = get_event_by_id 10
        (made 1 10 propose teacher (trip draft) none proposed (school draft))}
      (ap (λ (r : Result (Option Event) × Store). r.0) proposes)

draft-IsStamped : IsStamped (trip_row draft)
draft-IsStamped = ground arith

draft_school-AllStamped : AllStamped (school draft)
draft_school-AllStamped j e found = elim (Bool-cases (◌==◌ {K = ℕ} 10 j)) [
  | inl hit ↦ rw (some_inj e (trip_row draft) (sym found ∙ rw hit)) draft-IsStamped
  | inr miss ↦ cc (rw miss at found)
]

-- The teacher proposes, the manager approves, the teacher publishes.
abbrev season : List Request
season =
    record { now = 1; event_id = 10; action = propose; actor = teacher; reason = none }
    ∷ record { now = 2; event_id = 10; action = manager_approve; actor = manager; reason = none }
    ∷ record { now = 3; event_id = 10; action = teacher_publish; actor = teacher; reason = none }
    ∷ []

abbrev published_trip : EventRow
published_trip = record (trip_row published) {
  predicted_attendance = some 1;
  manager_reviewer_id = some 4;
  submitted_at = some 1;
  manager_approved_at = some 2;
  published_at = some 3;
}

season_publishes : event_row 10 (serve_all season (school draft)) ≡ some published_trip
unfolding serve_all transition_event transitions is_authorized check_preconditions get_event_by_id
    get_class_by_id perform effect_fields effect_notices update_event submit_fields publish_fields
    publish_notices persist write_fields predicted_attendance notify_users notify_students
    create_notification students_in parents_of managers_of
season_publishes = refl

published_was_reviewed_example :
    (is_some published_trip.submitted_at ≡ true)
    × (is_some published_trip.manager_approved_at ≡ true)
    × (is_some published_trip.manager_reviewer_id ≡ true)
published_was_reviewed_example =
    published_was_reviewed season (school draft) 10 published_trip draft_school-AllStamped
      season_publishes refl

transition_event_notices_example :
    (transition_event 3 10 teacher_publish teacher none (school approved)).1.notifications
    ≡ (school approved).notifications
      ++ action_notices 10 teacher_publish (trip approved) none (school approved)
transition_event_notices_example =
    transition_event_notices 3 10 teacher_publish teacher none (school approved)
      teacher_publish-Ready

submit_publishes_silently_example :
    let s' = (transition_event 3 10 submit teacher none (school approved)).1 in
    (e : EventRow) × (event_row 10 s' ≡ some e)
    × (e.status ≡ published)
    × (e.published_at ≡ (trip_row approved).published_at)
    × (s'.notifications ≡ (school approved).notifications)
submit_publishes_silently_example =
    submit_publishes_silently 3 10 teacher none (school approved) submit-Ready

submit_to_manager_skips_the_owner_example :
    (transition_event 1 10 propose colleague none (school draft)
      ≡ (err (permission_error "Only the event creator can submit it for approval"), school draft))
    × (let s' = made 1 10 submit_to_manager colleague (trip draft) none proposed (school draft) in
        transition_event 1 10 submit_to_manager colleague none (school draft)
        ≡ (ok (get_event_by_id 10 s'), s'))
unfolding is_authorized
submit_to_manager_skips_the_owner_example =
    submit_to_manager_skips_the_owner 1 10 colleague none (school draft) (trip draft)
      (found_trip draft) refl refl refl refl managers-Accepted

-- A manager whom the school's table of users does not know: the creator is told of the approval, and
-- the row is refused.
abbrev stranger : CurrentUser
stranger = user 9 "manager"

stranger_refused :
    (transition_event 2 10 manager_approve stranger none (school proposed)).0
    ≡ err (foreign_key_violation "event.manager_reviewer_id")
unfolding transition_event transitions is_authorized check_preconditions get_event_by_id
    get_class_by_id perform effect_fields effect_notices update_event persist write_fields
    create_notification
stranger_refused = refl

transition_event_failure_example :
    let s' = (transition_event 2 10 manager_approve stranger none (school proposed)).1 in
    (s' ≡ school proposed)
    ⊎ ((event : Event) × (done : List NotificationRow) × (rest : List NotificationRow)
        × (get_event_by_id 10 (school proposed) ≡ some event)
        × (action_notices 10 manager_approve event none (school proposed) ≡ done ++ rest)
        × (s' ≡ sent (school proposed) done))
transition_event_failure_example =
    transition_event_failure 2 10 manager_approve stranger none (school proposed) stranger_refused

read_survives_progress_example :
    check_event_permission colleague (with_status published (trip approved)) read ≡ true
unfolding check_event_permission
read_survives_progress_example =
    read_survives_progress colleague (trip approved) publication (λ e. cc) (λ e. cc) refl

draft_is_private_example : check_event_permission colleague (trip draft) edit_draft ≡ false
unfolding heads_a_mapped_class
draft_is_private_example = draft_is_private colleague (trip draft) edit_draft refl refl refl refl

is_editable_only_own_draft_example :
    ((trip draft).row.status ≡ draft) × (((trip draft).row.created_by == teacher.id) ≡ true)
unfolding is_editable check_event_permission
is_editable_only_own_draft_example = is_editable_only_own_draft teacher (trip draft) refl refl refl

approve_agrees_example : check_event_permission manager (trip proposed) approve_event ≡ (
    is_some (transitions (trip proposed).row.status manager_approve)
    && is_authorized manager "manager" manager_approve)
approve_agrees_example = approve_agrees manager (trip proposed) refl
