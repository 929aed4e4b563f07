-- ===== src/Event/Notices.antt =====
-- Which notifications the workflow of app/domains/tenant/service.py sends: the loops against plain
-- lists of rows.
use mathlib.Core.List
use mathlib.Core.List.{append_assoc, append-nil}
use sams_backend.Base.{
  arith, some, Action, gets, ⊤, ◌>>=◌, ◌>>◌, ℕ, String, Option, where_rows, Option-cases, inl, inr,
  List, [], ◌∷◌, ◌++◌, ◌≡◌, refl, sym, ap, ◌∙◌,
}
use sams_backend.Tenant.{
  NotificationRow, Notice, proposal_submitted, proposal_approved, trip_published,
  child_trip_published, event_published, child_event_published, event_rejected, Event, StudentRow,
  LinkRow, UserRow, Store, create_notification, notice_row, sent, Status, approved,
}
use sams_backend.Event.Delivery.{
  send_row, send_rows, send_rows_then, send_rows-append, bind_assoc, send_row_then, and_then-pure,
}
use sams_backend.Event.Workflow.{
  WorkflowAction, submit_for_approval, propose, submit_to_manager, submit_to_event_teacher,
  manager_approve, approve, manager_reject, reject, teacher_publish, publish, submit,
  manager_publish, other, students_in, is_in_classes, class_ids_of, managers_of, fan_out,
  fan_out_to, tell_managers, publish_notices, effect_notices, transitions, notify_users,
  notify_parents, notify_students, parents_of,
}

abbrev pub user_notices : ℕ → Notice → List UserRow → List NotificationRow
user_notices event_id text us = List.map (λ (u : UserRow). notice_row event_id text u.id) us

abbrev pub parent_notices : ℕ → Notice → List LinkRow → List NotificationRow
parent_notices event_id text ls =
    List.map (λ (l : LinkRow). notice_row event_id text l.parent_id) ls

-- One row for each student, followed by one for each of the student's linked parents.
abbrev pub student_notices : ℕ → Notice → Notice → Store → List StudentRow → List NotificationRow
student_notices event_id to_student to_parent s [] = []
student_notices event_id to_student to_parent s (t ∷ ts) =
    notice_row event_id to_student t.id
    ∷ (parent_notices event_id to_parent (parents_of t.id s)
        ++ student_notices event_id to_student to_parent s ts)

notify_users_lem :
    (event_id : ℕ) (text : Notice) (us : List UserRow)
    → notify_users event_id text us ≡ send_rows (user_notices event_id text us)
unfolding notify_users create_notification send_rows
notify_users_lem event_id text [] = refl
notify_users_lem event_id text (u ∷ us) =
    ap (λ (rest : Action Store ⊤). send_row (notice_row event_id text u.id) >> rest)
      (notify_users_lem event_id text us)

notify_parents_lem :
    (event_id : ℕ) (text : Notice) (ls : List LinkRow)
    → notify_parents event_id text ls ≡ send_rows (parent_notices event_id text ls)
unfolding notify_parents create_notification send_rows
notify_parents_lem event_id text [] = refl
notify_parents_lem event_id text (l ∷ ls) =
    ap (λ (rest : Action Store ⊤). send_row (notice_row event_id text l.parent_id) >> rest)
      (notify_parents_lem event_id text ls)

-- Notifications do not change who the parents of a student are.
student_notices-sent :
    (event_id : ℕ) (a b : Notice) (s : Store) (rows : List NotificationRow) (ts : List StudentRow)
    → student_notices event_id a b (sent s rows) ts ≡ student_notices event_id a b s ts
unfolding parents_of
student_notices-sent event_id a b s rows [] = refl
student_notices-sent event_id a b s rows (t ∷ ts) = rw (student_notices-sent event_id a b s rows ts)

-- One student of the fan-out, where the others send their rows.
notify_one :
    (event_id : ℕ) (a b : Notice) (t : StudentRow) (s : Store) (others : Action Store ⊤)
    → (create_notification event_id t.id a
          >> ((gets (parents_of t.id) >>= notify_parents event_id b) >> others))
        s
      ≡ (send_rows (notice_row event_id a t.id ∷ parent_notices event_id b (parents_of t.id s))
            >> others)
          s
unfolding create_notification send_rows parents_of
notify_one event_id a b t s others =
    let n = notice_row event_id a t.id in
    let ps = parent_notices event_id b (parents_of t.id s) in
    send_row_then n ((gets (parents_of t.id) >>= notify_parents event_id b) >> others)
      (send_rows ps >> others) s
      (ap (λ (m : Action Store ⊤). (m >> others) (sent s (n ∷ [])))
        (notify_parents_lem event_id b (parents_of t.id s)))
    ∙ sym (bind_assoc (send_row n s) (send_rows ps) others)

notify_students_lem :
    (event_id : ℕ) (a b : Notice) (ts : List StudentRow) (s : Store)
    → notify_students event_id a b ts s ≡ send_rows (student_notices event_id a b s ts) s
unfolding notify_students send_rows
notify_students_lem event_id a b [] s = refl
notify_students_lem event_id a b (t ∷ ts) s =
    let parents = parent_notices event_id b (parents_of t.id s) in
    let own = notice_row event_id a t.id ∷ parents in
    let rest = student_notices event_id a b s ts in
    notify_one event_id a b t s (notify_students event_id a b ts)
    ∙ send_rows_then own (notify_students event_id a b ts) (send_rows rest) s (
        notify_students_lem event_id a b ts (sent s own)
        ∙ ap (λ rows. send_rows rows (sent s own)) (student_notices-sent event_id a b s own ts))
    ∙ sym (send_rows-append own rest s)

-- The students of the event's classes, and their linked parents.
abbrev pub fan_out_rows : ℕ → Notice → Notice → Event → Store → List NotificationRow
fan_out_rows event_id to_student to_parent event s =
    student_notices event_id to_student to_parent s (students_in (class_ids_of event) s)

-- What a step sends: the managers hear of a submission, the creator of a decision, the students of
-- the mapped classes and their parents of a publication.
abbrev pub action_notices :
    ℕ → WorkflowAction → Event → Option String → Store → List NotificationRow
action_notices id submit_for_approval e reason s =
    user_notices id (proposal_submitted e.row.title) (managers_of s)
action_notices id propose e reason s =
    user_notices id (proposal_submitted e.row.title) (managers_of s)
action_notices id submit_to_manager e reason s =
    user_notices id (proposal_submitted e.row.title) (managers_of s)
action_notices id submit_to_event_teacher e reason s =
    user_notices id (proposal_submitted e.row.title) (managers_of s)
action_notices id manager_approve e reason s =
    notice_row id (proposal_approved e.row.title) e.row.created_by ∷ []
action_notices id approve e reason s =
    notice_row id (proposal_approved e.row.title) e.row.created_by ∷ []
action_notices id manager_reject e reason s =
    notice_row id (event_rejected e.row.title reason) e.row.created_by ∷ []
action_notices id reject e reason s =
    notice_row id (event_rejected e.row.title reason) e.row.created_by ∷ []
action_notices id teacher_publish e reason s =
    fan_out_rows id (trip_published e.row.title) (child_trip_published e.row.title) e s
action_notices id publish e reason s =
    fan_out_rows id (trip_published e.row.title) (child_trip_published e.row.title) e s
action_notices id manager_publish e reason s =
    fan_out_rows id (event_published e.row.title) (child_event_published e.row.title) e s
action_notices id submit e reason s = []
action_notices id (other a) e reason s = []

-- Without a class there is nobody to notify.
no_students : (ts : List StudentRow) → where_rows (is_in_classes []) ts ≡ []
no_students [] = refl
no_students (t ∷ ts) = elim (Option-cases t.class_id) [
  | inl out ↦ rw out (no_students ts)
  | inr (c, placed) ↦ rw placed (no_students ts)
]

fan_out_to_lem :
    (event_id : ℕ) (a b : Notice) (class_ids : List ℕ) (s : Store)
    → fan_out_to event_id a b class_ids s
      ≡ send_rows (student_notices event_id a b s (students_in class_ids s)) s
unfolding students_in send_rows
fan_out_to_lem event_id a b [] s =
    ap (λ ts. send_rows (student_notices event_id a b s ts) s) (sym (no_students s.students))
fan_out_to_lem event_id a b (c ∷ cs) s = notify_students_lem event_id a b (students_in (c ∷ cs) s) s

fan_out_lem :
    (event_id : ℕ) (a b : Notice) (event : Event) (s : Store)
    → fan_out event_id a b event s ≡ send_rows (fan_out_rows event_id a b event s) s
fan_out_lem event_id a b event s = fan_out_to_lem event_id a b (class_ids_of event) s

tell_managers_lem :
    (id : ℕ) (event : Event) (s : Store)
    → tell_managers id event s
      ≡ send_rows (user_notices id (proposal_submitted event.row.title) (managers_of s)) s
tell_managers_lem id event s =
    ap (λ (m : Action Store ⊤). m s)
      (notify_users_lem id (proposal_submitted event.row.title) (managers_of s))

-- One row, sent by a chain of its own.
create_notification_lem :
    (id recipient : ℕ) (text : Notice) (s : Store)
    → create_notification id recipient text s ≡ send_rows (notice_row id text recipient ∷ []) s
unfolding create_notification send_rows
create_notification_lem id recipient text s =
    and_then-pure (send_row (notice_row id text recipient) s)

publish_notices_lem :
    (id : ℕ) (event : Event) (s : Store)
    → event.row.status ≡ approved
    → publish_notices id event s
      ≡ send_rows
          (fan_out_rows id
            (trip_published event.row.title)
            (child_trip_published event.row.title)
            event
            s)
          s
unfolding publish_notices
publish_notices_lem id event s h =
    rw h (
      fan_out_lem id (trip_published event.row.title) (child_trip_published event.row.title) event
        s)

teacher_publish_status :
    (st : Status) {entry : Status × String}
    → transitions st teacher_publish ≡ some entry
    → st ≡ approved
unfolding transitions
teacher_publish_status st h = ground arith

publish_status :
    (st : Status) {entry : Status × String} → transitions st publish ≡ some entry → st ≡ approved
unfolding transitions
publish_status st h = ground arith

-- The branches of the handler send the rows of the action, one after another.
pub effect_notices_lem :
    (id : ℕ) (action : WorkflowAction) (event : Event) (reason : Option String) (s : Store)
    {entry : Status × String}
    → transitions event.row.status action ≡ some entry
    → effect_notices id action event reason s
      ≡ send_rows (action_notices id action event reason s) s
unfolding effect_notices send_rows
effect_notices_lem id submit_for_approval e reason s h = tell_managers_lem id e s
effect_notices_lem id propose e reason s h = tell_managers_lem id e s
effect_notices_lem id submit_to_manager e reason s h = tell_managers_lem id e s
effect_notices_lem id submit_to_event_teacher e reason s h = tell_managers_lem id e s
effect_notices_lem id manager_approve e reason s h =
    create_notification_lem id e.row.created_by (proposal_approved e.row.title) s
effect_notices_lem id approve e reason s h =
    create_notification_lem id e.row.created_by (proposal_approved e.row.title) s
effect_notices_lem id manager_reject e reason s h =
    create_notification_lem id e.row.created_by (event_rejected e.row.title reason) s
effect_notices_lem id reject e reason s h =
    create_notification_lem id e.row.created_by (event_rejected e.row.title reason) s
effect_notices_lem id teacher_publish e reason s h =
    publish_notices_lem id e s (teacher_publish_status e.row.status h)
effect_notices_lem id publish e reason s h =
    publish_notices_lem id e s (publish_status e.row.status h)
effect_notices_lem id submit e reason s h = refl
effect_notices_lem id manager_publish e reason s h =
    fan_out_lem id (event_published e.row.title) (child_event_published e.row.title) e s
effect_notices_lem id (other a) e reason s h = refl
