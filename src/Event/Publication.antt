-- ===== src/Event/Publication.antt =====
-- Publication in `transition_event` of app/domains/tenant/service.py: who is told, and the ways round
-- the rules that its comments state.
use mathlib.Core.List.{append-nil}
use sams_backend.Base.{
  All, ℕ, String, ◌++◌, Option, some, Bool, true, false, ◌==◌, nat_eq, string_eq, intersects,
  Result, ok, err, permission_error, ◌≡◌, refl, ap, arith,
}
use sams_backend.Authz.{CurrentUser}
use sams_backend.Tenant.{
  Status, draft, proposed, published, Event, EventRow, Store, get_event_by_id,
}
use sams_backend.Event.Permission.{user_roles}
use sams_backend.Event.Workflow.{
  WorkflowAction, propose, submit_to_manager, teacher_publish, publish, submit, manager_publish,
  transitions, is_authorized, submit_override, check_preconditions, effect_fields, write_fields,
  persist, transition_event,
}
use sams_backend.Event.Guards.{Ready, transition_event_ok}
use sams_backend.Event.Notices.{action_notices}
use sams_backend.Event.Steps.{made, event_row, event_row_of_found}
use sams_backend.Event.Delivery.{Accepted}
use sams_backend.Event.Lifecycle.{stepped, event_row-made}

-- A step whose conditions hold, the database taking its writes among them, sends exactly the
-- notifications of its action, after those already there: a submission tells each manager, a decision
-- the creator, and a publication every student of the mapped classes, each followed by the student's
-- linked parents.
pub transition_event_notices :
    (now id : ℕ) (action : WorkflowAction) (actor : CurrentUser) (reason : Option String)
    (s : Store) {event : Event} {next : Status} {required : String}
    → Ready s id action actor reason event next required
    → (transition_event now id action actor reason s).1.notifications
      ≡ s.notifications ++ action_notices id action event reason s
unfolding persist
transition_event_notices now id action actor reason s {event} {next} ready =
    ap (λ (r : Result (Option Event) × Store). r.1.notifications)
      (transition_event_ok now id action actor reason s ready)

-- The publications that the comment of the transition table speaks of.
abbrev is_announced : WorkflowAction → Bool
is_announced teacher_publish = true
is_announced publish = true
is_announced manager_publish = true
is_announced _ = false

published_at-stepped :
    (now id : ℕ) (action : WorkflowAction) (actor : CurrentUser) (event : Event)
    (reason : Option String) (next : Status) (s : Store) {entry : Status × String}
    → is_announced action ≡ true
    → transitions event.row.status action ≡ some entry
    → (stepped now id action actor event reason next s).published_at ≡ some now
unfolding effect_fields write_fields transitions
published_at-stepped now id teacher_publish actor event reason next s a h = ground arith
published_at-stepped now id other_action actor event reason next s a h = ground arith

-- Publishing by `teacher_publish`, `publish` or `manager_publish` stamps the time of publication.
pub announced_publication :
    (now id : ℕ) (action : WorkflowAction) (actor : CurrentUser) (reason : Option String)
    (s : Store) {event : Event} {next : Status} {required : String}
    → is_announced action ≡ true
    → Ready s id action actor reason event next required
    → (e : EventRow) × (event_row id (transition_event now id action actor reason s).1 ≡ some e)
      × (e.published_at ≡ some now)
announced_publication now id action actor reason s {event} {next} a ready = (
  stepped now id action actor event reason next s,
  rw (transition_event_ok now id action actor reason s ready) (
      event_row-made now id action actor event reason next s
        (event_row_of_found id s event ready.found)),
  published_at-stepped now id action actor event reason next s a ready.listed,
)

-- The action `submit` on an approved event publishes it silently: the event is published, but no one
-- is notified and `published_at` keeps its old value.
pub submit_publishes_silently :
    (now id : ℕ) (actor : CurrentUser) (reason : Option String) (s : Store) {event : Event}
    {next : Status} {required : String}
    → Ready s id submit actor reason event next required
    → let s' = (transition_event now id submit actor reason s).1 in
      (e : EventRow) × (event_row id s' ≡ some e)
      × (e.status ≡ published)
      × (e.published_at ≡ event.row.published_at)
      × (s'.notifications ≡ s.notifications)
unfolding transitions effect_fields write_fields persist
submit_publishes_silently now id actor reason s {event} {next} ready = (
  stepped now id submit actor event reason next s,
  rw (transition_event_ok now id submit actor reason s ready) (
      event_row-made now id submit actor event reason next s
        (event_row_of_found id s event ready.found)),
  ground (arith, ready.listed),
  refl,
  rw (transition_event_ok now id submit actor reason s ready) (append-nil s.notifications),
)

-- Submitting a draft that one has not created: `propose` is refused to everyone but an administrator,
-- while `submit_to_manager`, with the same table entry, goes through for any actor with the role,
-- whoever created the event and even if no class is mapped to it, where the database takes the
-- notices of the submission.
pub submit_to_manager_skips_the_owner :
    (now id : ℕ) (actor : CurrentUser) (reason : Option String) (s : Store) (event : Event)
    → get_event_by_id id s ≡ some event
    → event.row.status ≡ draft
    → is_authorized actor "teacher" submit_to_manager ≡ true
    → (event.row.created_by == actor.id) ≡ false
    → intersects submit_override (user_roles actor) ≡ false
    → All (Accepted s) (action_notices id submit_to_manager event reason s)
    → (transition_event now id propose actor reason s
        ≡ (err (permission_error "Only the event creator can submit it for approval"), s))
      × (let s' = made now id submit_to_manager actor event reason proposed s in
          transition_event now id submit_to_manager actor reason s
          ≡ (ok (get_event_by_id id s'), s'))
unfolding transition_event transitions is_authorized check_preconditions
submit_to_manager_skips_the_owner now id actor reason s event found status granted foreign plain
      taken =
    (
      rw found (rw status (rw granted (rw foreign (rw plain)))),
      transition_event_ok now id submit_to_manager actor reason s (record {
        found = found;
        listed = rw status;
        authorized = granted;
        prepared = record { own_event = λ g. cc; has_class = λ g. cc; explained = λ g. cc };
        writable = record { delivered = taken; reviewable = refl };
      }),
    )
