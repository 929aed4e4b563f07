-- ===== src/Event/Guards.antt =====
-- When `transition_event` of app/domains/tenant/service.py goes through, and what it leaves behind when
-- it does not.
use sams_backend.Base.{
  ℕ, String, List, ◌++◌, Option, some, true, ◌||◌, ◌==◌, nat_eq, string_eq, intersects, Bool-cases,
  Option-cases, Action, gets, ok, err, Error, and_then, Refused, ◌>>◌, value_error,
  permission_error, ◌≡◌, ◌⊎◌, ap, ◌∙◌, inl, inr, arith,
}
use sams_backend.Authz.{CurrentUser}
use sams_backend.Tenant.{Status, Event, Store, NotificationRow, get_event_by_id, sent}
use sams_backend.Event.Permission.{user_roles}
use sams_backend.Event.Workflow.{
  WorkflowAction, transitions, is_guarded_submission, is_rejection, is_authorized, has_reason,
  submit_override, has_mappings, check_preconditions, perform, transition_event,
}
use sams_backend.Event.Notices.{action_notices}
use sams_backend.Event.Steps.{made, Writable, perform_ok, perform-ends}

-- What the caller must bring for an action on an event, beside the role.
pub record Prepared (actor : CurrentUser) (event : Event) (action : WorkflowAction)
    (reason : Option String) : Type 0 where
  pub own_event :
      is_guarded_submission action ≡ true
      → (event.row.created_by == actor.id || intersects submit_override (user_roles actor)) ≡ true
  pub has_class : is_guarded_submission action ≡ true → has_mappings event ≡ true
  pub explained : is_rejection action ≡ true → has_reason reason ≡ true

-- The conditions under which the event `event_id` may make the step.
pub record Ready (s : Store) (event_id : ℕ) (action : WorkflowAction) (actor : CurrentUser)
    (reason : Option String) (event : Event) (next : Status) (required : String) : Type 0 where
  pub found : get_event_by_id event_id s ≡ some event
  pub listed : transitions event.row.status action ≡ some (next, required)
  pub authorized : is_authorized actor required action ≡ true
  pub prepared : Prepared actor event action reason
  pub writable : Writable s event_id action actor event reason

check_preconditions_ok :
    (actor : CurrentUser) (event : Event) (action : WorkflowAction) (reason : Option String)
    (s : Store)
    → Prepared actor event action reason
    → check_preconditions actor event action reason s ≡ (ok tt, s)
unfolding check_preconditions
check_preconditions_ok actor event action reason s h =
    elim (Bool-cases (is_guarded_submission action)) [
      | inl guarded ↦ rw guarded (rw (h.own_event guarded) (rw (h.has_class guarded)))
      | inr free ↦ elim (Bool-cases (is_rejection action)) [
        | inl rejection ↦ rw free (rw rejection (rw (h.explained rejection)))
        | inr plain ↦ rw free (rw plain)
      ]
    ]

not_both :
    (action : WorkflowAction) → is_guarded_submission action ≡ true → is_rejection action ≡ true → ⊥
not_both action g r = ground arith

check_preconditions_cases :
    (actor : CurrentUser) (event : Event) (action : WorkflowAction) (reason : Option String)
    (s : Store)
    → Prepared actor event action reason
      ⊎ ((e : Error) × (check_preconditions actor event action reason s ≡ (err e, s)))
unfolding check_preconditions
check_preconditions_cases actor event action reason s =
    elim (Bool-cases (is_guarded_submission action)) [
      | inl guarded ↦
          elim (Bool-cases
            (event.row.created_by == actor.id || intersects submit_override (user_roles actor))) [
              | inl own ↦ elim (Bool-cases (has_mappings event)) [
                | inl some_class ↦ inl (record {
                  own_event = λ _. own;
                  has_class = λ _. some_class;
                  explained = λ r. absurd (not_both action guarded r);
                })
                | inr no_class ↦ inr (
                  value_error "At least one class must be selected before submitting",
                  rw guarded (rw own (rw no_class)),
                )
              ]
              | inr foreign ↦ inr (
                permission_error "Only the event creator can submit it for approval",
                rw guarded (rw foreign),
              )
            ]
      | inr free ↦ elim (Bool-cases (is_rejection action)) [
        | inl rejection ↦ elim (Bool-cases (has_reason reason)) [
          | inl given ↦
              inl (record { own_event = λ g. cc; has_class = λ g. cc; explained = λ _. given })
          | inr silent ↦ inr (
            value_error "A non-empty reason is required for action '{action}'",
            rw free (rw rejection (rw silent)),
          )
        ]
        | inr plain ↦ inl (record { own_event = λ g. cc; has_class = λ g. cc; explained = λ r. cc })
      ]
    ]

-- The call, once its guards have been passed: the writes, and the event read back.
abbrev pub written :
    ℕ
    → ℕ
    → WorkflowAction
    → CurrentUser
    → Event
    → Option String
    → Status
    → Action Store (Option Event)
written now event_id action actor event reason next =
    perform now event_id action actor event reason next >> gets (get_event_by_id event_id)

guards_passed :
    (now event_id : ℕ) (action : WorkflowAction) (actor : CurrentUser) (reason : Option String)
    (s : Store) {event : Event} {next : Status} {required : String}
    → get_event_by_id event_id s ≡ some event
    → transitions event.row.status action ≡ some (next, required)
    → is_authorized actor required action ≡ true
    → Prepared actor event action reason
    → transition_event now event_id action actor reason s
      ≡ written now event_id action actor event reason next s
unfolding transition_event
guards_passed now event_id action actor reason s {event} found listed granted prepared =
    ground (arith, check_preconditions_ok actor event action reason s prepared)

-- A step whose conditions hold is made: the call returns the event as it is read back from the
-- store that the step leaves.
pub transition_event_ok :
    (now event_id : ℕ) (action : WorkflowAction) (actor : CurrentUser) (reason : Option String)
    (s : Store) {event : Event} {next : Status} {required : String}
    → Ready s event_id action actor reason event next required
    → let s' = made now event_id action actor event reason next s in
      transition_event now event_id action actor reason s ≡ (ok (get_event_by_id event_id s'), s')
transition_event_ok now event_id action actor reason s {event} {next} h =
    guards_passed now event_id action actor reason s h.found h.listed h.authorized h.prepared
    ∙ ap (and_then (λ _. gets (get_event_by_id event_id)))
        (perform_ok now event_id action actor event reason next s h.listed h.writable)

-- A call that has raised after the first few of the step's notifications, which stay stored.
abbrev pub Halted : ℕ → ℕ → WorkflowAction → CurrentUser → Option String → Store → Type 0
Halted now event_id action actor reason s =
    (e : Error) × (event : Event) × (done : List NotificationRow) × (rest : List NotificationRow)
    × (get_event_by_id event_id s ≡ some event)
    × (action_notices event_id action event reason s ≡ done ++ rest)
    × (transition_event now event_id action actor reason s ≡ (err e, sent s done))

-- Every call either makes a step whose conditions hold, or raises, and then it has stored some first
-- notifications of the step or nothing.
pub transition_event_cases :
    (now event_id : ℕ) (action : WorkflowAction) (actor : CurrentUser) (reason : Option String)
    (s : Store)
    → ((event : Event) × (next : Status) × (required : String) × Ready s event_id action actor
          reason event next required)
      ⊎ Refused (transition_event now event_id action actor reason) s
      ⊎ Halted now event_id action actor reason s
unfolding transition_event
transition_event_cases now event_id action actor reason s =
    elim (Option-cases (get_event_by_id event_id s)) [
      | inl lost ↦ inr (inl (value_error "Event not found", ground arith))
      | inr (event, found) ↦ elim (Option-cases (transitions event.row.status action)) [
        | inl unlisted ↦ inr (
            inl (
              value_error "Action '{action}' is not allowed in status '{current_status}'",
              ground arith,
            ))
        | inr ((next, required), listed) ↦ elim (Bool-cases (is_authorized actor required action)) [
          | inr denied ↦ inr (
              inl (
                permission_error
                    "Role '{actor.role}' is not authorized to perform action '{action}'",
                ground arith,
              ))
          | inl granted ↦ elim (check_preconditions_cases actor event action reason s) [
            | inr (e, refused) ↦ inr (inl (e, ground arith))
            | inl prepared ↦
                elim (perform-ends now event_id action actor event reason next s listed) [
                  | inl writable ↦ inl (
                    event,
                    next,
                    required,
                    record {
                      found = found;
                      listed = listed;
                      authorized = granted;
                      prepared = prepared;
                      writable = writable;
                    },
                  )
                  | inr (e, done, rest, split, out) ↦ inr (
                      inr (
                        e,
                        event,
                        done,
                        rest,
                        found,
                        split,
                        guards_passed now event_id action actor reason s found listed granted
                              prepared
                            ∙ ap (and_then (λ _. gets (get_event_by_id event_id))) out,
                      ))
                ]
          ]
        ]
      ]
    ]

-- A call that raises has either changed nothing, or stored the first few notifications of its action
-- and changed nothing else: no row of an event is written.
pub transition_event_failure :
    (now event_id : ℕ) (action : WorkflowAction) (actor : CurrentUser) (reason : Option String)
    (s : Store) {e : Error}
    → (transition_event now event_id action actor reason s).0 ≡ err e
    → let s' = (transition_event now event_id action actor reason s).1 in
      (s' ≡ s)
      ⊎ ((event : Event) × (done : List NotificationRow) × (rest : List NotificationRow)
          × (get_event_by_id event_id s ≡ some event)
          × (action_notices event_id action event reason s ≡ done ++ rest)
          × (s' ≡ sent s done))
transition_event_failure now event_id action actor reason s h =
    elim (transition_event_cases now event_id action actor reason s) [
      | inl (event, next, required, ready) ↦
          cc (transition_event_ok now event_id action actor reason s ready)
      | inr (inl (x, refused)) ↦ inl (ap (λ out. out.1) refused)
      | inr (inr (x, event, done, rest, found, split, out)) ↦
          inr (event, done, rest, found, split, ap (λ r. r.1) out)
    ]

-- A call that returns has met every condition: the event exists, the table lists the action in its
-- status, the actor is authorized, the preconditions hold, and the database takes the writes.
pub Ready-of_ok :
    (now event_id : ℕ) (action : WorkflowAction) (actor : CurrentUser) (reason : Option String)
    (s : Store) {result : Option Event}
    → (transition_event now event_id action actor reason s).0 ≡ ok result
    → (event : Event) × (next : Status) × (required : String) × Ready s event_id action actor reason
        event next required
Ready-of_ok now event_id action actor reason s h =
    elim (transition_event_cases now event_id action actor reason s) [
      | inl ready ↦ ready
      | inr (inl (x, refused)) ↦ cc
      | inr (inr (x, event, done, rest, found, split, out)) ↦ cc
    ]
