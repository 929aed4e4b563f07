-- ===== src/Event/Lifecycle.antt =====
-- The life of an event under any calls of `transition_event` (app/domains/tenant/service.py): the
-- edges of the workflow, and the stamps that each status carries.
use mathlib.Core.Option
use sams_backend.Base.{
  ℕ, String, List, [], ◌∷◌, Option, some, true, ◌==◌, nat_eq, is_some, some_inj, Bool-cases, ◌≡◌,
  ◌≢◌, refl, sym, ap, ◌∙◌, ◌⊎◌, inl, inr, arith, ok,
}
use sams_backend.Authz.{CurrentUser}
use sams_backend.Tenant.{Status, draft, proposed, approved, published, EventRow, Event, Store, sent}
use sams_backend.Event.Workflow.{
  WorkflowAction, submit_for_approval, teacher_publish, publish, transitions, no_fields,
  effect_fields, write_fields, transition_event,
}
use sams_backend.Event.Guards.{Ready, Ready-of_ok, transition_event_ok, transition_event_cases}
use sams_backend.Event.Notices.{action_notices}
use sams_backend.Event.Steps.{
  made, event_row, event_row-persist, event_row-persist_ne, event_row_of_found,
}

-- The workflow's diagram.
infix 40 ◌⟶◌
pub data ◌⟶◌ : Status → Status → Type 0 where
  submission : draft ⟶ proposed
  approval : proposed ⟶ approved
  rejection : proposed ⟶ draft
  publication : approved ⟶ published

ruleset edges = (submission, approval, rejection, publication)

transitions-⟶ :
    (a b : Status) (action : WorkflowAction) {r : String}
    → transitions a action ≡ some (b, r)
    → a ⟶ b
unfolding transitions
transitions-⟶ a b action h = grind (arith, edges)

-- The stamps that an event carries in each status.
pub record IsStamped (e : EventRow) : Type 0 where
  pub submitted :
      (e.status ≡ proposed) ⊎ (e.status ≡ approved) ⊎ (e.status ≡ published)
      → is_some e.submitted_at ≡ true
  pub reviewed :
      (e.status ≡ approved) ⊎ (e.status ≡ published) → is_some e.manager_approved_at ≡ true
  pub reviewer :
      (e.status ≡ approved) ⊎ (e.status ≡ published) → is_some e.manager_reviewer_id ≡ true

write_fields-IsStamped :
    (now id : ℕ) (action : WorkflowAction) (actor : CurrentUser) (event : Event)
    (reason : Option String) (s : Store) {next : Status} {r : String}
    → transitions event.row.status action ≡ some (next, r)
    → IsStamped event.row
    → IsStamped
        (write_fields (effect_fields now action actor event reason (no_fields next) s) event.row)
unfolding write_fields effect_fields transitions
write_fields-IsStamped now id submit_for_approval actor event reason s h k = ground arith
write_fields-IsStamped now id other_action actor event reason s h k = ground arith

-- The row of the event after a step.
abbrev pub stepped :
    ℕ → ℕ → WorkflowAction → CurrentUser → Event → Option String → Status → Store → EventRow
stepped now id action actor event reason next s =
    write_fields (effect_fields now action actor event reason (no_fields next) s) event.row

pub event_row-made :
    (now id : ℕ) (action : WorkflowAction) (actor : CurrentUser) (event : Event)
    (reason : Option String) (next : Status) (s : Store)
    → event_row id s ≡ some event.row
    → event_row id (made now id action actor event reason next s)
      ≡ some (stepped now id action actor event reason next s)
event_row-made now id action actor event reason next s k =
    let f = effect_fields now action actor event reason (no_fields next) s in
    event_row-persist id f (sent s (action_notices id action event reason s))
    ∙ ap (Option.map (write_fields f)) k

event_row-made_ne :
    (now id j : ℕ) (action : WorkflowAction) (actor : CurrentUser) (event : Event)
    (reason : Option String) (next : Status) (s : Store)
    → id ≢ j
    → event_row j (made now id action actor event reason next s) ≡ event_row j s
event_row-made_ne now id j action actor event reason next s ne =
    event_row-persist_ne id j (effect_fields now action actor event reason (no_fields next) s)
      (sent s (action_notices id action event reason s)) ne

status-stepped :
    (now id : ℕ) (action : WorkflowAction) (actor : CurrentUser) (event : Event)
    (reason : Option String) (next : Status) (s : Store)
    → (stepped now id action actor event reason next s).status ≡ next
unfolding effect_fields write_fields
status-stepped now id submit_for_approval actor event reason next s = refl
status-stepped now id teacher_publish actor event reason next s = ground arith
status-stepped now id publish actor event reason next s = ground arith
status-stepped now id other_action actor event reason next s = refl

-- A call that returns moves its event along one edge of the workflow, and leaves the rows of all
-- other events as they were.
pub transition_event_edge :
    (now id : ℕ) (action : WorkflowAction) (actor : CurrentUser) (reason : Option String)
    (s : Store) {result : Option Event}
    → (transition_event now id action actor reason s).0 ≡ ok result
    → let s' = (transition_event now id action actor reason s).1 in
      (e : EventRow) × (e' : EventRow) × (event_row id s ≡ some e)
      × (event_row id s' ≡ some e')
      × (e.status ⟶ e'.status)
      × ((j : ℕ) → id ≢ j → event_row j s' ≡ event_row j s)
transition_event_edge now id action actor reason s h =
    let (event, next, required, ready) = Ready-of_ok now id action actor reason s h in
    let before = event_row_of_found id s event ready.found in
    let done = transition_event_ok now id action actor reason s ready in
    (
      event.row,
      stepped now id action actor event reason next s,
      before,
      rw done (event_row-made now id action actor event reason next s before),
      rw (status-stepped now id action actor event reason next s)
          (transitions-⟶ event.row.status next action ready.listed),
      λ j ne. rw done (event_row-made_ne now id j action actor event reason next s ne),
    )

-- Every event that a query finds carries the stamps of its status.
abbrev pub AllStamped : Store → Type 0
AllStamped s = (j : ℕ) (e : EventRow) → event_row j s ≡ some e → IsStamped e

made-AllStamped :
    (now id : ℕ) (action : WorkflowAction) (actor : CurrentUser) (event : Event)
    (reason : Option String) (next : Status) (required : String) (s : Store)
    → Ready s id action actor reason event next required
    → AllStamped s
    → AllStamped (made now id action actor event reason next s)
made-AllStamped now id action actor event reason next required s ready h j e found =
    let before = event_row_of_found id s event ready.found in
    elim (Bool-cases (id == j)) [
      | inl same ↦
          let here : id ≡ j = ground arith in
          let s' = made now id action actor event reason next s in
          let at_id = ap (λ k. event_row k s') here ∙ found in
          let e-stepped =
            some_inj e (stepped now id action actor event reason next s)
              (sym at_id ∙ event_row-made now id action actor event reason next s before) in
          rw e-stepped (
            write_fields-IsStamped now id action actor event reason s ready.listed
              (h id event.row before))
      | inr apart ↦
          h j e (
            sym (event_row-made_ne now id j action actor event reason next s (ground arith))
            ∙ found)
    ]

-- One step, whoever makes it and however it ends, keeps the stamps.
pub transition_event-AllStamped :
    (now id : ℕ) (action : WorkflowAction) (actor : CurrentUser) (reason : Option String)
    (s : Store)
    → AllStamped s
    → AllStamped (transition_event now id action actor reason s).1
transition_event-AllStamped now id action actor reason s h =
    elim (transition_event_cases now id action actor reason s) [
      | inl (event, next, required, ready) ↦
          rw (transition_event_ok now id action actor reason s ready)
            (made-AllStamped now id action actor event reason next required s ready h)
      | inr (inl (x, refused)) ↦ rw refused h
      | inr (inr (x, event, done, rest, found, split, out)) ↦ rw out h
    ]

-- A request to the workflow, and a sequence of them: a call that raises is answered with an error,
-- and the next one is served.
pub record Request : Type 0 where
  pub now : ℕ
  pub event_id : ℕ
  pub action : WorkflowAction
  pub actor : CurrentUser
  pub reason : Option String

abbrev pub serve : Request → Store → Store
serve r s = (transition_event r.now r.event_id r.action r.actor r.reason s).1

unfoldable pub serve_all : List Request → Store → Store
serve_all [] s = s
serve_all (r ∷ rs) s = serve_all rs (serve r s)

serve_all-AllStamped : (rs : List Request) (s : Store) → AllStamped s → AllStamped (serve_all rs s)
unfolding serve_all
serve_all-AllStamped [] s h = h
serve_all-AllStamped (r ∷ rs) s h =
    serve_all-AllStamped rs (serve r s)
      (transition_event-AllStamped r.now r.event_id r.action r.actor r.reason s h)

-- No sequence of requests, by any actors, leaves an event published that a manager's approval has
-- not stamped: if the stamps were right at the start, a published event has been submitted, approved,
-- and names its reviewer.
pub published_was_reviewed :
    (rs : List Request) (s : Store) (j : ℕ) (e : EventRow)
    → AllStamped s
    → event_row j (serve_all rs s) ≡ some e
    → e.status ≡ published
    → (is_some e.submitted_at ≡ true)
      × (is_some e.manager_approved_at ≡ true)
      × (is_some e.manager_reviewer_id ≡ true)
published_was_reviewed rs s j e h found p =
    let stamped = serve_all-AllStamped rs s h j e found in
    (stamped.submitted (inr (inr p)), stamped.reviewed (inr p), stamped.reviewer (inr p))
