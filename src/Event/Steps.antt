-- ===== src/Event/Steps.antt =====
-- What a step of `transition_event` of app/domains/tenant/service.py writes: its notifications, the
-- row of its event, and nothing else.
use mathlib.Core.Option
use mathlib.Core.List.{append-nil}
use sams_backend.Base.{
  ℕ, String, List, [], Option, none, some, Bool, true, false, ◌==◌, nat_eq, first_row,
  first_row-update_rows, first_row-update_rows_ne, Option-cases, Bool-cases, Action, ok, err,
  foreign_key_violation, and_then, All, ⊤, ◌≡◌, ◌≢◌, ◌⊎◌, refl, sym, ap, ◌∙◌, inl, inr, arith,
}
use sams_backend.Authz.{CurrentUser}
use sams_backend.Tenant.{
  Status, EventRow, Event, Store, NotificationRow, get_event_by_id, sent, is_user_or_null,
}
use sams_backend.Event.Workflow.{
  WorkflowAction, manager_approve, approve, teacher_publish, publish, transitions, UpdateFields,
  no_fields, effect_fields, write_fields, persist, update_event, perform,
}
use sams_backend.Event.Delivery.{send_rows, Accepted, Stopped, send_rows-Accepted, send_rows-ends}
use sams_backend.Event.Notices.{action_notices, effect_notices_lem}

-- The step as one store: new notifications, the event's row, nothing else.
abbrev pub made :
    ℕ → ℕ → WorkflowAction → CurrentUser → Event → Option String → Status → Store → Store
made now id action actor event reason next s =
    persist id (effect_fields now action actor event reason (no_fields next) s)
      (sent s (action_notices id action event reason s))

-- The reviewer that an action names.
abbrev pub reviewer : WorkflowAction → CurrentUser → Option ℕ
reviewer manager_approve actor = some actor.id
reviewer approve actor = some actor.id
reviewer _ actor = none

effect_fields-reviewer :
    (now : ℕ) (action : WorkflowAction) (actor : CurrentUser) (event : Event)
    (reason : Option String) (next : Status) (s : Store)
    → (effect_fields now action actor event reason (no_fields next) s).manager_reviewer_id
      ≡ reviewer action actor
unfolding effect_fields
effect_fields-reviewer now teacher_publish actor event reason next s = ground arith
effect_fields-reviewer now publish actor event reason next s = ground arith
effect_fields-reviewer now action actor event reason next s = refl

-- The database takes every write of the step.
pub record Writable (s : Store) (id : ℕ) (action : WorkflowAction) (actor : CurrentUser)
    (event : Event) (reason : Option String) : Type 0 where
  pub delivered : All (Accepted s) (action_notices id action event reason s)
  pub reviewable : is_user_or_null (reviewer action actor) s ≡ true

update_event_ok :
    (id : ℕ) (f : UpdateFields) (s : Store)
    → is_user_or_null f.manager_reviewer_id s ≡ true
    → update_event id f s ≡ (ok tt, persist id f s)
unfolding update_event
update_event_ok id f s h = rw h refl

update_event_refused :
    (id : ℕ) (f : UpdateFields) (s : Store)
    → is_user_or_null f.manager_reviewer_id s ≡ false
    → update_event id f s ≡ (err (foreign_key_violation "event.manager_reviewer_id"), s)
unfolding update_event
update_event_refused id f s h = rw h refl

is_user_or_null-sent :
    (u : Option ℕ) (s : Store) (rows : List NotificationRow)
    → is_user_or_null u (sent s rows) ≡ is_user_or_null u s
is_user_or_null-sent none s rows = refl
is_user_or_null-sent (some u) s rows = refl

module _ (now id : ℕ) (action : WorkflowAction) (actor : CurrentUser) (event : Event)
    (reason : Option String) (next : Status) (s : Store) {entry : Status × String}
    (listed : transitions event.row.status action ≡ some entry) where
  -- The row's update, after the notifications.
  abbrev update : Action Store ⊤
  update = update_event id (effect_fields now action actor event reason (no_fields next) s)

  perform-send_rows :
      perform now id action actor event reason next s
      ≡ and_then (λ _. update) (send_rows (action_notices id action event reason s) s)
  unfolding perform
  perform-send_rows =
      ap (and_then (λ _. update)) (effect_notices_lem id action event reason s listed)

  pub perform_ok :
      Writable s id action actor event reason
      → perform now id action actor event reason next s
        ≡ (ok tt, made now id action actor event reason next s)
  perform_ok h =
      let rows = action_notices id action event reason s in
      let f = effect_fields now action actor event reason (no_fields next) s in
      perform-send_rows
      ∙ ap (and_then (λ _. update)) (send_rows-Accepted rows s h.delivered)
      ∙ update_event_ok id f (sent s rows) (
          is_user_or_null-sent f.manager_reviewer_id s rows
          ∙ ap (λ u. is_user_or_null u s)
              (effect_fields-reviewer now action actor event reason next s)
          ∙ h.reviewable)

  -- A step that is not taken whole has stored the first of its notifications, and nothing else.
  pub perform-ends :
      Writable s id action actor event reason
      ⊎ Stopped
          (action_notices id action event reason s)
          s
          (perform now id action actor event reason next s)
  perform-ends =
      let rows = action_notices id action event reason s in
      let f = effect_fields now action actor event reason (no_fields next) s in
      elim (send_rows-ends rows s) [
        | inr (e, done, rest, split, out) ↦
            inr (e, done, rest, split, perform-send_rows ∙ ap (and_then (λ _. update)) out)
        | inl taken ↦ elim (Bool-cases (is_user_or_null (reviewer action actor) s)) [
          | inl known ↦ inl (record { delivered = taken; reviewable = known })
          | inr unknown ↦ inr (
            foreign_key_violation "event.manager_reviewer_id",
            rows,
            [],
            sym (append-nil rows),
            perform-send_rows
                ∙ ap (and_then (λ _. update)) (send_rows-Accepted rows s taken)
                ∙ update_event_refused id f (sent s rows) (
                    is_user_or_null-sent f.manager_reviewer_id s rows
                    ∙ ap (λ u. is_user_or_null u s)
                        (effect_fields-reviewer now action actor event reason next s)
                    ∙ unknown),
          )
        ]
      ]

abbrev pub has_id : ℕ → EventRow → Bool
has_id id e = e.id == id

-- The row that a query by key finds.
abbrev pub event_row : ℕ → Store → Option EventRow
event_row id s = first_row (has_id id) s.events

pub event_row-persist :
    (id : ℕ) (f : UpdateFields) (s : Store)
    → event_row id (persist id f s) ≡ Option.map (write_fields f) (event_row id s)
unfolding persist write_fields
event_row-persist id f s = first_row-update_rows (has_id id) (write_fields f) (λ e. refl) s.events

pub event_row-persist_ne :
    (id other_id : ℕ) (f : UpdateFields) (s : Store)
    → id ≢ other_id
    → event_row other_id (persist id f s) ≡ event_row other_id s
unfolding persist write_fields
event_row-persist_ne id other_id f s h =
    first_row-update_rows_ne (has_id id) (write_fields f) (has_id other_id) (λ e k. ground arith)
      (λ e k. ground arith) s.events

pub event_row_of_found :
    (id : ℕ) (s : Store) (event : Event)
    → get_event_by_id id s ≡ some event
    → event_row id s ≡ some event.row
unfolding get_event_by_id
event_row_of_found id s event h = elim (Option-cases (event_row id s)) [
  | inl lost ↦ ground arith
  | inr (e, found) ↦ ground arith
]
