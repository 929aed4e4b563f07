-- ===== src/Event/Workflow.antt =====
-- `TenantService.transition_event` of app/domains/tenant/service.py: the state machine of an event,
-- its guards, its notifications and the row that it writes.
mod Table
mod Effects
unfoldable pub use Table.*
unfoldable pub use Effects.*
use mathlib.Core.List
use sams_backend.Base.{
  checked, foreign_key_violation, ℕ, String, ◌+◌, ◌*◌, ◌/◌, List, [], ◌∷◌, ◌++◌, Option, none, some,
  Bool, true, false, ◌&&◌, ◌||◌, ◌==◌, is_text, strip, string_eq, nat_eq, contains, intersects,
  if◌then◌else◌, coalesce, where_rows, update_rows, length, Action, pure, gets, modify, or_raise,
  require_that, ◌>>=◌, ◌>>◌, ⊤, value_error, permission_error,
}
use sams_backend.Authz.{CurrentUser}
use sams_backend.Tenant.{
  is_user_or_null, Status, draft, proposed, approved, published, status_eq, EventRow, StudentRow,
  LinkRow, UserRow, Notice, proposal_submitted, proposal_approved, trip_published,
  child_trip_published, event_published, child_event_published, event_rejected, Store, ClassMapping,
  Event, get_event_by_id, create_notification,
}
use sams_backend.Event.Permission.{user_roles}

-- The `UPDATE event SET …` of one row: every column but the last keeps its value where no new one is
-- given.
unfoldable pub write_fields : UpdateFields → EventRow → EventRow
write_fields f e = record e {
  status = f.status;
  predicted_attendance = coalesce f.predicted_attendance e.predicted_attendance;
  manager_reviewer_id = coalesce f.manager_reviewer_id e.manager_reviewer_id;
  finance_reviewer_id = coalesce f.finance_reviewer_id e.finance_reviewer_id;
  total_cost = coalesce f.total_cost e.total_cost;
  submitted_at = coalesce f.submitted_at e.submitted_at;
  manager_approved_at = coalesce f.manager_approved_at e.manager_approved_at;
  finance_priced_at = coalesce f.finance_priced_at e.finance_priced_at;
  published_at = coalesce f.published_at e.published_at;
  rejection_reason = f.rejection_reason;
}

unfoldable pub persist : ℕ → UpdateFields → Store → Store
persist event_id f s = record s {
  events = update_rows (λ (e : EventRow). e.id == event_id) (write_fields f) s.events;
}

-- The update of the row; its only reference that is written is the reviewer.
unfoldable pub update_event : ℕ → UpdateFields → Action Store ⊤
unfolding persist
update_event event_id f s =
    checked
      ((is_user_or_null f.manager_reviewer_id s, foreign_key_violation "event.manager_reviewer_id")
        ∷ [])
      (pure tt) (persist event_id f) s

-- The part of the call behind its guards: each statement is committed at once.
unfoldable pub perform :
    ℕ → ℕ → WorkflowAction → CurrentUser → Event → Option String → Status → Action Store ⊤
unfolding update_event
perform now event_id action actor event reason next s =
    let fields = effect_fields now action actor event reason (no_fields next) s in
    (effect_notices event_id action event reason >> update_event event_id fields) s

unfoldable pub transition_event :
    ℕ → ℕ → WorkflowAction → CurrentUser → Option String → Action Store (Option Event)
transition_event now event_id action actor reason = do
  found ← gets (get_event_by_id event_id)
  event ← or_raise found (value_error "Event not found")
  entry ←
      or_raise (transitions event.row.status action)
        (value_error "Action '{action}' is not allowed in status '{current_status}'")
  require_that (is_authorized actor entry.1 action)
      (permission_error "Role '{actor.role}' is not authorized to perform action '{action}'")
  check_preconditions actor event action reason
  perform now event_id action actor event reason entry.0
  gets (get_event_by_id event_id)
