-- ===== src/Event/Workflow/Table.antt =====
-- The transition table of `TenantService.transition_event` (app/domains/tenant/service.py), and who
-- may take which action when.
use sams_backend.Base.{
  String, List, [], ◌∷◌, ◌++◌, Option, none, some, Bool, true, false, ◌&&◌, ◌||◌, ◌==◌, is_text,
  strip, string_eq, nat_eq, intersects, if◌then◌else◌, Action, pure, require_that, ◌>>◌, ⊤,
  value_error, permission_error,
}
use sams_backend.Authz.{CurrentUser}
use sams_backend.Tenant.{Status, draft, proposed, approved, published, status_eq, Store, Event}
use sams_backend.Event.Permission.{user_roles}

-- The actions of the transition table; `other` is any other text.
pub data WorkflowAction : Type 0 where
  submit_for_approval propose submit_to_manager submit_to_event_teacher : WorkflowAction
  manager_approve approve manager_reject reject : WorkflowAction
  teacher_publish publish submit manager_publish : WorkflowAction
  other : String → WorkflowAction

-- `TRANSITIONS`
unfoldable pub transitions : Status → WorkflowAction → Option (Status × String)
transitions draft submit_for_approval = some (proposed, "teacher")
transitions draft propose = some (proposed, "teacher")
transitions draft submit_to_manager = some (proposed, "teacher")
transitions draft submit_to_event_teacher = some (proposed, "teacher")
transitions proposed manager_approve = some (approved, "manager")
transitions proposed approve = some (approved, "manager")
transitions proposed manager_reject = some (draft, "manager")
transitions proposed reject = some (draft, "manager")
transitions approved teacher_publish = some (published, "teacher")
transitions approved publish = some (published, "teacher")
transitions approved submit = some (published, "teacher")
transitions approved manager_publish = some (published, "manager")
transitions _ _ = none

-- The three kinds of action that the guards and the side effects tell apart.
abbrev pub is_submission : WorkflowAction → Bool
is_submission submit_for_approval = true
is_submission propose = true
is_submission submit_to_manager = true
is_submission submit_to_event_teacher = true
is_submission _ = false

abbrev pub is_rejection : WorkflowAction → Bool
is_rejection manager_reject = true
is_rejection reject = true
is_rejection _ = false

-- The submissions whose preconditions are checked: `submit_to_manager` is not in the tuple.
abbrev pub is_guarded_submission : WorkflowAction → Bool
is_guarded_submission submit_for_approval = true
is_guarded_submission propose = true
is_guarded_submission submit_to_event_teacher = true
is_guarded_submission _ = false

-- `ACTION_PERMISSIONS`
abbrev pub action_permissions : WorkflowAction → List String
action_permissions submit_for_approval = "event:submit" ∷ "event:propose" ∷ []
action_permissions propose = "event:submit" ∷ "event:propose" ∷ []
action_permissions submit_to_manager = "event:submit" ∷ "event:propose" ∷ []
action_permissions submit_to_event_teacher = "event:submit" ∷ "event:propose" ∷ []
action_permissions manager_approve = "event:review" ∷ []
action_permissions approve = "event:review" ∷ []
action_permissions manager_reject = "event:review" ∷ []
action_permissions reject = "event:review" ∷ []
action_permissions teacher_publish = "event:publish" ∷ []
action_permissions publish = "event:publish" ∷ []
action_permissions submit = "event:publish" ∷ []
action_permissions manager_publish = "event:publish" ∷ []
action_permissions (other a) = []

-- The roles and permissions that authorize an action whose table entry names `required_role`.
abbrev pub allowed_roles : String → WorkflowAction → List String
allowed_roles required_role action =
    "school_admin"
      ∷ "super_admin"
      ∷ required_role
      ∷ (if required_role == "teacher" then "event_teacher" ∷ [] else [])
    ++ action_permissions action

-- `any(r in actor_roles for r in allowed)`
unfoldable pub is_authorized : CurrentUser → String → WorkflowAction → Bool
is_authorized actor required_role action =
    intersects (allowed_roles required_role action) (user_roles actor)

-- `not reason or not reason.strip()`, negated.
abbrev pub has_reason : Option String → Bool
has_reason none = false
has_reason (some r) = is_text r && is_text (strip r)

abbrev pub submit_override : List String
submit_override = "school_admin" ∷ "super_admin" ∷ []

abbrev pub has_mappings : Event → Bool
has_mappings event = elim event.class_mappings [ [] ↦ false | m ∷ ms ↦ true ]

-- "Verify preconditions": the repository has no `get_event_class_mappings`, so the mappings are
-- those of the event.
unfoldable pub check_preconditions :
    CurrentUser → Event → WorkflowAction → Option String → Action Store ⊤
check_preconditions actor event action reason =
    if is_guarded_submission action
    then require_that
        (event.row.created_by == actor.id || intersects submit_override (user_roles actor))
        (permission_error "Only the event creator can submit it for approval")
      >> require_that (has_mappings event)
          (value_error "At least one class must be selected before submitting")
    else if is_rejection action
    then require_that (has_reason reason)
        (value_error "A non-empty reason is required for action '{action}'")
    else pure tt
