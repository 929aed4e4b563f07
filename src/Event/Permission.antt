-- ===== src/Event/Permission.antt =====
-- Who may do what with an event in which status: `TenantService.check_event_permission` of
-- app/domains/tenant/service.py and the rules of app/domains/events/service.py.
use sams_backend.Base.{
  ℕ, String, List, [], ◌∷◌, Option, none, some, Bool, true, false, not, ◌&&◌, ◌||◌, ◌==◌, string_eq,
  nat_eq, contains, intersects, any, if◌then◌else◌,
}
use sams_backend.Authz.{CurrentUser}
use sams_backend.Tenant.{
  Status, draft, proposed, approved, final_review, published, pricing_review, ready_to_publish,
  status_eq, ClassMapping, Event, EventRow,
}

-- The actions that `check_event_permission` is asked about; `other` is any other text.
pub data EventAction : Type 0 where
  read edit_draft manager_decision approve review publish teacher_publish : EventAction
  edit_resources : EventAction
  other : String → EventAction

-- `getattr(user, "roles", None) or [getattr(user, "role", "student")]`
abbrev pub user_roles : CurrentUser → List String
user_roles u = elim u.roles [ [] ↦ u.role ∷ [] | r ∷ rs ↦ r ∷ rs ]

abbrev pub admin_override : List String
admin_override = "super_admin" ∷ "school_admin" ∷ "admin" ∷ "*" ∷ []

abbrev pub admins : List String
admins = "school_admin" ∷ "super_admin" ∷ "admin" ∷ []

-- The statuses that a teacher may read.
abbrev pub teacher_statuses : List Status
teacher_statuses =
    published ∷ approved ∷ proposed ∷ pricing_review ∷ final_review ∷ ready_to_publish ∷ []

-- One round of the loop over the roles in the `read` branch.
unfoldable pub role_reads : Status → String → Bool
role_reads status role =
    contains role ("parent" ∷ "student" ∷ []) && status == published
    || contains role ("teacher" ∷ "event_teacher" ∷ []) && contains status teacher_statuses
    || role == "manager" && not (status == draft)
    || contains role admins

-- `parse_id(user.id) in mapped_teacher_ids`
unfoldable pub heads_a_mapped_class : ℕ → List ClassMapping → Bool
heads_a_mapped_class user_id [] = false
heads_a_mapped_class user_id (m ∷ ms) =
    elim m.head_teacher_id [ none ↦ false | some t ↦ t == user_id ]
    || heads_a_mapped_class user_id ms

-- One round of the loop over the roles in the `edit_draft` branch.
unfoldable pub role_edits_draft : Bool → String → Bool
role_edits_draft is_owner role =
    contains role ("teacher" ∷ "event_teacher" ∷ admins) && (is_owner || contains role admins)

unfoldable pub may_read : CurrentUser → Event → Bool → Bool
unfolding role_reads heads_a_mapped_class
may_read u event is_owner =
    let status = event.row.status in
    let roles = user_roles u in
    if status == draft
    then is_owner || heads_a_mapped_class u.id event.class_mappings
    else any (role_reads status) roles || contains "event:read" roles && not (status == draft)

unfoldable pub may_edit_draft : CurrentUser → Event → Bool → Bool
unfolding role_edits_draft
may_edit_draft u event is_owner =
    let roles = user_roles u in
    if event.row.status == draft
    then any (role_edits_draft is_owner) roles || contains "event:edit" roles && is_owner
    else false

unfoldable pub may_decide : CurrentUser → Event → Bool
may_decide u event =
    let roles = user_roles u in
    (contains "event:review" roles || any (λ r. contains r ("manager" ∷ admins)) roles)
    && event.row.status == proposed

unfoldable pub may_publish : CurrentUser → Event → Bool → Bool
may_publish u event is_owner =
    let roles = user_roles u in
    (contains "event:publish" roles
      || any (λ r. contains r ("teacher" ∷ "event_teacher" ∷ [])) roles && is_owner
      || any (λ r. contains r admins) roles)
    && contains event.row.status (approved ∷ ready_to_publish ∷ [])

-- The branches on the action, once the override has not applied.
unfoldable pub permit : EventAction → CurrentUser → Event → Bool → Bool
unfolding may_read may_edit_draft may_decide may_publish
permit read u event is_owner = may_read u event is_owner
permit edit_draft u event is_owner = may_edit_draft u event is_owner
permit manager_decision u event is_owner = may_decide u event
permit approve u event is_owner = may_decide u event
permit review u event is_owner = may_decide u event
permit publish u event is_owner = may_publish u event is_owner
permit teacher_publish u event is_owner = may_publish u event is_owner
permit edit_resources u event is_owner = false
permit (other a) u event is_owner = false

unfoldable pub check_event_permission : CurrentUser → Event → EventAction → Bool
unfolding permit
check_event_permission u event action =
    let roles = user_roles u in
    let is_owner = event.row.created_by == u.id in
    if any (λ r. contains r admin_override) roles then true else permit action u event is_owner

-- `EventService.is_editable`
abbrev pub edit_override_roles : List String
edit_override_roles = "school_admin" ∷ "manager" ∷ []

unfoldable pub is_editable : CurrentUser → Event → Bool
is_editable u event =
    check_event_permission u event edit_draft
    || check_event_permission u event edit_resources
    || intersects u.roles edit_override_roles

-- `EventService.mask_financials`
unfoldable pub mask_financials : EventRow → CurrentUser → Option ℕ × Option ℕ
mask_financials e u =
    if intersects u.roles edit_override_roles
    then (e.total_cost, some e.school_subsidy)
    else (none, none)

-- `EventService.resolve_subsidy`, on cents.
unfoldable pub resolve_subsidy : Option ℕ → CurrentUser → ℕ → ℕ
resolve_subsidy payload u existing = elim payload [
  | none ↦ existing
  | some p ↦ if intersects u.roles edit_override_roles then p else existing
]
