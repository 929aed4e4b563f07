-- ===== src/Event/Resources/Calls.antt =====
-- The calls on the resources of an event: EventService (app/domains/events/service.py) and
-- TenantService (app/domains/tenant/service.py) with the endpoints of app/domains/events/router.py. The
-- body of `add_resources_to_event` stands in a transaction of one connection, while its statements run on
-- others of the pool: what was written before a raise stays written. The total of a cost is a product of
-- floats in the source: that of a price with at most four decimals rounds in its column to the exact product,
-- below the bound of the column; for a price with more of them the float may tip a tie the other way.
use sams_backend.Base.{
  ℕ, String, List, [], ◌∷◌, Option, none, some, Bool, false, not, ◌||◌, ◌==◌, nat_eq, string_eq,
  if◌then◌else◌, Action, pure, gets, or_raise, require_that, Error, value_error, permission_error,
  ◌>>=◌, ◌>>◌, ⊤,
}
use sams_backend.Authz.{CurrentUser}
use sams_backend.Tenant.{
  Store, Event, draft, resource_planning, published, status_eq, get_event_by_id,
}
use sams_backend.Tenant.Supplies.{ResourceRow, CostRow}
use sams_backend.Event.Permission.{is_editable}
use sams_backend.Event.Resources.Rows.{
  create_resource, get_resource_by_id, delete_resources_for_event, delete_resource, update_resource,
  get_resource_cost_by_resource_id, write_resource_cost, TypedResource, Decimal, times, from_column,
  get_resources_for_event, or_current,
}

abbrev pub no_resource : Error
no_resource = value_error "Resource not found"

abbrev pub no_event : Error
no_event = value_error "Event not found"

abbrev pub resource_or_raise : ℕ → Action Store ResourceRow
resource_or_raise resource_id =
    gets (get_resource_by_id resource_id) >>= λ found. or_raise found no_resource

abbrev pub event_or_raise : ℕ → Action Store Event
event_or_raise event_id = gets (get_event_by_id event_id) >>= λ found. or_raise found no_event

abbrev pub not_editable : Error
not_editable =
    permission_error
      "Access denied. Event can only be modified in draft status by its owner, or in resource planning by event teacher."

-- `EventService.require_editable`
unfoldable pub require_editable : CurrentUser → Event → Action Store ⊤
require_editable actor event = require_that (is_editable actor event) not_editable

-- The body of `ResourceLineUpdate`.
pub record LineUpdate : Type 0 where
  pub resource_type_id : Option ℕ
  pub description : Option String
  pub quantity : Option ℕ

-- `updates.get("resource_type_id") or …`: zero counts as absent.
abbrev pub id_or : Option ℕ → ℕ → ℕ
id_or none current = current
id_or (some n) current = if n == 0 then current else n

-- `parse_id(resource_type_id) if resource_type_id else None`
abbrev pub id_or_null : ℕ → Option ℕ
id_or_null n = if n == 0 then none else some n

abbrev pub merged_description : Option String → Option String → Option String
merged_description none current = current
merged_description (some d) current = some d

-- `if cost_info:`
unfoldable pub reprice_cost : ℕ → ℕ → ℕ → Option CostRow → Action Store ⊤
reprice_cost resource_id actor_id quantity none = pure tt
reprice_cost resource_id actor_id quantity (some c) =
    (let unit_price = from_column c.unit_price in
      write_resource_cost resource_id unit_price (times unit_price quantity) c.currency actor_id)

-- A new quantity reprices a line that has a cost.
unfoldable pub reprice : ℕ → ℕ → Option ℕ → Action Store ⊤
unfolding reprice_cost
reprice resource_id actor_id none = pure tt
reprice resource_id actor_id (some quantity) =
    gets (get_resource_cost_by_resource_id resource_id) >>= λ found.
    reprice_cost resource_id actor_id quantity found

-- What `update_resource_line` writes, for the row that it has read.
unfoldable pub write_line : ℕ → CurrentUser → LineUpdate → ResourceRow → Action Store ⊤
write_line resource_id actor updates resource =
    update_resource resource_id
      (id_or_null (id_or updates.resource_type_id resource.resource_type_id))
      (merged_description updates.description resource.description)
      (some (or_current updates.quantity resource.quantity)) actor.id
    >> reprice resource_id actor.id updates.quantity

unfoldable pub update_resource_line : ℕ → CurrentUser → LineUpdate → Action Store ⊤
unfolding require_editable write_line
update_resource_line resource_id actor updates = do
  resource ← resource_or_raise resource_id
  event ← event_or_raise resource.event_id
  require_editable actor event
  write_line resource_id actor updates resource

-- The body of `ResourceLineIn`.
pub record Line : Type 0 where
  pub resource_type_id : ℕ
  pub description : Option String
  pub quantity : ℕ

abbrev pub insert_line : ℕ → ℕ → Line → Action Store ℕ
insert_line event_id added_by l =
    create_resource event_id l.resource_type_id l.description l.quantity added_by

unfoldable pub add_resource_line : ℕ → CurrentUser → Line → Action Store ℕ
unfolding require_editable
add_resource_line event_id actor l = do
  event ← event_or_raise event_id
  require_editable actor event
  insert_line event_id actor.id l

unfoldable pub delete_resource_line : ℕ → CurrentUser → Action Store ⊤
unfolding require_editable
delete_resource_line resource_id actor = do
  resource ← resource_or_raise resource_id
  event ← event_or_raise resource.event_id
  require_editable actor event
  delete_resource resource_id

unfoldable pub insert_lines : ℕ → ℕ → List Line → Action Store ⊤
insert_lines event_id added_by [] = pure tt
insert_lines event_id added_by (l ∷ ls) =
    insert_line event_id added_by l >> insert_lines event_id added_by ls

-- The statuses in which the lines may be replaced.
abbrev pub is_planned : Option Event → Bool
is_planned none = false
is_planned (some e) = e.row.status == draft || e.row.status == resource_planning

unfoldable pub add_resources_to_event : ℕ → List Line → ℕ → Action Store ⊤
unfolding insert_lines
add_resources_to_event event_id ls added_by = gets (get_event_by_id event_id) >>= λ found.
    require_that (is_planned found)
      (value_error "Resources can only be modified on draft or resource planning events")
    >> (delete_resources_for_event event_id >> insert_lines event_id added_by ls)

-- No event has the status `cancelled`, which the source tests besides.
abbrev pub is_priceable : Option Event → Bool
is_priceable none = false
is_priceable (some e) = not (e.row.status == published)

abbrev pub not_priceable : Error
not_priceable = value_error "Pricing cannot be updated for published or cancelled events"

unfoldable pub set_resource_cost : ℕ → Decimal → String → ℕ → Action Store ⊤
set_resource_cost resource_id unit_price currency set_by = do
  resource ← resource_or_raise resource_id
  event ← gets (get_event_by_id resource.event_id)
  require_that (is_priceable event) not_priceable
  write_resource_cost resource_id unit_price (times unit_price resource.quantity) currency set_by

-- A line of `ResourceSummaryResponse`.
pub record SummaryLine : Type 0 where
  pub item : TypedResource
  pub unit_price : ℕ
  pub total_cost : ℕ
  pub set_by_user_id : Option ℕ

abbrev pub with_cost : TypedResource → Option CostRow → SummaryLine
with_cost t none = record { item = t; unit_price = 0; total_cost = 0; set_by_user_id = none }
with_cost t (some c) = record {
  item = t;
  unit_price = c.unit_price;
  total_cost = c.total_cost;
  set_by_user_id = some c.set_by_user_id;
}

unfoldable pub summary_line : Store → TypedResource → SummaryLine
summary_line s t = with_cost t (get_resource_cost_by_resource_id t.resource.id s)

-- The numbers in which the sum runs, Python's floats: any type with a zero, an addition, and the value of
-- an amount.
pub record Floats : Type 1 where
  pub Float : Type 0
  pub zero_float : Float
  pub plus : Float → Float → Float
  pub float : ℕ → Float

-- The loop, with `cost_sum`.
unfoldable pub summarize :
    (fl : Floats) → Store → fl.Float → List TypedResource → List SummaryLine × fl.Float
unfolding summary_line
summarize fl s cost_sum [] = ([], cost_sum)
summarize fl s cost_sum (t ∷ ts) =
    let line = summary_line s t in
    let rest = summarize fl s (fl.plus cost_sum (fl.float line.total_cost)) ts in
    (line ∷ rest.0, rest.1)

unfoldable pub get_resource_summary :
    (fl : Floats)
    → (List TypedResource → List TypedResource)
    → ℕ
    → Store
    → List SummaryLine × fl.Float
get_resource_summary fl ordered event_id s =
    summarize fl s fl.zero_float (get_resources_for_event ordered event_id s)
