-- ===== src/Event/Resources/Rows.antt =====
-- The queries of TenantRepository (app/domains/tenant/tenant_repository.py) on resource types,
-- resources and their costs. Each is one statement on the pool, so it is committed at once.
use Prim.Native.Nat.{◌^◌}
use sams_backend.Base.{
  ℕ, suc, ◌+◌, ◌*◌, ◌/◌, String, List, [], ◌∷◌, ◌++◌, Option, none, some, Bool, true, not, ◌&&◌,
  ◌==◌, nat_eq, string_eq, ltb, first_row, where_rows, update_rows, any, is_some, if◌then◌else◌,
  Action, pure, raise, gets, modify, or_raise, require_that, Error, ◌>>=◌, ◌>>◌, ⊤, value_error,
  data_error, checked, ◌||◌, check_violation, foreign_key_violation,
}
use sams_backend.Tenant.{has_user, has_event, is_user_or_null, Store}
use sams_backend.Tenant.Supplies.{ResourceTypeRow, ResourceRow, CostRow}

-- What an `INTEGER` column holds, of the numbers that are not negative.
abbrev pub int4_bound : ℕ
int4_bound = 2147483648

-- Ten digits before the point and four behind it.
abbrev pub numeric_bound : ℕ
numeric_bound = 100000000000000

abbrev pub has_type : ℕ → Store → Bool
has_type type_id s = any (λ (t : ResourceTypeRow). t.id == type_id) s.resource_types

unfoldable pub create_resource_type : String → String → Bool → Option ℕ → Action Store ℕ
create_resource_type name category is_custom created_by s =
    if is_user_or_null created_by s
    then pure s.next_id (record s {
      resource_types =
          s.resource_types
          ++ record {
            id = s.next_id;
            name = name;
            category = category;
            is_custom = is_custom;
            created_by_user_id = created_by;
            is_active = true;
          }
            ∷ [];
      next_id = suc s.next_id;
    })
    else raise (foreign_key_violation "resource_types.created_by_user_id") s

unfoldable pub get_resource_type_by_id : ℕ → Store → Option ResourceTypeRow
get_resource_type_by_id rt_id s =
    first_row (λ (t : ResourceTypeRow). t.id == rt_id) s.resource_types

abbrev pub is_resource : ℕ → ResourceRow → Bool
is_resource resource_id r = r.id == resource_id

abbrev pub is_cost_of : ℕ → CostRow → Bool
is_cost_of resource_id c = c.resource_id == resource_id

abbrev pub in_event : ℕ → ResourceRow → Bool
in_event event_id r = r.event_id == event_id

abbrev pub new_resource : ℕ → ℕ → ℕ → Option String → ℕ → ℕ → ResourceRow
new_resource id event_id type_id description quantity added_by = record {
  id = id;
  event_id = event_id;
  resource_type_id = type_id;
  description = description;
  quantity = quantity;
  added_by_user_id = added_by;
  updated_by_user_id = none;
}

unfoldable pub add_resource : ResourceRow → Store → Store
add_resource r s = record s { resources = s.resources ++ r ∷ []; next_id = suc s.next_id }

-- The driver refuses what does not fit the parameter's type, then the column's check and the
-- references are tested.
abbrev pub resource_checks : ℕ → ℕ → ℕ → ℕ → Store → List (Bool × Error)
resource_checks event_id type_id quantity added_by s =
    (ltb quantity int4_bound, data_error "resources.quantity")
    ∷ (ltb 0 quantity, check_violation "resources.quantity")
    ∷ (has_event event_id s, foreign_key_violation "resources.event_id")
    ∷ (has_type type_id s, foreign_key_violation "resources.resource_type_id")
    ∷ (has_user added_by s, foreign_key_violation "resources.added_by_user_id")
    ∷ []

unfoldable pub create_resource : ℕ → ℕ → Option String → ℕ → ℕ → Action Store ℕ
create_resource event_id type_id description quantity added_by s =
    checked (resource_checks event_id type_id quantity added_by s) (pure s.next_id)
      (add_resource (new_resource s.next_id event_id type_id description quantity added_by)) s

unfoldable pub get_resource_by_id : ℕ → Store → Option ResourceRow
get_resource_by_id resource_id s = first_row (is_resource resource_id) s.resources

-- A row of the join with `resource_types`.
pub record TypedResource : Type 0 where
  pub resource : ResourceRow
  pub kind : ResourceTypeRow

abbrev pub add_typed :
    ResourceRow → Option ResourceTypeRow → List TypedResource → List TypedResource
add_typed r none rest = rest
add_typed r (some t) rest = record { resource = r; kind = t } ∷ rest

unfoldable pub join_types : Store → List ResourceRow → List TypedResource
join_types s [] = []
join_types s (r ∷ rs) = add_typed r (get_resource_type_by_id r.resource_type_id s) (join_types s rs)

-- `ordered` stands for the `ORDER BY rt.category ASC, rt.name ASC` of the database, which compares by
-- its collation and leaves ties in any order.
unfoldable pub get_resources_for_event :
    (List TypedResource → List TypedResource) → ℕ → Store → List TypedResource
get_resources_for_event ordered event_id s =
    ordered (join_types s (where_rows (in_event event_id) s.resources))

-- `ON DELETE CASCADE` takes the costs of the deleted rows along.
abbrev pub is_orphaned : (ResourceRow → Bool) → List ResourceRow → CostRow → Bool
is_orphaned deleted rs c = any (λ r. deleted r && is_resource c.resource_id r) rs

unfoldable pub delete_rows : (ResourceRow → Bool) → Store → Store
delete_rows deleted s = record s {
  resources = where_rows (λ r. not (deleted r)) s.resources;
  resource_costs = where_rows (λ c. not (is_orphaned deleted s.resources c)) s.resource_costs;
}

unfoldable pub delete_resources_for_event : ℕ → Action Store ⊤
delete_resources_for_event event_id = modify (delete_rows (in_event event_id))

unfoldable pub delete_resource : ℕ → Action Store ⊤
delete_resource resource_id = modify (delete_rows (is_resource resource_id))

abbrev pub or_current {ℓ} : {A : Type ℓ} → Option A → A → A
or_current none current = current
or_current (some a) current = a

-- The `SET` clause, `COALESCE` on the columns but the last.
abbrev pub set_line : Option ℕ → Option String → Option ℕ → ℕ → ResourceRow → ResourceRow
set_line type_id description quantity by r = record r {
  resource_type_id = or_current type_id r.resource_type_id;
  description = elim description [ none ↦ r.description | some d ↦ some d ];
  quantity = or_current quantity r.quantity;
  updated_by_user_id = some by;
}

unfoldable pub set_lines : ℕ → Option ℕ → Option String → Option ℕ → ℕ → Store → Store
set_lines resource_id type_id description quantity by s = record s {
  resources =
      update_rows (is_resource resource_id) (set_line type_id description quantity by) s.resources;
}

abbrev pub is_type_or_kept : Option ℕ → Store → Bool
is_type_or_kept none s = true
is_type_or_kept (some t) s = has_type t s

-- Where no row has the key, no constraint is tested.
abbrev pub line_checks : ℕ → Option ℕ → Option ℕ → ℕ → Store → List (Bool × Error)
unfolding get_resource_by_id
line_checks resource_id type_id quantity by s =
    let missing = not (is_some (get_resource_by_id resource_id s)) in
    (ltb (or_current quantity 1) int4_bound, data_error "resources.quantity")
    ∷ (missing || ltb 0 (or_current quantity 1), check_violation "resources.quantity")
    ∷ (missing || is_type_or_kept type_id s, foreign_key_violation "resources.resource_type_id")
    ∷ (missing || has_user by s, foreign_key_violation "resources.updated_by_user_id")
    ∷ []

unfoldable pub update_resource : ℕ → Option ℕ → Option String → Option ℕ → ℕ → Action Store ⊤
update_resource resource_id type_id description quantity by s =
    checked (line_checks resource_id type_id quantity by s) (pure tt)
      (set_lines resource_id type_id description quantity by) s

unfoldable pub get_resource_cost_by_resource_id : ℕ → Store → Option CostRow
get_resource_cost_by_resource_id resource_id s = first_row (is_cost_of resource_id) s.resource_costs

abbrev pub set_cost : ℕ → ℕ → String → ℕ → CostRow → CostRow
set_cost unit_price total_cost currency by c = record c {
  unit_price = unit_price;
  total_cost = total_cost;
  currency = currency;
  set_by_user_id = by;
}

abbrev pub new_cost : ℕ → ℕ → ℕ → ℕ → ℕ → String → ℕ → CostRow
new_cost id event_id resource_id unit_price total_cost currency by = record {
  id = id;
  event_id = event_id;
  resource_id = resource_id;
  unit_price = unit_price;
  total_cost = total_cost;
  currency = currency;
  set_by_user_id = by;
}

-- `INSERT … ON CONFLICT (resource_id) DO UPDATE`
unfoldable pub upsert_cost : ℕ → ℕ → ℕ → ℕ → String → ℕ → Store → Store
unfolding get_resource_cost_by_resource_id
upsert_cost event_id resource_id unit_price total_cost currency by s =
    if is_some (get_resource_cost_by_resource_id resource_id s)
    then record s {
      resource_costs =
          update_rows (is_cost_of resource_id) (set_cost unit_price total_cost currency by)
            s.resource_costs;
    }
    else record s {
      resource_costs =
          s.resource_costs
          ++ new_cost s.next_id event_id resource_id unit_price total_cost currency by ∷ [];
      next_id = suc s.next_id;
    }

-- A decimal number that is not negative: `coefficient` divided by ten to the power `places`.
pub record Decimal : Type 0 where
  pub coefficient : ℕ
  pub places : ℕ

-- The value that `NUMERIC(14, 4)` keeps, to the nearest and half upwards.
unfoldable pub to_column : Decimal → ℕ
to_column d = (2 * (d.coefficient * 10000) + 10 ^ d.places) / (2 * 10 ^ d.places)

-- `float(unit_price) * int(quantity)`
abbrev pub times : Decimal → ℕ → Decimal
times d quantity = record { coefficient = d.coefficient * quantity; places = d.places }

-- What is read back from the column.
abbrev pub from_column : ℕ → Decimal
from_column n = record { coefficient = n; places = 4 }

abbrev pub no_such_resource : Error
no_such_resource = value_error "Resource with ID {resource_id} not found"

abbrev pub cost_checks : ℕ → ℕ → ℕ → Store → List (Bool × Error)
cost_checks unit_price total_cost by s =
    (ltb unit_price numeric_bound, data_error "resource_cost.unit_price")
    ∷ (ltb total_cost numeric_bound, data_error "resource_cost.total_cost")
    ∷ (has_user by s, foreign_key_violation "resource_cost.set_by_user_id")
    ∷ []

-- The statement of `TenantRepository.set_resource_cost`: each amount is rounded to its column.
unfoldable pub upsert_resource_cost : ℕ → ℕ → Decimal → Decimal → String → ℕ → Action Store ⊤
unfolding upsert_cost
upsert_resource_cost event_id resource_id unit_price total_cost currency by s =
    let unit = to_column unit_price in
    let total = to_column total_cost in
    checked (cost_checks unit total by s) (pure tt)
      (upsert_cost event_id resource_id unit total currency by) s

-- `TenantRepository.set_resource_cost`; the key that it returns is read by no caller.
unfoldable pub write_resource_cost : ℕ → Decimal → Decimal → String → ℕ → Action Store ⊤
write_resource_cost resource_id unit_price total_cost currency by = do
  found ← gets (get_resource_by_id resource_id)
  resource ← or_raise found no_such_resource
  require_that (not (resource.event_id == 0)) no_such_resource
  upsert_resource_cost resource.event_id resource_id unit_price total_cost currency by
