-- ===== src/Event/Resources/Tests.antt =====
-- The theorems on resources at the small school.
use sams_backend.Base.{◌+◌, ℕ, List, [], ◌∷◌, none, some, true, false, refl}
use mathlib.Core.List.Permᴰ
use sams_backend.Tenant.{Store, draft, get_event_by_id}
use sams_backend.Tenant.Supplies.{ResourceRow, CostRow}
use sams_backend.Event.Permission.{is_editable, check_event_permission}
use sams_backend.Event.Tests.{manager, school}
use sams_backend.Event.Resources.Rows.{
  Decimal, to_column, get_resource_by_id, update_resource, set_lines, write_resource_cost,
  upsert_resource_cost,
}
use sams_backend.Event.Resources.Calls.{
  Floats, Line, LineUpdate, update_resource_line, write_line, reprice, reprice_cost,
  require_editable, add_resources_to_event,
}
use sams_backend.Event.Resources.Endpoints.{patch_resource}
use sams_backend.Event.Resources.Priced.{Priced}
use sams_backend.Event.Resources.Costs.{
  Request, patches, adds, deletes, prices, replaces, answer, run_requests, run_requests-Priced,
}
use sams_backend.Event.Resources.Replaced.{Replaced, add_resources_to_event-Replaced}

abbrev bus : ResourceRow
bus = record {
  id = 70;
  event_id = 10;
  resource_type_id = 69;
  description = none;
  quantity = 3;
  added_by_user_id = 4;
  updated_by_user_id = none;
}

abbrev fare : CostRow
fare = record {
  id = 71;
  event_id = 10;
  resource_id = 70;
  unit_price = 50000;
  total_cost = 150000;
  currency = "JOD";
  set_by_user_id = 4;
}

abbrev supplied : Store
supplied = record (school draft) {
  resource_types =
      record {
        id = 69;
        name = "Bus";
        category = "transport";
        is_custom = false;
        created_by_user_id = none;
        is_active = true;
      }
      ∷ [];
  resources = bus ∷ [];
  resource_costs = fare ∷ [];
}

supplied-Priced : Priced supplied
supplied-Priced =
    (record { resource = bus; found = refl; same_event = refl; multiplied = refl; fits = refl }, tt)

abbrev line : ℕ → Line
line quantity = record { resource_type_id = 69; description = none; quantity = quantity }

abbrev four : LineUpdate
four = record { resource_type_id = none; description = none; quantity = some 4 }

-- Six, written with two decimals.
abbrev dear : Decimal
dear = record { coefficient = 600; places = 2 }

abbrev requests : List Request
requests =
    patches 70 four manager
    ∷ adds 10 (line 2) manager
    ∷ prices 70 dear "JOD" manager
    ∷ replaces 10 (line 5 ∷ line 0 ∷ []) manager
    ∷ deletes 70 manager
    ∷ []

run_requests-Priced_example : Priced (run_requests requests supplied)
unfolding answer patch_resource update_resource_line require_editable write_line update_resource
    reprice reprice_cost write_resource_cost upsert_resource_cost get_resource_by_id get_event_by_id
    is_editable check_event_permission set_lines to_column
run_requests-Priced_example =
    run_requests-Priced requests supplied (refl, (tt, ((60000, refl), (tt, (tt, tt)))))
      supplied-Priced

add_resources_to_event-Replaced_example :
    Replaced 10 []
      (line 5 ∷ line 0 ∷ [])
      (add_resources_to_event 10 (line 5 ∷ line 0 ∷ []) 4 supplied)
unfolding get_event_by_id
add_resources_to_event-Replaced_example =
    add_resources_to_event-Replaced 10 (line 5 ∷ line 0 ∷ []) 4 supplied refl

-- Floats that add exactly.
abbrev exact_floats : Floats
exact_floats = record { Float = ℕ; zero_float = 0; plus = λ a b. a + b; float = λ n. n }
