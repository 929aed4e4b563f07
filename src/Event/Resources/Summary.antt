-- ===== src/Event/Resources/Summary.antt =====
-- What the summary of the resources of an event adds up to.
use sams_backend.Base.{◌*◌, List, [], ◌∷◌, Option, some, nat_eq, first_row, All, ◌≡◌}
use sams_backend.Tenant.{Store}
use sams_backend.Tenant.Supplies.{ResourceRow}
use sams_backend.Event.Resources.Rows.{is_resource, TypedResource}
use sams_backend.Event.Resources.Calls.{Floats, SummaryLine}
use sams_backend.Event.Resources.Priced.{Priced}

-- The key names its row.
abbrev pub IsIdentified : Store → ResourceRow → Type 0
IsIdentified s r = first_row (is_resource r.id) s.resources ≡ some r

-- A line of the summary tells the price and the total of its resource.
abbrev pub IsConsistent : SummaryLine → Type 0
IsConsistent l = l.total_cost ≡ l.unit_price * l.item.resource.quantity

abbrev pub items_of : List SummaryLine → List TypedResource
items_of [] = []
items_of (l ∷ ls) = l.item ∷ items_of ls

abbrev pub total_from : (fl : Floats) → fl.Float → List SummaryLine → fl.Float
total_from fl start [] = start
total_from fl start (l ∷ ls) = total_from fl (fl.plus start (fl.float l.total_cost)) ls

-- One consistent line for each item, and the totals added from `start` in their order.
pub record Summarized (fl : Floats) (start : fl.Float) (ts : List TypedResource)
    (summary : List SummaryLine × fl.Float) : Type 0 where
  pub items : items_of summary.0 ≡ ts
  pub consistent : All IsConsistent summary.0
  pub summed : summary.1 ≡ total_from fl start summary.0
