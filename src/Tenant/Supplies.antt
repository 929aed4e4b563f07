-- ===== src/Tenant/Supplies.antt =====
-- The tables of resources and their costs, as app/core/database.py creates them. The columns
-- `created_at` and `updated_at`, which no modelled code reads, are left out. `NUMERIC(14, 4)` is counted
-- in ten-thousandths; that it is not negative is in its type. That a currency has three letters is left to
-- the validator of the request.
use sams_backend.Base.{ℕ, String, Option, Bool}

-- A row of `resource_types`.
pub record ResourceTypeRow : Type 0 where
  pub id : ℕ
  pub name : String
  pub category : String
  pub is_custom : Bool
  pub created_by_user_id : Option ℕ
  pub is_active : Bool

-- A row of `resources`.
pub record ResourceRow : Type 0 where
  pub id : ℕ
  pub event_id : ℕ
  pub resource_type_id : ℕ
  pub description : Option String
  pub quantity : ℕ
  pub added_by_user_id : ℕ
  pub updated_by_user_id : Option ℕ

-- A row of `resource_cost`.
pub record CostRow : Type 0 where
  pub id : ℕ
  pub event_id : ℕ
  pub resource_id : ℕ
  pub unit_price : ℕ
  pub total_cost : ℕ
  pub currency : String
  pub set_by_user_id : ℕ
