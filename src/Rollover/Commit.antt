-- ===== src/Rollover/Commit.antt =====
-- `commit_rollover` of app/domains/tenant/service.py and `commit_year_rollover` of
-- app/domains/tenant/tenant_repository.py: one transaction that creates the classes of the new year,
-- applies each line and turns the years over.
mod Targets
mod Lines
unfoldable pub use Targets.*
unfoldable pub use Lines.*
use Prim.Native.String.{◌++◌ as append}
use sams_backend.Base.{
  ℕ, String, ◌+◌, List, [], ◌∷◌, ◌++◌, Option, none, some, Bool, true, not, ◌&&◌, ◌||◌, ◌==◌,
  nat_eq, string_eq, contains, first_row, where_rows, update_rows, if◌then◌else◌, is_some, Action,
  pure, raise, gets, modify, or_raise, require_that, ◌>>=◌, ◌>>◌, ⊤, permission_error, value_error,
  type_error, unique_violation, transaction, ok, err,
}
use sams_backend.Authz.{RoleArg, any_of, require}
use sams_backend.Tenant.{
  Store, StudentRow, StudentStatus, graduated, withdrawn, ClassRow, LevelRow, get_class_by_id,
}
use sams_backend.Tenant.Years.{
  active, closed, YearRow, RolloverAction, promote, graduate, hold, withdraw, action_eq,
  RolloverState, committing, committed, RolloverRow, LineRow, Summary,
}
use sams_backend.Rollover.Plan.{Cell, cell_beq, get_level_by_id}
use sams_backend.Rollover.Service.{
  admin_roles, effective_action, get_year_rollover_by_id, get_academic_year_by_id, is_active_year,
  is_committed, is_previewed,
}

abbrev pub is_year : ℕ → YearRow → Bool
is_year year_id y = y.id == year_id

abbrev pub close_year : YearRow → YearRow
close_year y = record y { status = closed }

abbrev pub open_year : ℕ → YearRow → YearRow
open_year from_year_id y = record y { status = active; rolled_from_id = some from_year_id }

-- The partial unique index on active years refuses a second one.
unfoldable pub count_active : List YearRow → ℕ
count_active [] = 0
count_active (y ∷ ys) = let rest = count_active ys in if is_active_year y then rest + 1 else rest

abbrev pub at_most_one : ℕ → Bool
at_most_one n = n == 0 || n == 1

-- "3. Flip academic-year states", the old year first.
unfoldable pub flip_years : ℕ → ℕ → Action Store ⊤
flip_years from_year_id to_year_id s =
    let shut = update_rows (is_year from_year_id) close_year s.years in
    let turned = update_rows (is_year to_year_id) (open_year from_year_id) shut in
    if at_most_one (count_active turned)
    then (ok tt, record s { years = turned })
    else (err (unique_violation "one_active_academic_year"), s)

-- `_count`
unfoldable pub count_action : RolloverAction → List LineRow → ℕ
count_action action [] = 0
count_action action (l ∷ ls) =
    let rest = count_action action ls in if effective_action l == action then rest + 1 else rest

unfoldable pub summary_of : List LineRow → Summary
summary_of lines = record {
  promoted = count_action promote lines;
  graduated = count_action graduate lines;
  withdrawn = count_action withdraw lines;
  held = count_action hold lines;
}

abbrev pub set_state : RolloverState → RolloverRow → RolloverRow
set_state state r = record r { state = state }

abbrev pub is_rollover : ℕ → RolloverRow → Bool
is_rollover rollover_id r = r.id == rollover_id

unfoldable pub update_rollover : ℕ → (RolloverRow → RolloverRow) → Store → Store
update_rollover rollover_id f s = record s {
  rollovers = update_rows (is_rollover rollover_id) f s.rollovers;
}

abbrev pub commit_row : Summary → RolloverRow → RolloverRow
commit_row summary r = record r { state = committed; summary = some summary }

abbrev pub end_date_of : Option YearRow → Option ℕ
end_date_of none = none
end_date_of (some y) = y.end_date

-- The end of the transaction: the years, and the rollover's row.
unfoldable pub turn_over : ℕ → RolloverRow → List LineRow → Action Store (Option RolloverRow)
unfolding update_rollover
turn_over rollover_id rollover lines = do
  flip_years rollover.from_year_id rollover.to_year_id
  modify (update_rollover rollover_id (commit_row (summary_of lines)))
  gets (get_year_rollover_by_id rollover_id)

-- Its middle: the lines, then the end.
unfoldable pub apply_and_turn :
    ℕ → ℕ → Option ℕ → RolloverRow → List LineRow → Resolved → Action Store (Option RolloverRow)
apply_and_turn now rollover_id changed_by rollover lines resolved = do
  from_year ← gets (get_academic_year_by_id rollover.from_year_id)
  applied ← apply_lines resolved (end_date_of from_year) changed_by lines []
  modify (stamp_applied now applied)
  turn_over rollover_id rollover lines

-- The body of the transaction once the rollover is known to be previewed.
unfoldable pub commit_previewed : ℕ → ℕ → Option ℕ → RolloverRow → Action Store (Option RolloverRow)
unfolding update_rollover
commit_previewed now rollover_id changed_by rollover = do
  modify (update_rollover rollover_id (set_state committing))
  lines ← gets (pending_lines rollover_id)
  resolved ← resolve_classes rollover.to_year_id lines []
  apply_and_turn now rollover_id changed_by rollover lines resolved

-- The body of the transaction.
unfoldable pub commit_body : ℕ → ℕ → Option ℕ → Action Store (Option RolloverRow)
commit_body now rollover_id changed_by = do
  found ← gets (get_year_rollover_by_id rollover_id)
  rollover ← or_raise found (value_error "Rollover {rid} not found")
  if is_committed rollover.state
      then pure (some rollover)
      else require_that (is_previewed rollover.state)
          (value_error "Rollover must be previewed before it can be committed")
        >> commit_previewed now rollover_id changed_by rollover

unfoldable pub commit_rollover : ℕ → ℕ → Option ℕ → RoleArg → Action Store (Option RolloverRow)
commit_rollover now rollover_id changed_by user_role =
    require_that (require user_role (any_of admin_roles))
      (permission_error "Only a school admin can commit a rollover")
    >> transaction (commit_body now rollover_id changed_by)
