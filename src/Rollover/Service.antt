-- ===== src/Rollover/Service.antt =====
-- The calls on a rollover before its commit, in app/domains/tenant/service.py: generate, view,
-- override and preview.
use sams_backend.Base.{
  ℕ, String, ◌+◌, List, [], ◌∷◌, ◌++◌, Option, none, some, Bool, true, false, not, ◌&&◌, ◌||◌, ◌==◌,
  nat_eq, first_row, where_rows, update_rows, if◌then◌else◌, coalesce, is_some, Action, pure, gets,
  modify, or_raise, require_that, ◌>>=◌, ◌>>◌, permission_error, value_error,
}
use sams_backend.Authz.{RoleArg, any_of, require}
use sams_backend.Tenant.{Store}
use sams_backend.Tenant.Years.{
  planned, active, closed, YearRow, RolloverAction, promote, hold, action_eq, RolloverState, draft,
  previewed, committing, committed, RolloverRow, LineRow, Summary,
}
use sams_backend.Rollover.Plan.{effective, is_label, get_rollover_lines, recompute_rollover_lines}

abbrev pub admin_roles : List String
admin_roles = "school_admin" ∷ "super_admin" ∷ []

unfoldable pub get_academic_year_by_id : ℕ → Store → Option YearRow
get_academic_year_by_id year_id s = first_row (λ (y : YearRow). y.id == year_id) s.years

abbrev pub is_active_year : YearRow → Bool
is_active_year y = elim y.status [ planned ↦ false | active ↦ true | closed ↦ false ]

abbrev pub is_planned_year : YearRow → Bool
is_planned_year y = elim y.status [ planned ↦ true | active ↦ false | closed ↦ false ]

unfoldable pub get_year_rollover_by_id : ℕ → Store → Option RolloverRow
get_year_rollover_by_id rollover_id s =
    first_row (λ (r : RolloverRow). r.id == rollover_id) s.rollovers

abbrev pub is_rollover_of : ℕ → ℕ → RolloverRow → Bool
is_rollover_of from_year_id to_year_id r =
    r.from_year_id == from_year_id && r.to_year_id == to_year_id

-- `create_year_rollover`: the row of the two years, a new one only if there is none.
unfoldable pub create_year_rollover : ℕ → ℕ → Action Store RolloverRow
create_year_rollover from_year_id to_year_id s =
    elim (first_row (is_rollover_of from_year_id to_year_id) s.rollovers) [
      | some r ↦ pure r s
      | none ↦
          let r : RolloverRow = record {
            id = s.next_id;
            from_year_id = from_year_id;
            to_year_id = to_year_id;
            state = draft;
            summary = none;
          } in
          pure r (record s { rollovers = s.rollovers ++ r ∷ []; next_id = s.next_id + 1 })
    ]

-- `line["override_action"] or line["proposed_action"]`
abbrev pub effective_action : LineRow → RolloverAction
effective_action l = effective l.override_action l.proposed_action

abbrev pub is_blocking : LineRow → Bool
is_blocking l = effective_action l == hold

-- What `get_rollover` returns: the row, its lines and the keys of those that block.
pub record RolloverView : Type 0 where
  pub rollover : RolloverRow
  pub lines : List LineRow
  pub blocking : List ℕ

abbrev pub line_ids : List LineRow → List ℕ
line_ids [] = []
line_ids (l ∷ ls) = l.id ∷ line_ids ls

unfoldable pub get_rollover : ℕ → RoleArg → Action Store RolloverView
get_rollover rollover_id user_role = do
  require_that (require user_role (any_of admin_roles))
      (permission_error "Only a school admin can view a rollover plan")
  found ← gets (get_year_rollover_by_id rollover_id)
  rollover ← or_raise found (value_error "Rollover {rollover_id} not found")
  lines ← gets (get_rollover_lines rollover_id)
  pure (record {
    rollover = rollover;
    lines = lines;
    blocking = line_ids (where_rows is_blocking lines);
  })

unfoldable pub generate_rollover_plan : ℕ → ℕ → RoleArg → Action Store RolloverView
unfolding create_year_rollover get_rollover
generate_rollover_plan from_year_id to_year_id user_role = do
  require_that (require user_role (any_of admin_roles))
      (permission_error "Only a school admin can run year rollover")
  from_found ← gets (get_academic_year_by_id from_year_id)
  to_found ← gets (get_academic_year_by_id to_year_id)
  from_year ← or_raise from_found (value_error "Academic year {from_year_id} not found")
  to_year ← or_raise to_found (value_error "Academic year {to_year_id} not found")
  require_that (is_active_year from_year)
      (value_error "Rollover can only be planned from the currently active academic year")
  require_that (is_planned_year to_year)
      (value_error "The target academic year must be 'planned' (not yet active or closed)")
  rollover ← create_year_rollover from_year_id to_year_id
  modify (recompute_rollover_lines rollover.id from_year_id)
  get_rollover rollover.id user_role

unfoldable pub get_rollover_line_by_id : ℕ → Store → Option LineRow
get_rollover_line_by_id line_id s = first_row (λ (l : LineRow). l.id == line_id) s.rollover_lines

-- `set_rollover_line_override`: a target that is not given, or a level 0, leaves the old one.
abbrev pub given_id : Option ℕ → Option ℕ
given_id none = none
given_id (some n) = if n == 0 then none else some n

unfoldable pub set_override : Option RolloverAction → Option ℕ → Option String → LineRow → LineRow
set_override action level label l = record l {
  override_action = action;
  to_level_id = coalesce (given_id level) l.to_level_id;
  to_section_label = coalesce label l.to_section_label;
}

-- `effective_level and effective_section`
abbrev pub has_target : Option ℕ → Option String → LineRow → Bool
has_target level label l =
    is_some (given_id (coalesce level l.to_level_id))
    && is_label (coalesce label l.to_section_label)

abbrev pub is_promote : Option RolloverAction → Bool
is_promote none = false
is_promote (some a) = a == promote

unfoldable pub override_rollover_line :
    ℕ → Option RolloverAction → Option ℕ → Option String → RoleArg → Action Store (Option LineRow)
override_rollover_line line_id action level label user_role = do
  require_that (require user_role (any_of admin_roles))
      (permission_error "Only a school admin can override a rollover line")
  found ← gets (get_rollover_line_by_id line_id)
  line ← or_raise found (value_error "Rollover line {line_id} not found")
  require_that (not (is_promote action) || has_target level label line)
      (value_error "Cannot override to 'promote' without a resolved target")
  modify (λ s. record s {
    rollover_lines =
        update_rows (λ (l : LineRow). l.id == line_id) (set_override action level label)
          s.rollover_lines;
  })
  gets (get_rollover_line_by_id line_id)

abbrev pub is_committed : RolloverState → Bool
is_committed draft = false
is_committed previewed = false
is_committed committing = false
is_committed committed = true

abbrev pub is_previewed : RolloverState → Bool
is_previewed draft = false
is_previewed previewed = true
is_previewed committing = false
is_previewed committed = false

-- `update_rollover_state`
unfoldable pub update_rollover_state : ℕ → RolloverState → Option Summary → Store → Store
update_rollover_state rollover_id state summary s = record s {
  rollovers =
      update_rows (λ (r : RolloverRow). r.id == rollover_id)
        (λ (r : RolloverRow). record r { state = state; summary = coalesce summary r.summary })
        s.rollovers;
}

abbrev pub is_empty : List LineRow → Bool
is_empty [] = true
is_empty (l ∷ ls) = false

unfoldable pub preview_rollover : ℕ → RoleArg → Action Store RolloverView
unfolding get_rollover
preview_rollover rollover_id user_role = do
  require_that (require user_role (any_of admin_roles))
      (permission_error "Only a school admin can preview a rollover plan")
  found ← gets (get_year_rollover_by_id rollover_id)
  rollover ← or_raise found (value_error "Rollover {rollover_id} not found")
  require_that (not (is_committed rollover.state))
      (value_error "This rollover has already been committed")
  modify (recompute_rollover_lines rollover_id rollover.from_year_id)
  lines ← gets (get_rollover_lines rollover_id)
  require_that (is_empty (where_rows is_blocking lines))
      (value_error "{len(blocking)} student(s) have no resolved placement")
  modify (update_rollover_state rollover_id previewed none)
  get_rollover rollover_id user_role
