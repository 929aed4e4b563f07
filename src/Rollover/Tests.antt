-- ===== src/Rollover/Tests.antt =====
-- A school with a plan for two students, and the theorems on the rollover at it.
use sams_backend.Base.{ℕ, String, [], ◌∷◌, Option, none, some, true, nat_eq, is_some, ok, ◌≡◌, refl}
use sams_backend.Authz.{role_set, one, require, any_of}
use sams_backend.Tenant.{Store, StudentRow, enrolled, get_class_by_id}
use sams_backend.Tenant.Years.{
  planned, active, RolloverAction, promote, RolloverState, previewed, RolloverRow, LineRow, draft,
}
use sams_backend.Rollover.Plan.{cell_beq, option_beq, recompute_rollover_lines}
use sams_backend.Rollover.Service.{get_academic_year_by_id, admin_roles, get_year_rollover_by_id}
use sams_backend.Rollover.Commit.{
  commit_rollover, commit_body, commit_previewed, resolve_classes, resolve_round, resolve_target,
  resolved_class, resolve_line, ensure_class, target_name, apply_and_turn, apply_lines, apply_round,
  apply_action, apply_promotion, apply_exit, record_class_change, stamp_applied, turn_over,
  flip_years, update_rollover, count_action, pending_lines, summary_of, commit_row, count_active,
}
use sams_backend.Rollover.Students.{distinct_students}
use sams_backend.Rollover.Stamps.{stamp_at, commit_rollover_stamps}
use sams_backend.Rollover.Service.{get_rollover_line_by_id}
use sams_backend.Rollover.Upsert.{line_at, KeptAt}
use sams_backend.Rollover.Recompute.{recompute_covers, recompute_keeps_overrides}
use sams_backend.Rollover.Placement.{Fate, commit_rollover_places}

abbrev line : ℕ → ℕ → Option ℕ → Option String → RolloverAction → Option RolloverAction → LineRow
line id student_id level section action override = record {
  id = id;
  rollover_id = 40;
  student_id = student_id;
  from_class_id = some 20;
  to_level_id = level;
  to_section_label = section;
  to_class_id = none;
  proposed_action = action;
  override_action = override;
  exception_code = none;
  applied_at = none;
}

abbrev promoted_line : LineRow
promoted_line = line 50 30 (some 11) (some "A") promote none

abbrev kept_line : LineRow
kept_line = line 51 31 (some 11) (some "B") promote (some promote)

abbrev student : ℕ → String → StudentRow
student id name = record {
  id = id;
  name = name;
  class_id = some 20;
  status = enrolled;
  exited_on = none;
}

abbrev row : RolloverState → RolloverRow
row state = record { id = 40; from_year_id = 1; to_year_id = 2; state = state; summary = none }

abbrev school : RolloverState → Store
school state = record {
  events = [];
  class_maps = [];
  classes =
      record {
        id = 20;
        name = "Grade 1 - A";
        level_id = 10;
        head_teacher_id = some 5;
        capacity = 25;
        is_active = true;
        academic_year_id = 1;
        section_label = some "A";
      }
      ∷ [];
  levels =
      record { level_id = 10; name = "Grade 1"; ordinal = some 1 }
      ∷ record { level_id = 11; name = "Grade 2"; ordinal = some 2 }
      ∷ [];
  students = student 30 "Amal" ∷ student 31 "Basil" ∷ [];
  links = [];
  users = [];
  enrollments = [];
  payments = [];
  notifications = [];
  years =
      record { id = 1; status = active; end_date = some 200; rolled_from_id = none }
      ∷ record { id = 2; status = planned; end_date = some 500; rolled_from_id = none }
      ∷ [];
  rollovers = row state ∷ [];
  rollover_lines = promoted_line ∷ kept_line ∷ [];
  class_history = [];
  resource_types = [];
  resources = [];
  resource_costs = [];
  next_id = 60;
}

admin_may : require (one "school_admin") (any_of admin_roles) ≡ true
unfolding require role_set
admin_may = refl

row_found : (state : RolloverState) → get_year_rollover_by_id 40 (school state) ≡ some (row state)
unfolding get_year_rollover_by_id
row_found state = refl

-- The commit of the previewed plan, by an administrator at the time 1000.
abbrev done_row : RolloverRow
done_row =
    commit_row (record { promoted = 2; graduated = 0; withdrawn = 0; held = 0 }) (row previewed)

abbrev done_school : Store
done_school = (commit_rollover 1000 40 (some 7) (one "school_admin") (school previewed)).1

commit_returns :
    commit_rollover 1000 40 (some 7) (one "school_admin") (school previewed)
    ≡ (ok (some done_row), done_school)
unfolding commit_rollover commit_body commit_previewed resolve_classes pending_lines resolve_round
    resolve_target resolved_class resolve_line ensure_class target_name cell_beq option_beq
    get_class_by_id apply_and_turn apply_lines apply_round apply_action apply_promotion apply_exit
    record_class_change stamp_applied turn_over flip_years update_rollover summary_of count_action
    count_active get_year_rollover_by_id get_academic_year_by_id require role_set
commit_returns = refl

commit_rollover_places_example :
    Fate promote 2 (some 200) (some 11, some "A") (student 30 "Amal") 30 done_school
unfolding distinct_students pending_lines get_academic_year_by_id
commit_rollover_places_example =
    commit_rollover_places 1000 40 (some 7) (one "school_admin") (row previewed) (school previewed)
      done_school (some done_row) 30 promoted_line (student 30 "Amal") (row_found previewed) refl
      refl refl refl commit_returns

recompute_covers_example :
    is_some (line_at 40 30 (recompute_rollover_lines 40 1 (school draft))) ≡ true
unfolding get_class_by_id
recompute_covers_example = recompute_covers 40 1 (school draft) 30

recompute_keeps_overrides_example :
    KeptAt 40 31 kept_line (recompute_rollover_lines 40 1 (school draft))
unfolding get_class_by_id
recompute_keeps_overrides_example =
    recompute_keeps_overrides 40 1 (school draft) 31 kept_line refl (promote, refl) refl

commit_rollover_stamps_example : stamp_at 50 done_school ≡ some (some 1000)
unfolding pending_lines get_rollover_line_by_id
commit_rollover_stamps_example =
    commit_rollover_stamps 1000 40 (some 7) (one "school_admin") (row previewed) (school previewed)
      done_school (some done_row) 50 (row_found previewed) refl commit_returns
