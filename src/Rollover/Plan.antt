-- ===== src/Rollover/Plan.antt =====
-- The plan of a year rollover: `get_rollover_plan_facts` and `upsert_rollover_lines` of
-- app/domains/tenant/tenant_repository.py, and `_recompute_rollover_lines` of
-- app/domains/tenant/service.py. Rows come in the order of their tables; the `ORDER BY` and the joins
-- for names, whose rows the foreign keys guarantee, are left out.
mod Facts
mod Capacity
unfoldable pub use Facts.*
unfoldable pub use Capacity.*
use mathlib.Core.List
use sams_backend.Base.{
  ℕ, String, ◌+◌, List, [], ◌∷◌, ◌++◌, Option, none, some, Bool, true, false, not, ◌&&◌, ◌||◌, ◌==◌,
  nat_eq, string_eq, Eq, contains, first_row, where_rows, update_rows, if◌then◌else◌, ltb, is_text,
}
use sams_backend.Tenant.{
  Store, StudentRow, StudentStatus, enrolled, graduated, withdrawn, ClassRow, LevelRow,
  get_class_by_id,
}
use sams_backend.Tenant.Years.{
  RolloverAction, promote, graduate, hold, action_eq, ExceptionCode, no_next_level, no_placement,
  over_capacity, LineRow,
}

-- The lines that a recompute writes.
unfoldable pub plan_lines : ℕ → ℕ → Store → List PlannedLine
plan_lines rollover_id from_year_id s =
    let existing = get_rollover_lines rollover_id s in
    let lines = List.map propose (get_rollover_plan_facts from_year_id s) in
    List.map (flag existing lines) lines

abbrev pub student_ids : List PlannedLine → List ℕ
student_ids [] = []
student_ids (line ∷ lines) = line.student_id ∷ student_ids lines

-- `DELETE … WHERE rollover_id = $1 AND student_id != ALL($2)`
abbrev pub stays : ℕ → List ℕ → LineRow → Bool
stays rollover_id ids l = not (l.rollover_id == rollover_id) || contains l.student_id ids

abbrev pub is_line_of : ℕ → ℕ → LineRow → Bool
is_line_of rollover_id student_id l = l.rollover_id == rollover_id && l.student_id == student_id

abbrev pub new_line : ℕ → ℕ → PlannedLine → LineRow
new_line id rollover_id line = record {
  id = id;
  rollover_id = rollover_id;
  student_id = line.student_id;
  from_class_id = some line.from_class_id;
  to_level_id = line.to_level_id;
  to_section_label = line.to_section_label;
  to_class_id = none;
  proposed_action = line.proposed_action;
  override_action = none;
  exception_code = line.exception_code;
  applied_at = none;
}

-- `ON CONFLICT (rollover_id, student_id) DO UPDATE SET …`
unfoldable pub refresh_line : PlannedLine → LineRow → LineRow
refresh_line line old = record old {
  from_class_id = some line.from_class_id;
  proposed_action = line.proposed_action;
  exception_code = line.exception_code;
  to_level_id = elim old.override_action [ none ↦ line.to_level_id | some a ↦ old.to_level_id ];
  to_section_label = elim old.override_action [
    | none ↦ line.to_section_label
    | some a ↦ old.to_section_label
  ];
}

unfoldable pub upsert_line : ℕ → PlannedLine → Store → Store
upsert_line rollover_id line s =
    elim (first_row (is_line_of rollover_id line.student_id) s.rollover_lines) [
      | none ↦ record s {
        rollover_lines = s.rollover_lines ++ new_line s.next_id rollover_id line ∷ [];
        next_id = s.next_id + 1;
      }
      | some old ↦ record s {
        rollover_lines =
            update_rows (is_line_of rollover_id line.student_id) (refresh_line line)
              s.rollover_lines;
      }
    ]

unfoldable pub upsert_each : ℕ → List PlannedLine → Store → Store
upsert_each rollover_id [] s = s
upsert_each rollover_id (line ∷ lines) s =
    upsert_each rollover_id lines (upsert_line rollover_id line s)

unfoldable pub upsert_rollover_lines : ℕ → List PlannedLine → Store → Store
upsert_rollover_lines rollover_id lines s =
    let kept = where_rows (stays rollover_id (student_ids lines)) s.rollover_lines in
    upsert_each rollover_id lines (record s { rollover_lines = kept })

unfoldable pub recompute_rollover_lines : ℕ → ℕ → Store → Store
recompute_rollover_lines rollover_id from_year_id s =
    upsert_rollover_lines rollover_id (plan_lines rollover_id from_year_id s) s
