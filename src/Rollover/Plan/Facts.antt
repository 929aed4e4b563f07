-- ===== src/Rollover/Plan/Facts.antt =====
-- The facts of a rollover, `get_rollover_plan_facts` of app/domains/tenant/tenant_repository.py, and
-- what `_recompute_rollover_lines` of app/domains/tenant/service.py proposes for each. Rows come in the
-- order of their tables; the joins for names are left out.
use mathlib.Core.List
use sams_backend.Base.{
  ℕ, String, ◌+◌, List, [], ◌∷◌, ◌++◌, Option, none, some, Bool, true, false, not, ◌&&◌, ◌||◌, ◌==◌,
  nat_eq, string_eq, first_row, where_rows, if◌then◌else◌, is_text,
}
use sams_backend.Tenant.{
  Store, StudentRow, StudentStatus, enrolled, graduated, withdrawn, ClassRow, LevelRow,
  get_class_by_id,
}
use sams_backend.Tenant.Years.{
  RolloverAction, promote, graduate, hold, action_eq, ExceptionCode, no_next_level, no_placement,
}

-- A row of `get_rollover_plan_facts`.
pub record Fact : Type 0 where
  pub student_id : ℕ
  pub from_class_id : ℕ
  pub from_class_capacity : ℕ
  pub from_class_active : Bool
  pub section_label : Option String
  pub to_level_id : Option ℕ

abbrev pub is_enrolled : StudentStatus → Bool
is_enrolled enrolled = true
is_enrolled graduated = false
is_enrolled withdrawn = false

abbrev pub get_level_by_id : ℕ → Store → Option LevelRow
get_level_by_id level_id s = first_row (λ (l : LevelRow). l.level_id == level_id) s.levels

-- `nl.ordinal = l.ordinal + 1`, which holds of no `NULL`.
abbrev pub is_next_level : LevelRow → LevelRow → Bool
is_next_level l nl = elim l.ordinal [
  | none ↦ false
  | some o ↦ elim nl.ordinal [ none ↦ false | some n ↦ n == o + 1 ]
]

abbrev pub fact : StudentRow → ClassRow → Option ℕ → Fact
fact t c to_level = record {
  student_id = t.id;
  from_class_id = c.id;
  from_class_capacity = c.capacity;
  from_class_active = c.is_active;
  section_label = c.section_label;
  to_level_id = to_level;
}

-- The `LEFT JOIN`: a row for each next level, or one without.
abbrev pub with_next_levels : StudentRow → ClassRow → List LevelRow → List Fact
with_next_levels t c [] = fact t c none ∷ []
with_next_levels t c (l ∷ ls) = List.map (λ (nl : LevelRow). fact t c (some nl.level_id)) (l ∷ ls)

-- The rows of one student.
unfoldable pub student_facts : ℕ → Store → StudentRow → List Fact
student_facts from_year_id s t = elim t.class_id [
  | none ↦ []
  | some class_id ↦ elim (get_class_by_id class_id s) [
    | none ↦ []
    | some c ↦ elim (get_level_by_id c.level_id s) [
      | none ↦ []
      | some l ↦
          if c.academic_year_id == from_year_id && is_enrolled t.status
          then with_next_levels t c (where_rows (is_next_level l) s.levels)
          else []
    ]
  ]
]

unfoldable pub facts_of_students : ℕ → Store → List StudentRow → List Fact
facts_of_students from_year_id s [] = []
facts_of_students from_year_id s (t ∷ ts) =
    student_facts from_year_id s t ++ facts_of_students from_year_id s ts

unfoldable pub get_rollover_plan_facts : ℕ → Store → List Fact
get_rollover_plan_facts from_year_id s = facts_of_students from_year_id s s.students

-- One entry of the list `lines`.
pub record PlannedLine : Type 0 where
  pub student_id : ℕ
  pub from_class_id : ℕ
  pub to_level_id : Option ℕ
  pub to_section_label : Option String
  pub proposed_action : RolloverAction
  pub exception_code : Option ExceptionCode
  pub capacity : ℕ

abbrev pub is_label : Option String → Bool
is_label none = false
is_label (some l) = is_text l

abbrev pub planned_line :
    Fact → Option ℕ → Option String → RolloverAction → Option ExceptionCode → PlannedLine
planned_line f level label action code = record {
  student_id = f.student_id;
  from_class_id = f.from_class_id;
  to_level_id = level;
  to_section_label = label;
  proposed_action = action;
  exception_code = code;
  capacity = f.from_class_capacity;
}

-- The engine's proposal for one fact.
unfoldable pub propose : Fact → PlannedLine
propose f = elim f.to_level_id [
  | none ↦ planned_line f none none graduate (some no_next_level)
  | some level ↦
      if not f.from_class_active || not (is_label f.section_label)
      then planned_line f none none hold (some no_placement)
      else planned_line f (some level) f.section_label promote none
]
