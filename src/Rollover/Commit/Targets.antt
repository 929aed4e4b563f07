-- ===== src/Rollover/Commit/Targets.antt =====
-- The first loop of `commit_year_rollover` in app/domains/tenant/tenant_repository.py: the classes of
-- the new year.
use Prim.Native.String.{◌++◌ as append}
use sams_backend.Base.{
  ℕ, String, ◌+◌, List, [], ◌∷◌, ◌++◌, Option, none, some, Bool, true, not, ◌&&◌, ◌==◌, nat_eq,
  string_eq, first_row, where_rows, if◌then◌else◌, is_some, Action, pure, gets, or_raise, ◌>>=◌,
  type_error,
}
use sams_backend.Tenant.{Store, ClassRow, LevelRow, get_class_by_id}
use sams_backend.Tenant.Years.{
  RolloverAction, promote, graduate, hold, withdraw, action_eq, LineRow,
}
use sams_backend.Rollover.Plan.{Cell, cell_beq, get_level_by_id}
use sams_backend.Rollover.Service.{effective_action}

-- `WHERE rollover_id = $1 AND applied_at IS NULL`
abbrev pub is_pending_of : ℕ → LineRow → Bool
is_pending_of rollover_id l = l.rollover_id == rollover_id && not (is_some l.applied_at)

unfoldable pub pending_lines : ℕ → Store → List LineRow
pending_lines rollover_id s = where_rows (is_pending_of rollover_id) s.rollover_lines

-- `resolved_class_ids`
abbrev pub Resolved : Type 0
Resolved = List (Cell × ℕ)

unfoldable pub resolved_class : Cell → Resolved → Option ℕ
resolved_class key [] = none
resolved_class key ((k, class_id) ∷ rest) =
    if cell_beq k key then some class_id else resolved_class key rest

abbrev pub cell_of : LineRow → Cell
cell_of l = (l.to_level_id, l.to_section_label)

-- `f"{level_row['name']} - {line['to_section_label']}"`
abbrev pub label_text : Option String → String
label_text none = "None"
label_text (some l) = l

unfoldable pub target_name : LevelRow → Option String → String
target_name level label = append level.name (append " - " (label_text label))

abbrev pub is_class_named : String → ℕ → ClassRow → Bool
is_class_named name year_id c = c.name == name && c.academic_year_id == year_id

abbrev pub new_class : ℕ → ℕ → LineRow → ClassRow → LevelRow → ClassRow
new_class id to_year_id line source level = record {
  id = id;
  name = target_name level line.to_section_label;
  level_id = level.level_id;
  head_teacher_id = source.head_teacher_id;
  capacity = source.capacity;
  is_active = true;
  academic_year_id = to_year_id;
  section_label = line.to_section_label;
}

abbrev pub insert_class : ℕ → LineRow → ClassRow → LevelRow → Store → Store
insert_class to_year_id line source level s = record s {
  classes = s.classes ++ new_class s.next_id to_year_id line source level ∷ [];
  next_id = s.next_id + 1;
}

-- `INSERT … ON CONFLICT (name, academic_year_id) DO NOTHING`, and the key of the class of that name.
unfoldable pub ensure_class : ℕ → LineRow → ClassRow → LevelRow → Action Store ℕ
ensure_class to_year_id line source level s =
    elim (first_row (is_class_named (target_name level line.to_section_label) to_year_id)
      s.classes) [
        | some c ↦ pure c.id s
        | none ↦ pure s.next_id (insert_class to_year_id line source level s)
      ]

abbrev pub level_of : Option ℕ → Store → Option LevelRow
level_of none s = none
level_of (some level_id) s = get_level_by_id level_id s

-- The rest of the loop's body for a promotion whose cell is new; a missing row is a subscript of
-- `None`.
unfoldable pub resolve_line : ℕ → ℕ → LineRow → Resolved → Action Store Resolved
unfolding ensure_class
resolve_line to_year_id from_class_id line resolved = do
  source_row ← gets (get_class_by_id from_class_id)
  level_row ← gets (level_of line.to_level_id)
  level ← or_raise level_row (type_error "'NoneType' object is not subscriptable")
  source ← or_raise source_row (type_error "'NoneType' object is not subscriptable")
  class_id ← ensure_class to_year_id line source level
  pure ((cell_of line, class_id) ∷ resolved)

-- The tests of the first loop's body: a promotion out of a class whose cell is new.
unfoldable pub resolve_target :
    RolloverAction → Option ℕ → ℕ → LineRow → Resolved → Action Store Resolved
resolve_target promote none to_year_id line resolved = pure resolved
resolve_target promote (some from_class_id) to_year_id line resolved =
    if is_some (resolved_class (cell_of line) resolved)
    then pure resolved
    else resolve_line to_year_id from_class_id line resolved
resolve_target graduate from_class to_year_id line resolved = pure resolved
resolve_target withdraw from_class to_year_id line resolved = pure resolved
resolve_target hold from_class to_year_id line resolved = pure resolved

-- One round of the first loop.
unfoldable pub resolve_round : ℕ → LineRow → Resolved → Action Store Resolved
resolve_round to_year_id line resolved =
    resolve_target (effective_action line) line.from_class_id to_year_id line resolved

-- "1. Ensure a to_year class exists for every distinct target."
unfoldable pub resolve_classes : ℕ → List LineRow → Resolved → Action Store Resolved
resolve_classes to_year_id [] resolved = pure resolved
resolve_classes to_year_id (line ∷ lines) resolved = do
  resolved' ← resolve_round to_year_id line resolved
  resolve_classes to_year_id lines resolved'
