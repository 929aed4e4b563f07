-- ===== src/Rollover/Plan/Capacity.antt =====
-- The target cells of a plan and the flag on those that are too full, in `_recompute_rollover_lines`
-- of app/domains/tenant/service.py.
use sams_backend.Base.{
  ℕ, String, ◌+◌, List, [], ◌∷◌, Option, none, some, Bool, true, false, ◌&&◌, ◌==◌, nat_eq,
  string_eq, Eq, first_row, where_rows, if◌then◌else◌, ltb,
}
use sams_backend.Tenant.{Store}
use sams_backend.Tenant.Years.{RolloverAction, promote, action_eq, over_capacity, LineRow}
use sams_backend.Rollover.Plan.Facts.{PlannedLine}

unfoldable pub get_rollover_lines : ℕ → Store → List LineRow
get_rollover_lines rollover_id s =
    where_rows (λ (l : LineRow). l.rollover_id == rollover_id) s.rollover_lines

-- `existing_lines.get(student_id)`
abbrev pub existing_line : ℕ → List LineRow → Option LineRow
existing_line student_id lines = first_row (λ (l : LineRow). l.student_id == student_id) lines

abbrev pub override_of : Option LineRow → Option RolloverAction
override_of none = none
override_of (some l) = l.override_action

-- `override_action or proposed_action`
abbrev pub effective : Option RolloverAction → RolloverAction → RolloverAction
effective none proposed = proposed
effective (some override) proposed = override

-- The key `(level, label)` of a target cell.
abbrev pub Cell : Type 0
Cell = Option ℕ × Option String

unfoldable pub option_beq : {A : Type 0} ⦃e : Eq A⦄ → Option A → Option A → Bool
option_beq none none = true
option_beq (some a) (some b) = a == b
option_beq none (some b) = false
option_beq (some a) none = false

unfoldable pub cell_beq : Cell → Cell → Bool
unfolding option_beq
cell_beq a b = option_beq a.0 b.0 && option_beq a.1 b.1

-- The cell that a line counts for, if it is effectively a promotion: the frozen target of an
-- overridden line, else the fresh proposal.
unfoldable pub target_cell : List LineRow → PlannedLine → Option Cell
target_cell existing line =
    let old = existing_line line.student_id existing in
    elim (effective (override_of old) line.proposed_action) [
      | promote ↦ elim old [
        | none ↦ some (line.to_level_id, line.to_section_label)
        | some o ↦ elim o.override_action [
          | none ↦ some (line.to_level_id, line.to_section_label)
          | some a ↦ some (o.to_level_id, o.to_section_label)
        ]
      ]
      | _ ↦ none
    ]

unfoldable pub is_in_cell : List LineRow → Cell → PlannedLine → Bool
is_in_cell existing key line = elim (target_cell existing line) [
  | none ↦ false
  | some k ↦ cell_beq k key
]

-- `len(groups[key])`
unfoldable pub headcount : List LineRow → List PlannedLine → Cell → ℕ
headcount existing [] key = 0
headcount existing (line ∷ lines) key =
    let rest = headcount existing lines key in
    if is_in_cell existing key line then rest + 1 else rest

-- `line["_capacity"] or 25`
abbrev pub capacity_or_default : ℕ → ℕ
capacity_or_default c = if c == 0 then 25 else c

-- `capacity_by_key.get(key, 25)`: `setdefault` keeps the first line of the group that is also
-- proposed as a promotion.
unfoldable pub capacity_of : List LineRow → List PlannedLine → Cell → ℕ
capacity_of existing [] key = 25
capacity_of existing (line ∷ lines) key =
    let rest = capacity_of existing lines key in
    if is_in_cell existing key line && line.proposed_action == promote
    then capacity_or_default line.capacity
    else rest

-- The group of a line is flagged as a whole where it is larger than the capacity.
unfoldable pub flag : List LineRow → List PlannedLine → PlannedLine → PlannedLine
flag existing lines line = elim (target_cell existing line) [
  | none ↦ line
  | some key ↦
      if ltb (capacity_of existing lines key) (headcount existing lines key)
      then record line { exception_code = some over_capacity }
      else line
]
