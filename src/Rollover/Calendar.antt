-- ===== src/Rollover/Calendar.antt =====
-- The loops of `commit_year_rollover` (app/domains/tenant/tenant_repository.py) and the calendar:
-- the years and the rows of the rollovers.
use sams_backend.Base.{
  ℕ, List, [], ◌∷◌, Option, none, some, nat_eq, is_some, Option-cases, Bool-cases, Keeps,
  Keeps-bind, pure, refl, inl, inr, arith,
}
use sams_backend.Tenant.{Store, StudentRow, ClassRow, LevelRow, get_class_by_id}
use sams_backend.Tenant.Years.{
  LineRow, RolloverAction, promote, graduate, hold, withdraw, RolloverRow, YearRow,
}
use sams_backend.Rollover.Service.{effective_action}
use sams_backend.Rollover.Commit.{
  Resolved, cell_of, resolved_class, ensure_class, resolve_line, resolve_target, resolve_round,
  resolve_classes, apply_action, apply_round, apply_lines, level_of, apply_promotion, apply_exit,
  record_class_change,
}

-- The two loops change neither the years nor the rollovers.
-- What the first loop leaves alone.
abbrev pub outside_classes :
    Store → List YearRow × List RolloverRow × List StudentRow × List LineRow
outside_classes s = (s.years, s.rollovers, s.students, s.rollover_lines)

-- What the second loop leaves alone.
abbrev pub outside_lines : Store → List YearRow × List RolloverRow × List ClassRow × List LevelRow
outside_lines s = (s.years, s.rollovers, s.classes, s.levels)

abbrev pub calendar : Store → List YearRow × List RolloverRow
calendar s = (s.years, s.rollovers)

ensure_class-Keeps :
    (y : ℕ) (line : LineRow) (source : ClassRow) (level : LevelRow)
    → Keeps outside_classes (ensure_class y line source level)
unfolding ensure_class
ensure_class-Keeps y line source level s = ground arith

resolve_line-Keeps :
    (y c : ℕ) (line : LineRow) (resolved : Resolved)
    → Keeps outside_classes (resolve_line y c line resolved)
unfolding resolve_line
resolve_line-Keeps y c line resolved s = elim (Option-cases (level_of line.to_level_id s)) [
  | inl no_level ↦ rw (no_level, resolve_line) refl
  | inr (level, l) ↦ elim (Option-cases (get_class_by_id c s)) [
    | inl no_source ↦ rw (l, no_source, resolve_line) refl
    | inr (source, k) ↦
        rw (l, k, resolve_line)
          (Keeps-bind outside_classes (ensure_class y line source level)
            (λ id. pure ((cell_of line, id) ∷ resolved)) (ensure_class-Keeps y line source level)
            (λ id t. refl) s)
  ]
]

resolve_target-Keeps :
    (a : RolloverAction) (from : Option ℕ) (y : ℕ) (line : LineRow) (resolved : Resolved)
    → Keeps outside_classes (resolve_target a from y line resolved)
unfolding resolve_target
resolve_target-Keeps promote none y line resolved s = refl
resolve_target-Keeps promote (some from) y line resolved s =
    elim (Bool-cases (is_some (resolved_class (cell_of line) resolved))) [
      | inl known ↦ rw known refl
      | inr new ↦ rw new (resolve_line-Keeps y from line resolved s)
    ]
resolve_target-Keeps graduate from y line resolved s = refl
resolve_target-Keeps withdraw from y line resolved s = refl
resolve_target-Keeps hold from y line resolved s = refl

pub resolve_classes-Keeps :
    (y : ℕ) (lines : List LineRow) (resolved : Resolved)
    → Keeps outside_classes (resolve_classes y lines resolved)
unfolding resolve_classes resolve_round
resolve_classes-Keeps y [] resolved s = refl
resolve_classes-Keeps y (line ∷ lines) resolved s =
    Keeps-bind outside_classes (resolve_round y line resolved) (λ r. resolve_classes y lines r)
      (resolve_target-Keeps (effective_action line) line.from_class_id y line resolved)
      (resolve_classes-Keeps y lines) s

apply_action-Keeps :
    (action : RolloverAction) (target d by : Option ℕ) (line : LineRow) (applied : List ℕ)
    → Keeps outside_lines (apply_action action target d by line applied)
unfolding apply_action apply_promotion apply_exit record_class_change
apply_action-Keeps promote none d by line applied s = refl
apply_action-Keeps promote (some c) d by line applied s = refl
apply_action-Keeps graduate target d by line applied s = refl
apply_action-Keeps withdraw target d by line applied s = refl
apply_action-Keeps hold target d by line applied s = refl

apply_round-Keeps :
    (resolved : Resolved) (d by : Option ℕ) (line : LineRow) (applied : List ℕ)
    → Keeps outside_lines (apply_round resolved d by line applied)
unfolding apply_round
apply_round-Keeps resolved d by line applied =
    apply_action-Keeps (effective_action line) (resolved_class (cell_of line) resolved) d by line
      applied

pub apply_lines-Keeps :
    (resolved : Resolved) (d by : Option ℕ) (lines : List LineRow) (applied : List ℕ)
    → Keeps outside_lines (apply_lines resolved d by lines applied)
unfolding apply_lines
apply_lines-Keeps resolved d by [] applied s = refl
apply_lines-Keeps resolved d by (line ∷ lines) applied s =
    Keeps-bind outside_lines (apply_round resolved d by line applied)
      (λ r. apply_lines resolved d by lines r) (apply_round-Keeps resolved d by line applied)
      (apply_lines-Keeps resolved d by lines) s
