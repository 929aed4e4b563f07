-- ===== src/Rollover/Placement.antt =====
-- Where a call of `commit_rollover` (app/domains/tenant/service.py) leaves a student.
use sams_backend.Base.{
  ℕ, List, [], ◌∷◌, Option, none, some, true, ◌==◌, nat_eq, first_row, Bool-cases, some_inj,
  bind-steps, Result, ok, ◌≡◌, refl, sym, ap, ◌∙◌, inl, inr,
}
use sams_backend.Authz.{RoleArg}
use sams_backend.Tenant.{Store, StudentRow, graduated, withdrawn, ClassRow, LevelRow}
use sams_backend.Tenant.Years.{
  LineRow, RolloverAction, promote, graduate, hold, withdraw, RolloverRow, YearRow, committing,
}
use sams_backend.Rollover.Plan.{Cell}
use sams_backend.Rollover.Service.{
  effective_action, get_year_rollover_by_id, is_previewed, get_academic_year_by_id,
}
use sams_backend.Rollover.Commit.{
  Resolved, cell_of, resolved_class, apply_action, apply_round, apply_lines, pending_lines,
  end_date_of, stamp_applied, commit_rollover, update_rollover, is_student, set_state,
}
use sams_backend.Rollover.Calendar.{
  outside_classes, outside_lines, resolve_classes-Keeps, apply_lines-Keeps,
}
use sams_backend.Rollover.Students.{
  student_at, leave, is_for, distinct_students, moved, apply_lines-student,
}
use sams_backend.Rollover.Classes.{
  ClassFor, resolve_classes-AllPlaced, resolved_class-ClassFor, ClassFor-same,
}
use sams_backend.Rollover.CommitRun.{commit_rollover-run}

-- What the effective action of a line means for the student's row at the end: a place in a class of
-- the new year, named after the line's target; an exit; or no change.
abbrev pub Fate : RolloverAction → ℕ → Option ℕ → Cell → StudentRow → ℕ → Store → Type 0
Fate promote year_id exit_date key t k s' =
    (class_id : ℕ) × (student_at k s' ≡ some (record t { class_id = some class_id }))
    × ClassFor year_id s' key class_id
Fate graduate year_id exit_date key t k s' = student_at k s' ≡ some (leave graduated exit_date t)
Fate withdraw year_id exit_date key t k s' = student_at k s' ≡ some (leave withdrawn exit_date t)
Fate hold year_id exit_date key t k s' = student_at k s' ≡ some t

Fate-of :
    (a : RolloverAction) (y : ℕ) (until : Option ℕ) (key : Cell) (target : Option ℕ)
    (t : StudentRow) (k : ℕ) (s' : Store)
    → (a ≡ promote → (c : ℕ) × (target ≡ some c))
    → ((c : ℕ) → target ≡ some c → ClassFor y s' key c)
    → student_at k s' ≡ some (moved a target until t)
    → Fate a y until key t k s'
Fate-of promote y until key none t k s' has placed at = let (c, absurd) = has refl in cc
Fate-of promote y until key (some c) t k s' has placed at = (c, at, placed c refl)
Fate-of graduate y until key target t k s' has placed at = at
Fate-of withdraw y until key target t k s' has placed at = at
Fate-of hold y until key target t k s' has placed at = at

-- A loop that returns has a class for every promotion.
apply_action-target :
    (a : RolloverAction) (target until by : Option ℕ) (line : LineRow) (ids ids' : List ℕ)
    (s s' : Store)
    → apply_action a target until by line ids s ≡ (ok ids', s')
    → a ≡ promote
    → (c : ℕ) × (target ≡ some c)
unfolding apply_action
apply_action-target promote none until by line ids ids' s s' h e = cc
apply_action-target promote (some c) until by line ids ids' s s' h e = (c, refl)
apply_action-target graduate target until by line ids ids' s s' h e = cc
apply_action-target withdraw target until by line ids ids' s s' h e = cc
apply_action-target hold target until by line ids ids' s s' h e = cc

module _ (resolved : Resolved) (until by : Option ℕ) where
  apply_round-target :
      (line : LineRow) (ids ids' : List ℕ) (s s' : Store)
      → apply_round resolved until by line ids s ≡ (ok ids', s')
      → effective_action line ≡ promote
      → (c : ℕ) × (resolved_class (cell_of line) resolved ≡ some c)
  unfolding apply_round
  apply_round-target line ids ids' s s' h e =
      apply_action-target (effective_action line) (resolved_class (cell_of line) resolved) until by
        line ids ids' s s' h e

  apply_lines-target :
      (lines : List LineRow) (k : ℕ) (line : LineRow) (ids ids' : List ℕ) (s s' : Store)
      → apply_lines resolved until by lines ids s ≡ (ok ids', s')
      → first_row (is_for k) lines ≡ some line
      → effective_action line ≡ promote
      → (c : ℕ) × (resolved_class (cell_of line) resolved ≡ some c)
  unfolding apply_lines
  apply_lines-target [] k line ids ids' s s' h at e = cc
  apply_lines-target (l ∷ lines) k line ids ids' s s' h at e =
      let (mid, t, first, rest) =
        bind-steps (apply_round resolved until by l ids)
          (λ r. apply_lines resolved until by lines r) s s' ids' h in
      elim (Bool-cases (is_for k l)) [
        | inl hit ↦
            let same = some_inj l line (sym (rw hit refl) ∙ at) in
            rw (sym same) (apply_round-target l ids mid s t first (ap effective_action same ∙ e))
        | inr miss ↦ apply_lines-target lines k line mid ids' t s' rest (sym (rw miss refl) ∙ at) e
      ]

-- Where a commit from a previewed rollover returns, and no student has two pending lines, each student
-- with a pending line ends as the line's effective action says: promoted into a class of the new year
-- with the name of the line's target, graduated or withdrawn without a class at the end date of the
-- year that ends, or unchanged.
pub commit_rollover_places :
    (now rid : ℕ) (by : Option ℕ) (user_role : RoleArg) (row : RolloverRow) (s s' : Store)
    (out : Option RolloverRow) (k : ℕ) (line : LineRow) (t : StudentRow)
    → get_year_rollover_by_id rid s ≡ some row
    → is_previewed row.state ≡ true
    → distinct_students (pending_lines rid s) ≡ true
    → first_row (is_for k) (pending_lines rid s) ≡ some line
    → student_at k s ≡ some t
    → commit_rollover now rid by user_role s ≡ (ok out, s')
    → Fate
        (effective_action line)
        row.to_year_id
        (end_date_of (get_academic_year_by_id row.from_year_id s))
        (cell_of line)
        t
        k
        s'
unfolding update_rollover get_academic_year_by_id stamp_applied
commit_rollover_places now rid by user_role row s s' out k line t found previewed distinct has at
      h =
    let run = commit_rollover-run now rid by user_role row s s' out found previewed h in
    let lines = pending_lines rid s in
    let s1 = update_rollover rid (set_state committing) s in
    let until = end_date_of (get_academic_year_by_id row.from_year_id run.ready) in
    let kept : outside_classes run.ready ≡ outside_classes s1 =
      ap (λ (x : Result Resolved × Store). outside_classes x.1) (sym run.resolving)
      ∙ resolve_classes-Keeps row.to_year_id lines [] s1 in
    let kept' : outside_lines run.done ≡ outside_lines run.ready =
      ap (λ (x : Result (List ℕ) × Store). outside_lines x.1) (sym run.applying)
      ∙ apply_lines-Keeps run.resolved until by lines [] run.ready in
    let same_until : until ≡ end_date_of (get_academic_year_by_id row.from_year_id s) =
      ap
        (λ (v : List YearRow × List RolloverRow × List StudentRow × List LineRow).
          end_date_of (first_row (λ (x : YearRow). x.id == row.from_year_id) v.0))
        kept in
    let before : student_at k run.ready ≡ some t =
      ap
        (λ (v : List YearRow × List RolloverRow × List StudentRow × List LineRow).
          first_row (is_student k) v.2)
        kept
      ∙ at in
    let after : student_at k s' ≡ student_at k run.done = ap (student_at k) (sym run.finished) in
    let target = resolved_class (cell_of line) run.resolved in
    let ended : student_at k s' ≡ some (moved (effective_action line) target until t) =
      after
      ∙ apply_lines-student run.resolved until by lines k [] run.ids run.ready run.done distinct
          run.applying
      ∙ rw (has, before) refl in
    let classes : s'.classes ≡ run.ready.classes =
      ap (λ (x : Store). x.classes) (sym run.finished)
      ∙ ap (λ (v : List YearRow × List RolloverRow × List ClassRow × List LevelRow). v.2) kept' in
    let levels : s'.levels ≡ run.ready.levels =
      ap (λ (x : Store). x.levels) (sym run.finished)
      ∙ ap (λ (v : List YearRow × List RolloverRow × List ClassRow × List LevelRow). v.3) kept' in
    let all =
      resolve_classes-AllPlaced row.to_year_id lines [] run.resolved s1 run.ready tt
        run.resolving in
    Fate-of (effective_action line) row.to_year_id
      (end_date_of (get_academic_year_by_id row.from_year_id s)) (cell_of line) target t k s'
      (apply_lines-target run.resolved until by lines k line [] run.ids run.ready run.done
        run.applying has)
      (λ c hit.
        ClassFor-same row.to_year_id run.ready s' (cell_of line) c levels classes
          (resolved_class-ClassFor row.to_year_id run.ready (cell_of line) c run.resolved all hit))
      (ended ∙ ap (λ (d : Option ℕ). some (moved (effective_action line) target d t)) same_until)
