-- ===== src/Rollover/Students.antt =====
-- What the second loop of `commit_year_rollover` (app/domains/tenant/tenant_repository.py) does to the
-- row of one student.
use mathlib.Core.Option
use sams_backend.Base.{
  ℕ, List, [], ◌∷◌, ◌++◌, Option, none, some, Bool, true, false, not, ◌&&◌, ◌==◌, nat_eq, any,
  first_row, update_rows, first_row-update_rows, first_row-update_rows_ne, Bool-cases, ok,
  bind-steps, pure-steps, ◌≡◌, refl, sym, ap, ◌∙◌, inl, inr, arith,
}
use sams_backend.Tenant.{Store, StudentRow, StudentStatus, graduated, withdrawn}
use sams_backend.Tenant.Years.{LineRow, RolloverAction, promote, graduate, hold, withdraw}
use sams_backend.Rollover.Service.{effective_action}
use sams_backend.Rollover.Commit.{
  Resolved, cell_of, resolved_class, apply_action, apply_round, apply_lines, is_student,
  apply_promotion, apply_exit, record_class_change,
}

abbrev pub student_at : ℕ → Store → Option StudentRow
student_at k s = first_row (is_student k) s.students

abbrev pub leave : StudentStatus → Option ℕ → StudentRow → StudentRow
leave status exit_date t = record t { class_id = none; status = status; exited_on = exit_date }

-- What an action means for its student: a place in the class that the cell was resolved to, an exit,
-- or nothing.
abbrev pub moved : RolloverAction → Option ℕ → Option ℕ → StudentRow → StudentRow
moved promote none exit_date t = t
moved promote (some class_id) exit_date t = record t { class_id = some class_id }
moved graduate target exit_date t = leave graduated exit_date t
moved withdraw target exit_date t = leave withdrawn exit_date t
moved hold target exit_date t = t

-- No student has two of the lines.
abbrev pub is_for : ℕ → LineRow → Bool
is_for k l = l.student_id == k

unfoldable pub distinct_students : List LineRow → Bool
distinct_students [] = true
distinct_students (l ∷ ls) = not (any (is_for l.student_id) ls) && distinct_students ls

is_student-apart :
    (j k : ℕ) (t : StudentRow) → (j == k) ≡ false → is_student j t ≡ true → is_student k t ≡ false
is_student-apart j k t apart h = ground arith

update-same : (p : StudentRow → Bool) (ts : List StudentRow) → update_rows p (λ t. t) ts ≡ ts
update-same p [] = refl
update-same p (t ∷ ts) = ground (arith, update-same p ts)

apply_action-students :
    (action : RolloverAction) (target until by : Option ℕ) (line : LineRow) (ids ids' : List ℕ)
    (s s' : Store)
    → apply_action action target until by line ids s ≡ (ok ids', s')
    → s'.students ≡ update_rows (is_student line.student_id) (moved action target until) s.students
unfolding apply_action apply_promotion apply_exit record_class_change
apply_action-students promote none until by line ids ids' s s' h = cc
apply_action-students promote (some c) until by line ids ids' s s' h = sym (
    ap (λ (x : Store). x.students)
      (pure-steps (ids ++ line.id ∷ []) ids' (apply_promotion c line by s) s' h).1)
apply_action-students graduate target until by line ids ids' s s' h = sym (
    ap (λ (x : Store). x.students)
      (pure-steps (ids ++ line.id ∷ []) ids' (apply_exit graduated until line by s) s' h).1)
apply_action-students withdraw target until by line ids ids' s s' h = sym (
    ap (λ (x : Store). x.students)
      (pure-steps (ids ++ line.id ∷ []) ids' (apply_exit withdrawn until line by s) s' h).1)
apply_action-students hold target until by line ids ids' s s' h =
    sym (ap (λ (x : Store). x.students) (pure-steps ids ids' s s' h).1)
    ∙ sym (update-same (is_student line.student_id) s.students)

-- What the line of a student, where there is one, does to the row.
abbrev pub line_effect : Resolved → Option ℕ → Option LineRow → StudentRow → StudentRow
line_effect resolved until none t = t
line_effect resolved until (some line) t =
    moved (effective_action line) (resolved_class (cell_of line) resolved) until t

same-student :
    (action : RolloverAction) (target until : Option ℕ) (k : ℕ) (t : StudentRow)
    → is_student k (moved action target until t) ≡ is_student k t
same-student promote none until k t = refl
same-student promote (some c) until k t = refl
same-student graduate target until k t = refl
same-student withdraw target until k t = refl
same-student hold target until k t = refl

distinct_students-cons :
    (line : LineRow) (lines : List LineRow)
    → distinct_students (line ∷ lines) ≡ true
    → (any (is_for line.student_id) lines ≡ false) × (distinct_students lines ≡ true)
unfolding distinct_students
distinct_students-cons line lines h = ground arith

first_row-none : (p : LineRow → Bool) (ls : List LineRow) → any p ls ≡ false → first_row p ls ≡ none
first_row-none p [] h = refl
first_row-none p (l ∷ ls) h = ground (arith, first_row-none p ls)

map-id : (o : Option StudentRow) → Option.map (λ t. t) o ≡ o
map-id none = refl
map-id (some t) = refl

module _ (resolved : Resolved) (until by : Option ℕ) where
  apply_round_self :
      (line : LineRow) (ids ids' : List ℕ) (s s' : Store)
      → apply_round resolved until by line ids s ≡ (ok ids', s')
      → student_at line.student_id s'
        ≡ Option.map (line_effect resolved until (some line)) (student_at line.student_id s)
  unfolding apply_round
  apply_round_self line ids ids' s s' h =
      let a = effective_action line in
      let c = resolved_class (cell_of line) resolved in
      ap (first_row (is_student line.student_id))
        (apply_action-students a c until by line ids ids' s s' h)
      ∙ first_row-update_rows (is_student line.student_id) (moved a c until)
          (same-student a c until line.student_id) s.students

  apply_round_other :
      (line : LineRow) (k : ℕ) (ids ids' : List ℕ) (s s' : Store)
      → (line.student_id == k) ≡ false
      → apply_round resolved until by line ids s ≡ (ok ids', s')
      → student_at k s' ≡ student_at k s
  unfolding apply_round
  apply_round_other line k ids ids' s s' apart h =
      let a = effective_action line in
      let c = resolved_class (cell_of line) resolved in
      ap (first_row (is_student k)) (apply_action-students a c until by line ids ids' s s' h)
      ∙ first_row-update_rows_ne (is_student line.student_id) (moved a c until) (is_student k)
          (λ t. is_student-apart line.student_id k t apart)
          (λ t hit. same-student a c until k t ∙ is_student-apart line.student_id k t apart hit)
          s.students

  pub apply_lines-student :
      (lines : List LineRow) (k : ℕ) (ids ids' : List ℕ) (s s' : Store)
      → distinct_students lines ≡ true
      → apply_lines resolved until by lines ids s ≡ (ok ids', s')
      → student_at k s'
        ≡ Option.map (line_effect resolved until (first_row (is_for k) lines)) (student_at k s)
  unfolding apply_lines distinct_students
  apply_lines-student [] k ids ids' s s' distinct h =
      ap (student_at k) (sym (pure-steps ids ids' s s' h).1) ∙ sym (map-id (student_at k s))
  apply_lines-student (line ∷ lines) k ids ids' s s' distinct h =
      let (fresh, distinct') = distinct_students-cons line lines distinct in
      let (ids1, t, e, rest) =
        bind-steps (apply_round resolved until by line ids)
          (λ r. apply_lines resolved until by lines r) s s' ids' h in
      let tail = apply_lines-student lines k ids1 ids' t s' distinct' rest in
      elim (Bool-cases (line.student_id == k)) [
        | inl same ↦
            let key = (nat_eq.test_iff line.student_id k).0 same in
            let gone =
              first_row-none (is_for k) lines (ap (λ j. any (is_for j) lines) (sym key) ∙ fresh) in
            let still : student_at k s' ≡ student_at k t =
              tail
              ∙ ap (λ o. Option.map (line_effect resolved until o) (student_at k t)) gone
              ∙ map-id (student_at k t) in
            let here : student_at k t
                ≡ Option.map (line_effect resolved until (some line)) (student_at k s) =
              rw (sym key) (apply_round_self line ids ids1 s t e) in
            rw same (still ∙ here)
        | inr other ↦ rw other (
            tail
            ∙ ap (Option.map (line_effect resolved until (first_row (is_for k) lines)))
                (apply_round_other line k ids ids1 s t other e))
      ]
