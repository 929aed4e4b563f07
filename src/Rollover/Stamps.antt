-- ===== src/Rollover/Stamps.antt =====
-- Which lines a call of `commit_rollover` (app/domains/tenant/service.py) stamps as applied.
use mathlib.Core.Option
use sams_backend.Base.{
  ℕ, List, [], ◌∷◌, ◌++◌, Option, none, some, Bool, true, false, not, ◌||◌, ◌==◌, nat_eq, contains,
  contains-append, if◌then◌else◌, first_row, where_rows, update_rows, Bool-cases, Result, ok, Keeps,
  Keeps-bind, bind-steps, pure-steps, ◌≡◌, refl, sym, ap, ◌∙◌, inl, inr, arith,
}
use sams_backend.Authz.{RoleArg}
use sams_backend.Tenant.{Store, StudentRow}
use sams_backend.Tenant.Years.{
  LineRow, RolloverAction, promote, graduate, hold, withdraw, action_eq, YearRow, RolloverRow,
  committing,
}
use sams_backend.Rollover.Service.{
  effective_action, is_blocking, line_ids, get_year_rollover_by_id, is_previewed,
  get_rollover_line_by_id, get_academic_year_by_id,
}
use sams_backend.Rollover.Commit.{
  Resolved, cell_of, resolved_class, apply_action, apply_round, apply_lines, is_line, is_unstamped,
  stamp_applied, apply_promotion, apply_exit, record_class_change, pending_lines, commit_rollover,
  update_rollover, set_state, end_date_of,
}
use sams_backend.Rollover.Calendar.{outside_classes, resolve_classes-Keeps}
use sams_backend.Rollover.CommitRun.{commit_rollover-run}

-- The keys of the lines that move their student.
abbrev pub moving_ids : List LineRow → List ℕ
moving_ids lines = line_ids (where_rows (λ (l : LineRow). not (is_blocking l)) lines)

-- The stamp of a line, if there is such a line.
abbrev pub stamp_at : ℕ → Store → Option (Option ℕ)
stamp_at k s = Option.map (λ (l : LineRow). l.applied_at) (get_rollover_line_by_id k s)

-- What the last update of a commit makes of a stamp.
abbrev pub stamped : ℕ → Bool → Option ℕ → Option ℕ
stamped now moves none = if moves then some now else none
stamped now moves (some time) = some time

abbrev stamp_line : ℕ → LineRow → LineRow
stamp_line now l = record l { applied_at = some now }

stamp_hit :
    (now : ℕ) (ids : List ℕ) (x : LineRow)
    → (if is_unstamped ids x then stamp_line now x else x).applied_at
      ≡ stamped now (contains x.id ids) x.applied_at
stamp_hit now ids x = ground arith

stamp_id : (now : ℕ) (b : Bool) (x : LineRow) → (if b then stamp_line now x else x).id ≡ x.id
stamp_id now true x = refl
stamp_id now false x = refl

stamp_rows :
    (now k : ℕ) (ids : List ℕ) (xs : List LineRow)
    → Option.map
        (λ (l : LineRow). l.applied_at)
        (first_row
          (λ (l : LineRow). l.id == k)
          (update_rows (is_unstamped ids) (stamp_line now) xs))
      ≡ Option.map
          (stamped now (contains k ids))
          (Option.map (λ (l : LineRow). l.applied_at) (first_row (λ (l : LineRow). l.id == k) xs))
stamp_rows now k ids [] = refl
stamp_rows now k ids (x ∷ xs) = elim (Bool-cases (x.id == k)) [
  | inl hit ↦
      let key = (nat_eq.test_iff x.id k).0 hit in
      rw (stamp_id now (is_unstamped ids x) x, hit)
        (ap some
          (stamp_hit now ids x ∙ ap (λ (j : ℕ). stamped now (contains j ids) x.applied_at) key))
  | inr miss ↦ rw (stamp_id now (is_unstamped ids x) x, miss) (stamp_rows now k ids xs)
]

module _ (k : ℕ) (q : LineRow → Bool) (f : LineRow → LineRow) where
  stamp-update_rows :
      ((x : LineRow) → (f x).id ≡ x.id)
      → ((x : LineRow) → (f x).applied_at ≡ x.applied_at)
      → (xs : List LineRow)
      → Option.map
          (λ (l : LineRow). l.applied_at)
          (first_row (λ (l : LineRow). l.id == k) (update_rows q f xs))
        ≡ Option.map (λ (l : LineRow). l.applied_at) (first_row (λ (l : LineRow). l.id == k) xs)
  stamp-update_rows same_id same_stamp [] = refl
  stamp-update_rows same_id same_stamp (x ∷ xs) =
      ground (arith, same_id x, same_stamp x, stamp-update_rows same_id same_stamp xs)

apply_action-Keeps_stamps :
    (k : ℕ) (a : RolloverAction) (target until by : Option ℕ) (line : LineRow) (ids : List ℕ)
    → Keeps (stamp_at k) (apply_action a target until by line ids)
unfolding apply_action apply_promotion apply_exit record_class_change get_rollover_line_by_id
apply_action-Keeps_stamps k promote none until by line ids s = refl
apply_action-Keeps_stamps k promote (some c) until by line ids s =
    stamp-update_rows k (is_line line.id) (λ (l : LineRow). record l { to_class_id = some c })
      (λ x. refl) (λ x. refl) s.rollover_lines
apply_action-Keeps_stamps k graduate target until by line ids s = refl
apply_action-Keeps_stamps k withdraw target until by line ids s = refl
apply_action-Keeps_stamps k hold target until by line ids s = refl

-- The keys that a round adds.
apply_action-ids :
    (a : RolloverAction) (target until by : Option ℕ) (line : LineRow) (ids ids' : List ℕ)
    (s s' : Store)
    → apply_action a target until by line ids s ≡ (ok ids', s')
    → ids' ≡ (if a == hold then ids else ids ++ line.id ∷ [])
unfolding apply_action apply_promotion apply_exit
apply_action-ids promote none until by line ids ids' s s' h = cc
apply_action-ids promote (some c) until by line ids ids' s s' h =
    sym (pure-steps (ids ++ line.id ∷ []) ids' (apply_promotion c line by s) s' h).0
apply_action-ids graduate target until by line ids ids' s s' h = cc
apply_action-ids withdraw target until by line ids ids' s s' h = cc
apply_action-ids hold target until by line ids ids' s s' h = sym (pure-steps ids ids' s s' h).0

or_chain : (a b c : Bool) → ((a || (b || false)) || c) ≡ (a || (b || c))
or_chain a b c = ground arith

or_false : (a : Bool) → a ≡ (a || false)
or_false a = ground arith

moving_ids-round :
    (k : ℕ) (line : LineRow) (lines : List LineRow) (ids : List ℕ)
    → (contains k (if effective_action line == hold then ids else ids ++ line.id ∷ [])
        || contains k (moving_ids lines))
      ≡ (contains k ids || contains k (moving_ids (line ∷ lines)))
moving_ids-round k line lines ids = elim (Bool-cases (effective_action line == hold)) [
  | inl held ↦ rw held refl
  | inr goes ↦
      rw (goes, contains-append k ids (line.id ∷ []))
        (or_chain (contains k ids) (line.id == k) (contains k (moving_ids lines)))
]

module _ (resolved : Resolved) (until by : Option ℕ) where
  pub apply_lines-Keeps_stamps :
      (k : ℕ) (lines : List LineRow) (ids : List ℕ)
      → Keeps (stamp_at k) (apply_lines resolved until by lines ids)
  unfolding apply_lines apply_round
  apply_lines-Keeps_stamps k [] ids s = refl
  apply_lines-Keeps_stamps k (line ∷ lines) ids s =
      Keeps-bind (stamp_at k) (apply_round resolved until by line ids)
        (λ r. apply_lines resolved until by lines r)
        (apply_action-Keeps_stamps k (effective_action line)
          (resolved_class (cell_of line) resolved) until by line ids)
        (apply_lines-Keeps_stamps k lines) s

  contains-apply_lines :
      (k : ℕ) (lines : List LineRow) (ids ids' : List ℕ) (s s' : Store)
      → apply_lines resolved until by lines ids s ≡ (ok ids', s')
      → contains k ids' ≡ (contains k ids || contains k (moving_ids lines))
  unfolding apply_lines apply_round
  contains-apply_lines k [] ids ids' s s' h =
      ap (contains k) (sym (pure-steps ids ids' s s' h).0) ∙ or_false (contains k ids)
  contains-apply_lines k (line ∷ lines) ids ids' s s' h =
      let (mid, t, e, rest) =
        bind-steps (apply_round resolved until by line ids)
          (λ r. apply_lines resolved until by lines r) s s' ids' h in
      let step =
        apply_action-ids (effective_action line) (resolved_class (cell_of line) resolved) until by
          line ids mid s t e in
      contains-apply_lines k lines mid ids' t s' rest
      ∙ ap (λ (r : List ℕ). contains k r || contains k (moving_ids lines)) step
      ∙ moving_ids-round k line lines ids

stamp_at-stamp_applied :
    (now k : ℕ) (ids : List ℕ) (s : Store)
    → stamp_at k (stamp_applied now ids s)
      ≡ Option.map (stamped now (contains k ids)) (stamp_at k s)
unfolding stamp_applied get_rollover_line_by_id
stamp_at-stamp_applied now k ids s = stamp_rows now k ids s.rollover_lines

-- A commit from a previewed rollover that returns stamps the pending lines that move their student,
-- and leaves the stamp of every other line: the held ones stay pending.
pub commit_rollover_stamps :
    (now rid : ℕ) (by : Option ℕ) (user_role : RoleArg) (row : RolloverRow) (s s' : Store)
    (out : Option RolloverRow) (k : ℕ)
    → get_year_rollover_by_id rid s ≡ some row
    → is_previewed row.state ≡ true
    → commit_rollover now rid by user_role s ≡ (ok out, s')
    → stamp_at k s'
      ≡ Option.map (stamped now (contains k (moving_ids (pending_lines rid s)))) (stamp_at k s)
unfolding update_rollover get_rollover_line_by_id
commit_rollover_stamps now rid by user_role row s s' out k found previewed h =
    let run = commit_rollover-run now rid by user_role row s s' out found previewed h in
    let lines = pending_lines rid s in
    let s1 = update_rollover rid (set_state committing) s in
    let until = end_date_of (get_academic_year_by_id row.from_year_id run.ready) in
    let kept : outside_classes run.ready ≡ outside_classes s1 =
      ap (λ (x : Result Resolved × Store). outside_classes x.1) (sym run.resolving)
      ∙ resolve_classes-Keeps row.to_year_id lines [] s1 in
    let before : stamp_at k run.done ≡ stamp_at k s =
      ap (λ (x : Result (List ℕ) × Store). stamp_at k x.1) (sym run.applying)
      ∙ apply_lines-Keeps_stamps run.resolved until by k lines [] run.ready
      ∙ ap
          (λ (v : List YearRow × List RolloverRow × List StudentRow × List LineRow).
            Option.map (λ (l : LineRow). l.applied_at) (first_row (λ (l : LineRow). l.id == k) v.3))
          kept in
    let counted : contains k run.ids ≡ contains k (moving_ids lines) =
      contains-apply_lines run.resolved until by k lines [] run.ids run.ready run.done
        run.applying in
    ap (stamp_at k) (sym run.finished)
    ∙ stamp_at-stamp_applied now k run.ids run.done
    ∙ ap (Option.map (stamped now (contains k run.ids))) before
    ∙ ap (λ (b : Bool). Option.map (stamped now b) (stamp_at k s)) counted
