-- ===== src/Rollover/Commit/Lines.antt =====
-- The second loop of `commit_year_rollover` in app/domains/tenant/tenant_repository.py: the students
-- and their lines.
use sams_backend.Base.{
  ℕ, List, [], ◌∷◌, ◌++◌, Option, none, some, Bool, not, ◌&&◌, ◌==◌, nat_eq, string_eq, contains,
  update_rows, is_some, Action, pure, raise, modify, ◌>>=◌, ◌>>◌, value_error,
}
use sams_backend.Tenant.{Store, StudentRow, StudentStatus, graduated, withdrawn}
use sams_backend.Tenant.Years.{
  RolloverAction, promote, graduate, hold, withdraw, action_eq, LineRow,
}
use sams_backend.Rollover.Service.{effective_action}
use sams_backend.Rollover.Commit.Targets.{Resolved, resolved_class, cell_of}

abbrev pub is_student : ℕ → StudentRow → Bool
is_student student_id t = t.id == student_id

abbrev pub is_line : ℕ → LineRow → Bool
is_line line_id l = l.id == line_id

-- `_record_class_change`
unfoldable pub record_class_change : ℕ → Option ℕ → Option ℕ → Option ℕ → Store → Store
record_class_change student_id old new changed_by s = record s {
  class_history =
      s.class_history
      ++ record {
        student_id = student_id;
        old_class_id = old;
        new_class_id = new;
        changed_by = changed_by;
      }
        ∷ [];
}

unfoldable pub apply_promotion : ℕ → LineRow → Option ℕ → Store → Store
unfolding record_class_change
apply_promotion class_id line changed_by s =
    record_class_change line.student_id line.from_class_id (some class_id) changed_by (record s {
      students =
          update_rows (is_student line.student_id)
            (λ (t : StudentRow). record t { class_id = some class_id }) s.students;
      rollover_lines =
          update_rows (is_line line.id) (λ (l : LineRow). record l { to_class_id = some class_id })
            s.rollover_lines;
    })

unfoldable pub apply_exit : StudentStatus → Option ℕ → LineRow → Option ℕ → Store → Store
unfolding record_class_change
apply_exit status exit_date line changed_by s =
    record_class_change line.student_id line.from_class_id none changed_by (record s {
      students =
          update_rows (is_student line.student_id)
            (λ (t : StudentRow). record t {
              class_id = none;
              status = status;
              exited_on = exit_date;
            })
            s.students;
    })

-- The branches of the second loop's body, on the effective action and the class that the line's cell
-- was resolved to, with the keys of the lines applied so far.
unfoldable pub apply_action :
    RolloverAction → Option ℕ → Option ℕ → Option ℕ → LineRow → List ℕ → Action Store (List ℕ)
unfolding apply_promotion apply_exit
apply_action promote none exit_date changed_by line applied =
    raise (value_error "could not resolve a target class -- aborting commit")
apply_action promote (some class_id) exit_date changed_by line applied =
    modify (apply_promotion class_id line changed_by) >> pure (applied ++ line.id ∷ [])
apply_action graduate target exit_date changed_by line applied =
    modify (apply_exit graduated exit_date line changed_by) >> pure (applied ++ line.id ∷ [])
apply_action withdraw target exit_date changed_by line applied =
    modify (apply_exit withdrawn exit_date line changed_by) >> pure (applied ++ line.id ∷ [])
apply_action hold target exit_date changed_by line applied = pure applied

-- One round of the second loop.
unfoldable pub apply_round :
    Resolved → Option ℕ → Option ℕ → LineRow → List ℕ → Action Store (List ℕ)
unfolding apply_action
apply_round resolved exit_date changed_by line applied =
    apply_action (effective_action line) (resolved_class (cell_of line) resolved) exit_date
      changed_by line applied

-- "2. Apply each line's effective action."
unfoldable pub apply_lines :
    Resolved → Option ℕ → Option ℕ → List LineRow → List ℕ → Action Store (List ℕ)
apply_lines resolved exit_date changed_by [] applied = pure applied
apply_lines resolved exit_date changed_by (line ∷ lines) applied = do
  applied' ← apply_round resolved exit_date changed_by line applied
  apply_lines resolved exit_date changed_by lines applied'

-- `UPDATE year_rollover_line SET applied_at = … WHERE id = ANY($1) AND applied_at IS NULL`
abbrev pub is_unstamped : List ℕ → LineRow → Bool
is_unstamped ids l = contains l.id ids && not (is_some l.applied_at)

unfoldable pub stamp_applied : ℕ → List ℕ → Store → Store
stamp_applied now ids s = record s {
  rollover_lines =
      update_rows (is_unstamped ids) (λ (l : LineRow). record l { applied_at = some now })
        s.rollover_lines;
}
