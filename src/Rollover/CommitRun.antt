-- ===== src/Rollover/CommitRun.antt =====
-- The stages of a call of `commit_rollover` (app/domains/tenant/service.py) that returns.
use sams_backend.Base.{
  ℕ, List, [], Option, some, true, false, nat_eq, update_rows, bind-steps, guarded-steps, gets,
  pure-steps, refusal-steps, ok, permission_error, unique_violation, ⊤, modify, ◌>>◌, ◌≡◌, refl,
  sym, ap, ◌∙◌, arith,
}
use sams_backend.Authz.{RoleArg, require, any_of}
use sams_backend.Tenant.{Store}
use sams_backend.Tenant.Years.{LineRow, RolloverState, committing, RolloverRow, YearRow}
use sams_backend.Rollover.Service.{
  get_year_rollover_by_id, admin_roles, get_academic_year_by_id, is_committed, is_previewed,
}
use sams_backend.Rollover.Commit.{
  Resolved, resolve_classes, apply_lines, stamp_applied, flip_years, summary_of, count_active,
  commit_body, commit_previewed, commit_rollover, end_date_of, pending_lines, is_year, close_year,
  open_year, update_rollover, commit_row, turn_over, apply_and_turn, at_most_one, set_state,
}

-- The years after the turn.
abbrev pub turned_years : ℕ → ℕ → List YearRow → List YearRow
turned_years from_year_id to_year_id years =
    update_rows (is_year to_year_id) (open_year from_year_id)
      (update_rows (is_year from_year_id) close_year years)

abbrev pub turned_store : RolloverRow → Store → Store
turned_store row s = record s { years = turned_years row.from_year_id row.to_year_id s.years }

flip_years-steps :
    (row : RolloverRow) (s s' : Store) (u : ⊤)
    → flip_years row.from_year_id row.to_year_id s ≡ (ok u, s')
    → (at_most_one (count_active (turned_store row s).years) ≡ true) × (turned_store row s ≡ s')
unfolding flip_years
flip_years-steps row s s' u h =
    refusal-steps (at_most_one (count_active (turned_store row s).years))
      (unique_violation "one_active_academic_year") tt u (turned_store row s) s s' h

-- The store after the turn.
abbrev pub book_store : ℕ → RolloverRow → List LineRow → Store → Store
book_store rid row lines s =
    update_rollover rid (commit_row (summary_of lines)) (turned_store row s)

turn_over-steps :
    (rid : ℕ) (row : RolloverRow) (lines : List LineRow) (s s' : Store) (out : Option RolloverRow)
    → turn_over rid row lines s ≡ (ok out, s')
    → (at_most_one (count_active (turned_store row s).years) ≡ true)
      × (book_store rid row lines s ≡ s')
      × (out ≡ get_year_rollover_by_id rid s')
unfolding turn_over
turn_over-steps rid row lines s s' out h =
    let book = update_rollover rid (commit_row (summary_of lines)) in
    let (u, t, flipped, rest) =
      bind-steps (flip_years row.from_year_id row.to_year_id)
        (λ _. modify book >> gets (get_year_rollover_by_id rid)) s s' out h in
    let (one, e) = flip_years-steps row s t u flipped in
    let (o, e') = pure-steps (get_year_rollover_by_id rid (book t)) out (book t) s' rest in
    (one, ap book e ∙ e', sym o ∙ ap (get_year_rollover_by_id rid) e')

-- The stages of a commit that returns: the classes, the lines, the turn.
pub record CommitRun (now rid : ℕ) (by : Option ℕ) (row : RolloverRow) (out : Option RolloverRow)
    (s s' : Store) : Type 0 where
  pub resolved : Resolved
  pub ready : Store
  pub ids : List ℕ
  pub done : Store
  pub resolving :
      resolve_classes row.to_year_id
        (pending_lines rid s)
        []
        (update_rollover rid (set_state committing) s)
      ≡ (ok resolved, ready)
  pub applying :
      apply_lines resolved
        (end_date_of (get_academic_year_by_id row.from_year_id ready))
        by
        (pending_lines rid s)
        []
        ready
      ≡ (ok ids, done)
  pub one_left :
      at_most_one (count_active (turned_store row (stamp_applied now ids done)).years) ≡ true
  pub finished : book_store rid row (pending_lines rid s) (stamp_applied now ids done) ≡ s'
  pub returned : out ≡ get_year_rollover_by_id rid s'

commit_previewed-run :
    (now rid : ℕ) (by : Option ℕ) (row : RolloverRow) (s s' : Store) (out : Option RolloverRow)
    → commit_previewed now rid by row s ≡ (ok out, s')
    → CommitRun now rid by row out s s'
unfolding commit_previewed apply_and_turn pending_lines update_rollover
commit_previewed-run now rid by row s s' out h =
    let lines = pending_lines rid s in
    let (found, t, e, rest) =
      bind-steps (resolve_classes row.to_year_id lines [])
        (λ r. apply_and_turn now rid by row lines r) (update_rollover rid (set_state committing) s)
        s' out h in
    let (keys, u, f, last) =
      bind-steps
        (apply_lines found (end_date_of (get_academic_year_by_id row.from_year_id t)) by lines [])
        (λ r. modify (stamp_applied now r) >> turn_over rid row lines) t s' out rest in
    let (one, whole, o) = turn_over-steps rid row lines (stamp_applied now keys u) s' out last in
    record {
      resolved = found;
      ready = t;
      ids = keys;
      done = u;
      resolving = e;
      applying = f;
      one_left = one;
      finished = whole;
      returned = o;
    }

is_committed-previewed :
    (state : RolloverState) → is_previewed state ≡ true → is_committed state ≡ false
is_committed-previewed state h = ground arith

commit_body-previewed :
    (now rid : ℕ) (by : Option ℕ) (row : RolloverRow) (s : Store)
    → get_year_rollover_by_id rid s ≡ some row
    → is_previewed row.state ≡ true
    → commit_body now rid by s ≡ commit_previewed now rid by row s
unfolding commit_body
commit_body-previewed now rid by row s found previewed =
    rw (found, commit_body, is_committed-previewed row.state previewed, previewed) refl

-- A call that returns, from a previewed rollover, has gone through the stages.
pub commit_rollover-run :
    (now rid : ℕ) (by : Option ℕ) (user_role : RoleArg) (row : RolloverRow) (s s' : Store)
    (out : Option RolloverRow)
    → get_year_rollover_by_id rid s ≡ some row
    → is_previewed row.state ≡ true
    → commit_rollover now rid by user_role s ≡ (ok out, s')
    → CommitRun now rid by row out s s'
unfolding commit_rollover
commit_rollover-run now rid by user_role row s s' out found previewed h =
    let (may, body) =
      guarded-steps (require user_role (any_of admin_roles))
        (permission_error "Only a school admin can commit a rollover") (commit_body now rid by) s s'
        out h in
    commit_previewed-run now rid by row s s' out
      (sym (commit_body-previewed now rid by row s found previewed) ∙ body)
