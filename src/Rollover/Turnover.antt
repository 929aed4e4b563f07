-- ===== src/Rollover/Turnover.antt =====
-- What a call of `commit_rollover` (app/domains/tenant/service.py) does to the years and to the
-- rollover's row, and what it leaves when it fails.
use mathlib.Core.Option
use sams_backend.Base.{
  ℕ, ◌+◌, List, [], ◌∷◌, Option, some, true, nat_eq, update_rows, length, guarded-rollback,
  guarded-ok, ok, err, Error, permission_error, ◌≡◌, refl, arith,
}
use sams_backend.Authz.{RoleArg, require, any_of}
use sams_backend.Tenant.{Store}
use sams_backend.Tenant.Years.{LineRow, RolloverRow}
use sams_backend.Rollover.Service.{get_year_rollover_by_id, admin_roles, is_committed}
use sams_backend.Rollover.Commit.{
  count_action, summary_of, count_active, commit_body, commit_rollover, commit_row, at_most_one,
  is_rollover,
}
use sams_backend.Rollover.CommitRun.{turned_years, CommitRun}

-- The numbers of the summary add up to the number of lines: each line is counted once.
pub summary_of-total :
    (lines : List LineRow)
    → (summary_of lines).promoted
        + (summary_of lines).graduated
        + (summary_of lines).withdrawn
        + (summary_of lines).held
      ≡ length lines
unfolding summary_of count_action
summary_of-total [] = refl
summary_of-total (l ∷ ls) = ground (arith, summary_of-total ls)

-- A commit that fails changes nothing.
pub commit_rollover_atomic :
    (now rollover_id : ℕ) (changed_by : Option ℕ) (user_role : RoleArg) (e : Error) (s s' : Store)
    → commit_rollover now rollover_id changed_by user_role s ≡ (err e, s')
    → s' ≡ s
unfolding commit_rollover
commit_rollover_atomic now rollover_id changed_by user_role e s s' h =
    guarded-rollback (require user_role (any_of admin_roles))
      (permission_error "Only a school admin can commit a rollover")
      (commit_body now rollover_id changed_by) s s' e h

-- What a store's calendar is after a commit of the rollover with these lines.
record TurnedOver (rid : ℕ) (row : RolloverRow) (lines : List LineRow) (s s' : Store) : Type 0 where
  years_turned : s'.years ≡ turned_years row.from_year_id row.to_year_id s.years
  one_active : at_most_one (count_active s'.years) ≡ true
  row_committed :
      s'.rollovers ≡ update_rows (is_rollover rid) (commit_row (summary_of lines)) s.rollovers

commit_body-committed :
    (now rid : ℕ) (by : Option ℕ) (row : RolloverRow) (s : Store)
    → get_year_rollover_by_id rid s ≡ some row
    → is_committed row.state ≡ true
    → commit_body now rid by s ≡ (ok (some row), s)
unfolding commit_body
commit_body-committed now rid by row s found done = rw (found, commit_body, done) refl

-- A second commit returns the row as it stands and changes nothing.
pub commit_rollover_again :
    (now rid : ℕ) (by : Option ℕ) (user_role : RoleArg) (row : RolloverRow) (s : Store)
    → require user_role (any_of admin_roles) ≡ true
    → get_year_rollover_by_id rid s ≡ some row
    → is_committed row.state ≡ true
    → commit_rollover now rid by user_role s ≡ (ok (some row), s)
unfolding commit_rollover
commit_rollover_again now rid by user_role row s may found done =
    guarded-ok (require user_role (any_of admin_roles))
      (permission_error "Only a school admin can commit a rollover") (commit_body now rid by) s s
      (some row) may (commit_body-committed now rid by row s found done)
