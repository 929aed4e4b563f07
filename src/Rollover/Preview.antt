-- ===== src/Rollover/Preview.antt =====
-- When a call of `preview_rollover` (app/domains/tenant/service.py) opens the way to a commit.
use mathlib.Core.Option
use sams_backend.Base.{
  ℕ, List, [], ◌∷◌, none, some, Bool, true, false, not, ◌==◌, nat_eq, any, first_row, where_rows,
  first_row-update_rows, coalesce, if◌then◌else◌, Bool-cases, Result, ok, err, value_error, ◌≡◌,
  refl, ap, ◌∙◌, inl, inr, arith,
}
use sams_backend.Authz.{RoleArg, require, any_of}
use sams_backend.Tenant.{Store}
use sams_backend.Tenant.Years.{LineRow, RolloverRow, previewed}
use sams_backend.Rollover.Plan.{
  get_rollover_lines, recompute_rollover_lines, upsert_rollover_lines, upsert_each, upsert_line,
  PlannedLine, plan_lines, stays, student_ids,
}
use sams_backend.Rollover.Service.{
  RolloverView, get_year_rollover_by_id, admin_roles, is_committed, is_blocking, is_empty, line_ids,
  preview_rollover, get_rollover, update_rollover_state,
}

-- A recompute writes only lines.
upsert_each-rollovers :
    (rid : ℕ) (lines : List PlannedLine) (s : Store)
    → (upsert_each rid lines s).rollovers ≡ s.rollovers
unfolding upsert_each upsert_line
upsert_each-rollovers rid [] s = refl
upsert_each-rollovers rid (line ∷ lines) s =
    ground (arith, upsert_each-rollovers rid lines (upsert_line rid line s))

is_empty-where_rows :
    (p : LineRow → Bool) (ls : List LineRow) → is_empty (where_rows p ls) ≡ not (any p ls)
is_empty-where_rows p [] = refl
is_empty-where_rows p (l ∷ ls) = ground (arith, is_empty-where_rows p ls)

line_ids-none :
    (p : LineRow → Bool) (ls : List LineRow) → any p ls ≡ false → line_ids (where_rows p ls) ≡ []
line_ids-none p [] h = refl
line_ids-none p (l ∷ ls) h = ground (arith, line_ids-none p ls)

module _ (rid : ℕ) (user_role : RoleArg) (row : RolloverRow) (s : Store)
    (may : require user_role (any_of admin_roles) ≡ true)
    (found : get_year_rollover_by_id rid s ≡ some row)
    (not_yet : is_committed row.state ≡ false) where
  abbrev pub recomputed : Store
  recomputed = recompute_rollover_lines rid row.from_year_id s

  abbrev pub marked : RolloverRow
  marked = record row { state = previewed }

  found-marked :
      get_year_rollover_by_id rid (update_rollover_state rid previewed none recomputed)
      ≡ some marked
  unfolding get_year_rollover_by_id update_rollover_state recompute_rollover_lines
      upsert_rollover_lines
  found-marked =
      first_row-update_rows (λ (r : RolloverRow). r.id == rid)
        (λ (r : RolloverRow). record r { state = previewed; summary = coalesce none r.summary })
        (λ r. refl) recomputed.rollovers
      ∙ ap
          (Option.map (λ (r : RolloverRow). record r {
            state = previewed;
            summary = coalesce none r.summary;
          }))
          (ap (first_row (λ (r : RolloverRow). r.id == rid)) (
              upsert_each-rollovers rid (plan_lines rid row.from_year_id s) (record s {
                rollover_lines =
                    where_rows (stays rid (student_ids (plan_lines rid row.from_year_id s)))
                      s.rollover_lines;
              }))
            ∙ found)

  abbrev pub accepted : Result RolloverView × Store
  unfolding update_rollover_state
  accepted = (
    ok (record { rollover = marked; lines = get_rollover_lines rid recomputed; blocking = [] }),
    update_rollover_state rid previewed none recomputed,
  )

  abbrev pub turned_down : Result RolloverView × Store
  turned_down =
      (err (value_error "{len(blocking)} student(s) have no resolved placement"), recomputed)

  preview_rollover-accepted :
      any is_blocking (get_rollover_lines rid recomputed) ≡ false
      → preview_rollover rid user_role s ≡ accepted
  unfolding preview_rollover get_rollover update_rollover_state get_rollover_lines
  preview_rollover-accepted clear =
      rw
        (
          may,
          preview_rollover,
          found,
          not_yet,
          is_empty-where_rows is_blocking (get_rollover_lines rid recomputed),
          clear,
          found-marked,
          line_ids-none is_blocking (get_rollover_lines rid recomputed) clear,
        )
        refl

  preview_rollover-turned_down :
      any is_blocking (get_rollover_lines rid recomputed) ≡ true
      → preview_rollover rid user_role s ≡ turned_down
  unfolding preview_rollover
  preview_rollover-turned_down blocked =
      rw
        (
          may,
          preview_rollover,
          found,
          not_yet,
          is_empty-where_rows is_blocking (get_rollover_lines rid recomputed),
          blocked,
        )
        refl

  -- What an administrator's preview of a rollover that is not committed decides, on the lines of the
  -- fresh plan: where one of them blocks, it raises and the rollover's row stays as it was, with the
  -- recomputed lines stored; where none does, it stores the rollover as previewed and returns it with
  -- those lines and no blocking one.
  pub preview_rollover_decides :
      preview_rollover rid user_role s
      ≡ (if any is_blocking (get_rollover_lines rid recomputed) then turned_down else accepted)
  preview_rollover_decides =
      elim (Bool-cases (any is_blocking (get_rollover_lines rid recomputed))) [
        | inl blocked ↦ rw blocked (preview_rollover-turned_down blocked)
        | inr clear ↦ rw clear (preview_rollover-accepted clear)
      ]
