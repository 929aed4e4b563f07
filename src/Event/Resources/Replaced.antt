-- ===== src/Event/Resources/Replaced.antt =====
-- What replacing the lines of an event leaves there, when it returns and when it raises.
use mathlib.Core.List.{append-nil, append_assoc}
use mathlib.Core.Path.{subst}
use sams_backend.Base.{
  ℕ, List, [], ◌∷◌, ◌++◌, true, false, not, nat_eq, where_rows, if◌then◌else◌, ◌≡◌, ◌≢◌, refl, sym,
  ◌∙◌, ap, Action, Result, eq_self, checked_then, ⊤, arith,
}
use sams_backend.Tenant.{Store, get_event_by_id}
use sams_backend.Tenant.Supplies.{ResourceRow}
use sams_backend.Event.Resources.Rows.{
  in_event, new_resource, add_resource, delete_rows, resource_checks, create_resource,
  delete_resources_for_event,
}
use sams_backend.Event.Resources.Calls.{Line, insert_lines, is_planned, add_resources_to_event}
use sams_backend.Event.Resources.Costs.{has_returned}

abbrev to_line : ResourceRow → Line
to_line r = record {
  resource_type_id = r.resource_type_id;
  description = r.description;
  quantity = r.quantity;
}

-- The lines of an event, as a request writes them.
abbrev pub lines_in : ℕ → List ResourceRow → List Line
lines_in event_id [] = []
lines_in event_id (r ∷ rs) =
    let rest = lines_in event_id rs in if in_event event_id r then to_line r ∷ rest else rest

lines_in-append :
    (event_id : ℕ) (r : ResourceRow) (rs : List ResourceRow)
    → in_event event_id r ≡ true
    → lines_in event_id (rs ++ r ∷ []) ≡ lines_in event_id rs ++ to_line r ∷ []
lines_in-append event_id r [] hit = ground arith
lines_in-append event_id r (x ∷ rs) hit = ground (arith, lines_in-append event_id r rs hit)

lines_in-deleted :
    (event_id : ℕ) (rs : List ResourceRow)
    → lines_in event_id (where_rows (λ r. not (in_event event_id r)) rs) ≡ []
lines_in-deleted event_id [] = refl
lines_in-deleted event_id (r ∷ rs) = ground (arith, lines_in-deleted event_id rs)

-- The requested lines are `done`, which follow `before` in the event, and `rest`, which is empty where
-- the call has returned and only there.
pub record Replaced (event_id : ℕ) (before ls : List Line) (out : Result ⊤ × Store) : Type 0 where
  pub done : List Line
  pub rest : List Line
  pub requested : ls ≡ done ++ rest
  pub standing : lines_in event_id out.1.resources ≡ before ++ done
  pub returned : has_returned out.0 ≡ true → rest ≡ []
  pub raised : has_returned out.0 ≡ false → rest ≢ []

insert_lines-Replaced :
    (event_id by : ℕ) (ls : List Line) (s : Store)
    → Replaced event_id (lines_in event_id s.resources) ls (insert_lines event_id by ls s)
unfolding insert_lines create_resource add_resource
insert_lines-Replaced event_id by [] s = record {
  done = [];
  rest = [];
  requested = refl;
  standing = sym (append-nil (lines_in event_id s.resources));
  returned = λ h. refl;
  raised = λ h. cc;
}
insert_lines-Replaced event_id by (l ∷ ls) s =
    let row : ResourceRow =
      new_resource s.next_id event_id l.resource_type_id l.description l.quantity by in
    let rest : Action Store ⊤ = insert_lines event_id by ls in
    checked_then (Replaced event_id (lines_in event_id s.resources) (l ∷ ls)) s s.next_id
      (resource_checks event_id l.resource_type_id l.quantity by s) (add_resource row) rest
      (λ e. record {
        done = [];
        rest = l ∷ ls;
        requested = refl;
        standing = sym (append-nil (lines_in event_id s.resources));
        returned = λ h. cc;
        raised = λ h same. cc;
      })
      (λ passed.
        let more = insert_lines-Replaced event_id by ls (add_resource row s) in
        record {
          done = l ∷ more.done;
          rest = more.rest;
          requested = ap (λ xs. l ∷ xs) more.requested;
          standing =
              more.standing
              ∙ ap (λ xs. xs ++ more.done)
                  (lines_in-append event_id row s.resources (eq_self event_id))
              ∙ append_assoc (lines_in event_id s.resources) (l ∷ []) more.done;
          returned = more.returned;
          raised = more.raised;
        })

-- Replacing the lines of an event that is a draft or in resource planning leaves it with the first of the
-- requested lines and none of its old ones: with all of them where the call returns, and only then. So a
-- call that raises on a line has deleted the old lines all the same.
pub add_resources_to_event-Replaced :
    (event_id : ℕ) (ls : List Line) (by : ℕ) (s : Store)
    → is_planned (get_event_by_id event_id s) ≡ true
    → Replaced event_id [] ls (add_resources_to_event event_id ls by s)
unfolding add_resources_to_event delete_resources_for_event delete_rows
add_resources_to_event-Replaced event_id ls by s planned =
    let cleared : Store = delete_rows (in_event event_id) s in
    rw planned (
      subst (λ before. Replaced event_id before ls (insert_lines event_id by ls cleared))
        (lines_in-deleted event_id s.resources) (insert_lines-Replaced event_id by ls cleared))
