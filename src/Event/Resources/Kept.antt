-- ===== src/Event/Resources/Kept.antt =====
-- Every call on resources keeps the invariant of the costs, whether it returns or raises; changing a
-- line does where it returns.
use sams_backend.Base.{
  ℕ, ◌*◌, String, List, [], ◌∷◌, Option, some, All, ◌≡◌, sym, ◌∙◌, ap, some_inj, Action, Result, ok,
  err, Error, pure, value_error, not, ◌==◌, nat_eq, ⊤, Preserves, Preserves-bind, lands-guard,
  lands-checked, lands-found, ends-found, ends-guard, ends-checked, require_that, ◌>>◌, ◌>>=◌, gets,
}
use sams_backend.Authz.{CurrentUser}
use sams_backend.Tenant.{Store, Event, get_event_by_id}
use sams_backend.Tenant.Supplies.{ResourceRow, CostRow}
use sams_backend.Event.Permission.{is_editable}
use sams_backend.Event.Resources.Rows.{
  create_resource, new_resource, add_resource, in_event, is_resource, delete_rows, delete_resource,
  delete_resources_for_event, get_resource_by_id, write_resource_cost, upsert_cost, resource_checks,
  cost_checks, Decimal, to_column, times, upsert_resource_cost, no_such_resource,
}
use sams_backend.Event.Resources.Calls.{
  Line, insert_line, insert_lines, is_planned, is_priceable, require_editable, add_resource_line,
  delete_resource_line, no_event, no_resource, not_editable, not_priceable, event_or_raise,
  add_resources_to_event, set_resource_cost,
}
use sams_backend.Event.Resources.Exact.{IsExact, to_column-times}
use sams_backend.Event.Resources.Priced.{
  Agrees, Priced, All-mono, add_resource-Priced, delete_rows-Priced,
}
use sams_backend.Event.Resources.Repriced.{Loose, upsert_cost-Priced}

pub create_resource-Priced :
    (event_id type_id : ℕ) (description : Option String) (quantity by : ℕ)
    → Preserves Priced (create_resource event_id type_id description quantity by)
unfolding create_resource
create_resource-Priced event_id type_id description quantity by s p =
    let row : ResourceRow = new_resource s.next_id event_id type_id description quantity by in
    lands-checked Priced s (resource_checks event_id type_id quantity by s) (pure s.next_id)
      (add_resource row) p (λ passed. add_resource-Priced row s p)

pub insert_lines-Priced :
    (event_id by : ℕ) (ls : List Line) → Preserves Priced (insert_lines event_id by ls)
unfolding insert_lines
insert_lines-Priced event_id by [] s p = p
insert_lines-Priced event_id by (l ∷ ls) s p =
    let first : Action Store ℕ = insert_line event_id by l in
    let rest : Action Store ⊤ = insert_lines event_id by ls in
    Preserves-bind Priced first (λ _. rest)
      (create_resource-Priced event_id l.resource_type_id l.description l.quantity by)
      (λ _. insert_lines-Priced event_id by ls) s p

pub add_resources_to_event-Priced :
    (event_id : ℕ) (ls : List Line) (by : ℕ)
    → Preserves Priced (add_resources_to_event event_id ls by)
unfolding add_resources_to_event delete_resources_for_event
add_resources_to_event-Priced event_id ls by s p =
    let body : Action Store ⊤ =
      delete_resources_for_event event_id >> insert_lines event_id by ls in
    lands-guard Priced s (is_planned (get_event_by_id event_id s))
      (value_error "Resources can only be modified on draft or resource planning events") body p
      (λ planned.
        insert_lines-Priced event_id by ls (delete_rows (in_event event_id) s)
          (delete_rows-Priced (in_event event_id) s p))

pub add_resource_line-Priced :
    (event_id : ℕ) (actor : CurrentUser) (l : Line)
    → Preserves Priced (add_resource_line event_id actor l)
unfolding add_resource_line require_editable
add_resource_line-Priced event_id actor l s p =
    let insert : Action Store ℕ = insert_line event_id actor.id l in
    lands-found Priced s (get_event_by_id event_id) no_event
      (λ event. require_editable actor event >> insert) p
      (λ event known.
        lands-guard Priced s (is_editable actor event) not_editable insert p (λ editable.
          create_resource-Priced event_id l.resource_type_id l.description l.quantity actor.id s p))

pub delete_resource_line-Priced :
    (resource_id : ℕ) (actor : CurrentUser)
    → Preserves Priced (delete_resource_line resource_id actor)
unfolding delete_resource_line require_editable delete_resource
delete_resource_line-Priced resource_id actor s p =
    let delete : Action Store ⊤ = delete_resource resource_id in
    let behind : Event → Action Store ⊤ = λ event. require_editable actor event >> delete in
    lands-found Priced s (get_resource_by_id resource_id) no_resource
      (λ resource. event_or_raise resource.event_id >>= behind) p
      (λ resource found.
        lands-found Priced s (get_event_by_id resource.event_id) no_event behind p (λ event known.
          lands-guard Priced s (is_editable actor event) not_editable delete p
            (λ editable. delete_rows-Priced (is_resource resource_id) s p)))

pub Agrees-Loose : (k : ℕ) (rs : List ResourceRow) (c : CostRow) → Agrees rs c → Loose k rs c
Agrees-Loose k rs c h = record {
  resource = h.resource;
  found = h.found;
  same_event = h.same_event;
  others = λ miss. h;
}

-- Writing the cost of `k`, at an exact price, needs the invariant of the other costs only.
pub write_resource_cost-ends {ℓ} :
    (Q : Result ⊤ × Store → Type ℓ) (k : ℕ) (unit_price : Decimal) (currency : String) (by : ℕ)
    (r : ResourceRow) (s : Store)
    → IsExact unit_price
    → get_resource_by_id k s ≡ some r
    → All (Loose k s.resources) s.resource_costs
    → ((e : Error) → Q (err e, s))
    → ((t : Store) → Priced t → Q (ok tt, t))
    → Q (write_resource_cost k unit_price (times unit_price r.quantity) currency by s)
unfolding write_resource_cost upsert_resource_cost get_resource_by_id
write_resource_cost-ends Q k unit_price currency by r s exact found loose refused written =
    let amount : Decimal = times unit_price r.quantity in
    let unit : ℕ = to_column unit_price in
    let total : ℕ = to_column amount in
    let write : ResourceRow → Action Store ⊤ =
      λ row. upsert_resource_cost row.event_id k unit_price amount currency by in
    ends-found Q s (get_resource_by_id k) no_such_resource
      (λ row. require_that (not (row.event_id == 0)) no_such_resource >> write row) refused
      (λ row known.
        let same : r ≡ row = some_inj r row (sym found ∙ known) in
        ends-guard Q s (not (row.event_id == 0)) no_such_resource (write row) refused (λ numbered.
          ends-checked Q s (cost_checks unit total by s) (pure tt)
            (upsert_cost row.event_id k unit total currency by) refused
            (λ passed. written (upsert_cost row.event_id k unit total currency by s) (
              upsert_cost-Priced k row unit total currency by s known
                (to_column-times unit_price r.quantity exact
                  ∙ ap (λ (x : ResourceRow). unit * x.quantity) same)
                passed.1.0 loose))))

pub set_resource_cost-Priced :
    (resource_id : ℕ) (unit_price : Decimal) (currency : String) (by : ℕ)
    → IsExact unit_price
    → Preserves Priced (set_resource_cost resource_id unit_price currency by)
unfolding set_resource_cost
set_resource_cost-Priced resource_id unit_price currency by exact s p =
    let write : ResourceRow → Action Store ⊤ =
      λ r. write_resource_cost resource_id unit_price (times unit_price r.quantity) currency by in
    lands-found Priced s (get_resource_by_id resource_id) no_resource
      (λ r. gets (get_event_by_id r.event_id) >>= λ event.
        require_that (is_priceable event) not_priceable >> write r)
      p
      (λ resource found.
        lands-guard Priced s (is_priceable (get_event_by_id resource.event_id s)) not_priceable
          (write resource) p
          (λ priceable.
            write_resource_cost-ends (λ o. Priced o.1) resource_id unit_price currency by resource s
              exact found (All-mono (Agrees-Loose resource_id s.resources) s.resource_costs p)
              (λ e. p) (λ t q. q)))
