-- ===== src/Event/Resources/Edited.antt =====
-- Changing a line of an event: where the call returns, the costs agree with the lines again.
use sams_backend.Base.{
  ℕ, ◌*◌, String, List, Option, none, some, true, false, All, ◌≡◌, refl, sym, ◌∙◌, ap, some_inj,
  Action, nat_eq, nat_beq_iff, first_row, update_rows, ⊤, Bool-cases, inl, inr, ◌>>=◌, ◌>>◌, IfOk,
  checked_then, ends-found, ends-guard, test-first_row, first_row-update_hit,
}
use sams_backend.Authz.{CurrentUser}
use sams_backend.Tenant.{Store, Event, get_event_by_id}
use sams_backend.Tenant.Supplies.{ResourceRow, CostRow}
use sams_backend.Event.Permission.{is_editable}
use sams_backend.Event.Resources.Rows.{
  is_resource, is_cost_of, or_current, from_column, set_line, set_lines, line_checks,
  update_resource, get_resource_by_id, get_resource_cost_by_resource_id,
}
use sams_backend.Event.Resources.Calls.{
  LineUpdate, id_or, id_or_null, merged_description, reprice, reprice_cost, write_line,
  require_editable, update_resource_line, event_or_raise, no_resource, no_event, not_editable,
}
use sams_backend.Event.Resources.Priced.{Agrees, Agrees-move, Priced, All-mono, other_line}
use sams_backend.Event.Resources.Repriced.{Loose, first_row-none-All}
use sams_backend.Event.Resources.Exact.{from_column-IsExact}
use sams_backend.Event.Resources.Kept.{write_resource_cost-ends}

module _ (k : ℕ) (type_id : Option ℕ) (description : Option String) (quantity : Option ℕ)
    (by : ℕ) where
  abbrev changed : ResourceRow → ResourceRow
  changed = set_line type_id description quantity by

  changed_line :
      (rs : List ResourceRow) (c : CostRow) (r : ResourceRow)
      → is_cost_of k c ≡ true
      → first_row (is_resource c.resource_id) rs ≡ some r
      → first_row (is_resource c.resource_id) (update_rows (is_resource k) changed rs)
        ≡ some (changed r)
  changed_line rs c r hit found =
      first_row-update_hit (is_resource k) changed (is_resource c.resource_id) (λ x. refl) rs r
        found
        (rw (sym ((nat_beq_iff c.resource_id k).0 hit))
          (test-first_row (is_resource c.resource_id) rs r found))

  changed-Agrees :
      (rs : List ResourceRow) (c : CostRow)
      → is_cost_of k c ≡ false
      → Agrees rs c
      → Agrees (update_rows (is_resource k) changed rs) c
  changed-Agrees rs c miss h =
      Agrees-move rs (update_rows (is_resource k) changed rs) c
        (other_line k changed rs c (λ r. refl) miss) h

  pub changed-Loose :
      (rs : List ResourceRow) (c : CostRow)
      → Agrees rs c
      → Loose k (update_rows (is_resource k) changed rs) c
  changed-Loose rs c h = elim (Bool-cases (is_cost_of k c)) [
    | inl hit ↦ record {
      resource = changed h.resource;
      found = changed_line rs c h.resource hit h.found;
      same_event = h.same_event;
      others = λ miss. changed-Agrees rs c miss h;
    }
    | inr miss ↦ record {
      resource = h.resource;
      found = other_line k changed rs c (λ r. refl) miss ∙ h.found;
      same_event = h.same_event;
      others = λ miss. changed-Agrees rs c miss h;
    }
  ]

-- A change that writes the quantity that is there leaves the costs right.
unchanged-Agrees :
    (k : ℕ) (type_id : Option ℕ) (description : Option String) (by : ℕ) (r : ResourceRow)
    (rs : List ResourceRow) (c : CostRow)
    → first_row (is_resource k) rs ≡ some r
    → Agrees rs c
    → Agrees (update_rows (is_resource k) (set_line type_id description (some r.quantity) by) rs) c
unchanged-Agrees k type_id description by r rs c known h = elim (Bool-cases (is_cost_of k c)) [
  | inl hit ↦
      let same : r ≡ h.resource = some_inj r h.resource (
        sym known
        ∙ ap (λ i. first_row (is_resource i) rs) (sym ((nat_beq_iff c.resource_id k).0 hit))
        ∙ h.found) in
      record {
        resource = set_line type_id description (some r.quantity) by h.resource;
        found = changed_line k type_id description (some r.quantity) by rs c h.resource hit h.found;
        same_event = h.same_event;
        multiplied = h.multiplied ∙ ap (λ (x : ResourceRow). c.unit_price * x.quantity) (sym same);
        fits = h.fits;
      }
  | inr miss ↦ changed-Agrees k type_id description (some r.quantity) by rs c miss h
]

-- Repricing restores the invariant where the line of `k` is the only one out of step.
reprice_cost-restores :
    (k by : ℕ) (r : ResourceRow) (s : Store) (o : Option CostRow)
    → first_row (is_cost_of k) s.resource_costs ≡ o
    → get_resource_by_id k s ≡ some r
    → All (Loose k s.resources) s.resource_costs
    → IfOk Priced (reprice_cost k by r.quantity o s)
unfolding reprice_cost
reprice_cost-restores k by r s none missing found loose =
    first_row-none-All (is_cost_of k) (λ c miss (l : Loose k s.resources c). l.others miss)
      s.resource_costs missing loose
reprice_cost-restores k by r s (some c) known found loose =
    write_resource_cost-ends (IfOk Priced) k (from_column c.unit_price) c.currency by r s
      (from_column-IsExact c.unit_price) found loose (λ e. tt) (λ t p. p)

-- What stands after the update of the row, for the rest of the call.
rest-restores :
    (k by : ℕ) (type_id : Option ℕ) (description : Option String) (q : Option ℕ) (r : ResourceRow)
    (s : Store)
    → get_resource_by_id k s ≡ some r
    → Priced s
    → IfOk Priced
        (reprice k by q (set_lines k type_id description (some (or_current q r.quantity)) by s))
unfolding set_lines get_resource_by_id reprice get_resource_cost_by_resource_id
rest-restores k by type_id description none r s found p =
    All-mono (λ c. unchanged-Agrees k type_id description by r s.resources c found) s.resource_costs
      p
rest-restores k by type_id description (some n) r s found p =
    let after : ResourceRow = set_line type_id description (some n) by r in
    reprice_cost-restores k by after (set_lines k type_id description (some n) by s)
      (first_row (is_cost_of k) s.resource_costs) refl
      (first_row-update_hit (is_resource k) (set_line type_id description (some n) by)
        (is_resource k) (λ x. refl) s.resources r found
        (test-first_row (is_resource k) s.resources r found))
      (All-mono (changed-Loose k type_id description (some n) by s.resources) s.resource_costs p)

-- A successful change of a line leaves every cost right.
write_line-restores :
    (k : ℕ) (actor : CurrentUser) (u : LineUpdate) (r : ResourceRow) (s : Store)
    → get_resource_by_id k s ≡ some r
    → Priced s
    → IfOk Priced (write_line k actor u r s)
unfolding write_line update_resource
write_line-restores k actor u r s found p =
    let type_id : Option ℕ = id_or_null (id_or u.resource_type_id r.resource_type_id) in
    let description : Option String = merged_description u.description r.description in
    let quantity : Option ℕ = some (or_current u.quantity r.quantity) in
    let rest : Action Store ⊤ = reprice k actor.id u.quantity in
    checked_then (IfOk Priced) s tt (line_checks k type_id quantity actor.id s)
      (set_lines k type_id description quantity actor.id) rest (λ e. tt)
      (λ passed. rest-restores k actor.id type_id description u.quantity r s found p)

pub update_resource_line-restores :
    (k : ℕ) (actor : CurrentUser) (u : LineUpdate) (s : Store)
    → Priced s
    → IfOk Priced (update_resource_line k actor u s)
unfolding update_resource_line require_editable
update_resource_line-restores k actor u s p =
    let behind : ResourceRow → Event → Action Store ⊤ =
      λ r event. require_editable actor event >> write_line k actor u r in
    ends-found (IfOk Priced) s (get_resource_by_id k) no_resource
      (λ r. event_or_raise r.event_id >>= behind r) (λ e. tt)
      (λ r found.
        ends-found (IfOk Priced) s (get_event_by_id r.event_id) no_event (behind r) (λ e. tt)
          (λ event known.
            ends-guard (IfOk Priced) s (is_editable actor event) not_editable
              (write_line k actor u r) (λ e. tt)
              (λ editable. write_line-restores k actor u r s found p)))
