-- ===== src/Event/Resources/Repriced.antt =====
-- Writing the cost of one resource restores the invariant where it holds for all others.
use sams_backend.Base.{
  ℕ, ◌*◌, String, List, [], ◌∷◌, none, some, Bool, true, false, nat_eq, string_eq, nat_beq_iff, ltb,
  first_row, update_rows, All, ◌≡◌, refl, sym, ◌∙◌, ap, Bool-cases, Option-cases, inl, inr,
  some_inj, arith,
}
use sams_backend.Tenant.{Store}
use sams_backend.Tenant.Supplies.{ResourceRow, CostRow}
use sams_backend.Event.Resources.Rows.{
  is_resource, is_cost_of, numeric_bound, set_cost, new_cost, upsert_cost,
  get_resource_cost_by_resource_id,
}
use sams_backend.Event.Resources.Priced.{Agrees, Priced, All-append}

-- A cost whose resource is there, in its event, and that agrees with it unless it is the cost of `k`.
pub record Loose (k : ℕ) (rs : List ResourceRow) (c : CostRow) : Type 0 where
  pub resource : ResourceRow
  pub found : first_row (is_resource c.resource_id) rs ≡ some resource
  pub same_event : c.event_id ≡ resource.event_id
  pub others : is_cost_of k c ≡ false → Agrees rs c

All-update_split {ℓ κ μ} :
    {A : Type ℓ} {P : A → Type κ} {Q : A → Type μ} (p : A → Bool) (f : A → A)
    → ((x : A) → p x ≡ true → P x → Q (f x))
    → ((x : A) → p x ≡ false → P x → Q x)
    → (xs : List A) → All P xs
    → All Q (update_rows p f xs)
All-update_split p f hits misses [] h = tt
All-update_split p f hits misses (x ∷ xs) h = elim (Bool-cases (p x)) [
  | inl hit ↦ rw hit (hits x hit h.0, All-update_split p f hits misses xs h.1)
  | inr miss ↦ rw miss (misses x miss h.0, All-update_split p f hits misses xs h.1)
]

first_row-none_here {ℓ} :
    {A : Type ℓ} (p : A → Bool) (x : A) (xs : List A)
    → first_row p (x ∷ xs) ≡ none
    → (p x ≡ false) × (first_row p xs ≡ none)
first_row-none_here p x xs h = (ground arith, ground arith)

pub first_row-none-All {ℓ κ μ} :
    {A : Type ℓ} {P : A → Type κ} {Q : A → Type μ} (p : A → Bool)
    → ((x : A) → p x ≡ false → P x → Q x)
    → (xs : List A) → first_row p xs ≡ none
    → All P xs
    → All Q xs
first_row-none-All p f [] h all = tt
first_row-none-All p f (x ∷ xs) h all =
    let (miss, rest) = first_row-none_here p x xs h in
    (f x miss all.0, first_row-none-All p f xs rest all.1)

module _ (k : ℕ) (rs : List ResourceRow) (r : ResourceRow) where
  hit-Agrees :
      (unit_price total : ℕ) (currency : String) (by : ℕ) (c : CostRow)
      → first_row (is_resource k) rs ≡ some r
      → total ≡ unit_price * r.quantity
      → ltb total numeric_bound ≡ true
      → is_cost_of k c ≡ true
      → Loose k rs c
      → Agrees rs (set_cost unit_price total currency by c)
  hit-Agrees unit_price total currency by c found product small hit h =
      let key : c.resource_id ≡ k = (nat_beq_iff c.resource_id k).0 hit in
      let same : h.resource ≡ r =
        some_inj h.resource r (sym h.found ∙ ap (λ i. first_row (is_resource i) rs) key ∙ found) in
      record {
        resource = r;
        found = h.found ∙ ap some same;
        same_event = h.same_event ∙ ap (λ (x : ResourceRow). x.event_id) same;
        multiplied = product;
        fits = small;
      }

pub upsert_cost-Priced :
    (k : ℕ) (r : ResourceRow) (unit_price total : ℕ) (currency : String) (by : ℕ) (s : Store)
    → first_row (is_resource k) s.resources ≡ some r
    → total ≡ unit_price * r.quantity
    → ltb total numeric_bound ≡ true
    → All (Loose k s.resources) s.resource_costs
    → Priced (upsert_cost r.event_id k unit_price total currency by s)
unfolding upsert_cost get_resource_cost_by_resource_id
upsert_cost-Priced k r unit_price total currency by s found product small h =
    elim (Option-cases (first_row (is_cost_of k) s.resource_costs)) [
      | inl missing ↦ rw missing (
          All-append (Agrees s.resources) s.resource_costs
            (new_cost s.next_id r.event_id k unit_price total currency by)
            (first_row-none-All (is_cost_of k) (λ c miss (l : Loose k s.resources c). l.others miss)
              s.resource_costs missing h)
            (record {
              resource = r;
              found = found;
              same_event = refl;
              multiplied = product;
              fits = small;
            }))
      | inr (c, known) ↦ rw known (
          All-update_split (is_cost_of k) (set_cost unit_price total currency by)
            (λ x hit.
              hit-Agrees k s.resources r unit_price total currency by x found product small hit)
            (λ x miss (l : Loose k s.resources x). l.others miss) s.resource_costs h)
    ]
