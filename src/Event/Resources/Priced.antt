-- ===== src/Event/Resources/Priced.antt =====
-- The invariant of the costs, and that the writes of the queries keep it.
use sams_backend.Base.{
  ℕ, ◌*◌, List, [], ◌∷◌, ◌++◌, some, Bool, true, false, not, ◌&&◌, nat_eq, string_eq, ltb,
  first_row, where_rows, update_rows, any, All, ◌≡◌, refl, ◌∙◌, Bool-cases, inl, inr,
  first_row-append_found, first_row-update_rows_ne, arith,
}
use sams_backend.Tenant.{Store}
use sams_backend.Tenant.Supplies.{ResourceRow, CostRow}
use sams_backend.Event.Resources.Rows.{
  is_resource, is_cost_of, is_orphaned, numeric_bound, delete_rows, add_resource,
}

-- A cost belongs to a resource that is there and names its event, its total is the unit price times the
-- quantity of the resource, and it fits its column.
pub record Agrees (rs : List ResourceRow) (c : CostRow) : Type 0 where
  pub resource : ResourceRow
  pub found : first_row (is_resource c.resource_id) rs ≡ some resource
  pub same_event : c.event_id ≡ resource.event_id
  pub multiplied : c.total_cost ≡ c.unit_price * resource.quantity
  pub fits : ltb c.total_cost numeric_bound ≡ true

abbrev pub Priced : Store → Type 0
Priced s = All (Agrees s.resources) s.resource_costs

module _ {ℓ κ μ} {A : Type ℓ} {P : A → Type κ} {Q : A → Type μ} where
  pub All-mono : ((x : A) → P x → Q x) → (xs : List A) → All P xs → All Q xs
  All-mono f [] h = tt
  All-mono f (x ∷ xs) h = (f x h.0, All-mono f xs h.1)

  pub All-where_rows :
      (q : A → Bool)
      → ((x : A) → q x ≡ true → P x → Q x)
      → (xs : List A) → All P xs
      → All Q (where_rows q xs)
  All-where_rows q f [] h = tt
  All-where_rows q f (x ∷ xs) h = elim (Bool-cases (q x)) [
    | inl hit ↦ rw hit (f x hit h.0, All-where_rows q f xs h.1)
    | inr miss ↦ rw miss (All-where_rows q f xs h.1)
  ]

pub All-append {ℓ κ} :
    {A : Type ℓ} (P : A → Type κ) (xs : List A) (y : A) → All P xs → P y → All P (xs ++ y ∷ [])
All-append P [] y h p = (p, h)
All-append P (x ∷ xs) y h p = (h.0, All-append P xs y h.1 p)

pub Agrees-move :
    (rs rs' : List ResourceRow) (c : CostRow)
    → first_row (is_resource c.resource_id) rs' ≡ first_row (is_resource c.resource_id) rs
    → Agrees rs c
    → Agrees rs' c
Agrees-move rs rs' c same h = record {
  resource = h.resource;
  found = same ∙ h.found;
  same_event = h.same_event;
  multiplied = h.multiplied;
  fits = h.fits;
}

pub add_resource-Priced : (r : ResourceRow) (s : Store) → Priced s → Priced (add_resource r s)
unfolding add_resource
add_resource-Priced r s =
    All-mono
      (λ c (h : Agrees s.resources c). record {
        resource = h.resource;
        found =
            first_row-append_found (is_resource c.resource_id) s.resources (r ∷ []) h.resource
              h.found;
        same_event = h.same_event;
        multiplied = h.multiplied;
        fits = h.fits;
      })
      s.resource_costs

first_row-survivor {ℓ} :
    {A : Type ℓ} (p deleted : A → Bool) (xs : List A)
    → any (λ x. deleted x && p x) xs ≡ false
    → first_row p (where_rows (λ x. not (deleted x)) xs) ≡ first_row p xs
first_row-survivor p deleted [] h = refl
first_row-survivor p deleted (x ∷ xs) h = ground (arith, first_row-survivor p deleted xs)

pub delete_rows-Priced :
    (deleted : ResourceRow → Bool) (s : Store) → Priced s → Priced (delete_rows deleted s)
unfolding delete_rows
delete_rows-Priced deleted s =
    All-where_rows (λ c. not (is_orphaned deleted s.resources c))
      (λ c kept.
        Agrees-move s.resources (where_rows (λ r. not (deleted r)) s.resources) c
          (first_row-survivor (is_resource c.resource_id) deleted s.resources (ground arith)))
      s.resource_costs

-- The line of another resource is not touched.
pub other_line :
    (k : ℕ) (f : ResourceRow → ResourceRow) (rs : List ResourceRow) (c : CostRow)
    → ((r : ResourceRow) → (f r).id ≡ r.id)
    → is_cost_of k c ≡ false
    → first_row (is_resource c.resource_id) (update_rows (is_resource k) f rs)
      ≡ first_row (is_resource c.resource_id) rs
other_line k f rs c keep other =
    first_row-update_rows_ne (is_resource k) f (is_resource c.resource_id) (λ r hit. ground arith)
      (λ r hit. ground (arith, keep r)) rs
