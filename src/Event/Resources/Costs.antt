-- ===== src/Event/Resources/Costs.antt =====
-- The costs of the resources under the endpoints, in any order of calls.
use sams_backend.Base.{
  ℕ, String, List, [], ◌∷◌, Bool, true, false, ◌≡◌, Action, Result, ok, err, IfOk, ⊤, require_that,
  lands-guard, lands-found, ends-guard, ends-found, http_error, pure, bind-pure, ◌>>=◌, ◌>>◌,
  Preserves,
}
use sams_backend.Authz.{CurrentUser, has_any_role}
use sams_backend.Tenant.{Store, Event, get_event_by_id}
use sams_backend.Event.Permission.{is_editable}
use sams_backend.Event.Resources.Exact.{IsExact}
use sams_backend.Event.Resources.Rows.{Decimal, get_resource_by_id}
use sams_backend.Event.Resources.Calls.{
  LineUpdate, Line, update_resource_line, add_resource_line, delete_resource_line,
  add_resources_to_event, set_resource_cost,
}
use sams_backend.Event.Resources.Endpoints.{
  answered, answering, found_or_404, patch_resource, post_line, delete_line, put_cost,
  post_resources, not_line_editor, not_event_editor, not_pricer,
}
use sams_backend.Event.Resources.Priced.{Priced}
use sams_backend.Event.Resources.Kept.{
  add_resources_to_event-Priced, add_resource_line-Priced, delete_resource_line-Priced,
  set_resource_cost-Priced,
}
use sams_backend.Event.Resources.Edited.{update_resource_line-restores}

-- A request to one of the endpoints that change resources or costs, with its user.
pub data Request : Type 0 where
  patches : ℕ → LineUpdate → CurrentUser → Request
  adds : ℕ → Line → CurrentUser → Request
  deletes : ℕ → CurrentUser → Request
  prices : ℕ → Decimal → String → CurrentUser → Request
  replaces : ℕ → List Line → CurrentUser → Request

-- The answer without its value, and the store.
unfoldable pub answer : Request → Action Store ⊤
answer (patches resource_id u user) = patch_resource resource_id u user
answer (adds event_id l user) = post_line event_id l user >>= λ _. pure tt
answer (deletes resource_id user) = delete_line resource_id user
answer (prices resource_id unit_price currency user) = put_cost resource_id unit_price currency user
answer (replaces event_id ls user) = post_resources event_id ls user

abbrev pub has_returned : {A : Type 0} → Result A → Bool
has_returned (ok a) = true
has_returned (err e) = false

-- A change of a line returns, and a price is exact.
abbrev pub Settled : Request → Store → Type 0
Settled (patches resource_id u user) s =
    has_returned (answer (patches resource_id u user) s).0 ≡ true
Settled (prices resource_id unit_price currency user) s = IsExact unit_price
Settled _ s = Unit

unfoldable pub run_requests : List Request → Store → Store
run_requests [] s = s
run_requests (c ∷ cs) s = run_requests cs (answer c s).1

-- Every change of a line, among the requests, returns, and every price is exact.
abbrev pub AllSettled : List Request → Store → Type 0
AllSettled [] s = Unit
AllSettled (c ∷ cs) s = Settled c s × AllSettled cs (answer c s).1

answered-Priced :
    {A : Type 0} (value permission : ℕ) (o : Result A × Store)
    → Priced o.1
    → Priced (answered value permission o).1
answered-Priced value permission (ok a, s) p = p
answered-Priced value permission (err e, s) p = p

answered-returned :
    {A : Type 0} (value permission : ℕ) (o : Result A × Store)
    → IfOk Priced o
    → has_returned (answered value permission o).0 ≡ true
    → Priced (answered value permission o).1
answered-returned value permission (ok a, s) p h = p
answered-returned value permission (err e, s) p h = cc

patch_resource-Priced :
    (k : ℕ) (u : LineUpdate) (user : CurrentUser) (s : Store)
    → Priced s
    → has_returned (patch_resource k u user s).0 ≡ true
    → Priced (patch_resource k u user s).1
unfolding patch_resource
patch_resource-Priced k u user s p =
    let update : Action Store ⊤ = update_resource_line k user u in
    let behind : Event → Action Store ⊤ =
      λ event. require_that (is_editable user event) not_line_editor >> update in
    let body : Action Store ⊤ = found_or_404 (get_resource_by_id k) "Resource not found" >>= λ r.
    found_or_404 (get_event_by_id r.event_id) "Event not found" >>= behind in
    answered-returned 500 500 (body s) (
      ends-found (IfOk Priced) s (get_resource_by_id k) (http_error 404 "Resource not found")
        (λ r. found_or_404 (get_event_by_id r.event_id) "Event not found" >>= behind) (λ e. tt)
        (λ r found.
          ends-found (IfOk Priced) s (get_event_by_id r.event_id) (http_error 404 "Event not found")
            behind (λ e. tt)
            (λ event known.
              ends-guard (IfOk Priced) s (is_editable user event) not_line_editor update (λ e. tt)
                (λ editable. update_resource_line-restores k user u s p))))

post_resources-Priced :
    (event_id : ℕ) (ls : List Line) (user : CurrentUser)
    → Preserves Priced (post_resources event_id ls user)
unfolding post_resources
post_resources-Priced event_id ls user s p =
    let replace : Action Store ⊤ = add_resources_to_event event_id ls user.id in
    let behind : Event → Action Store ⊤ =
      λ event. require_that (is_editable user event) not_event_editor >> replace in
    let body : Action Store ⊤ =
      found_or_404 (get_event_by_id event_id) "Event not found" >>= behind in
    answered-Priced 500 500 (body s) (
      lands-found Priced s (get_event_by_id event_id) (http_error 404 "Event not found") behind p
        (λ event known.
          lands-guard Priced s (is_editable user event) not_event_editor replace p
            (λ editable. add_resources_to_event-Priced event_id ls user.id s p)))

put_cost-Priced :
    (k : ℕ) (unit_price : Decimal) (currency : String) (user : CurrentUser)
    → IsExact unit_price
    → Preserves Priced (put_cost k unit_price currency user)
unfolding put_cost
put_cost-Priced k unit_price currency user exact s p =
    let price : Action Store ⊤ =
      answering 400 500 (set_resource_cost k unit_price currency user.id) in
    lands-guard Priced s (has_any_role user ("manager" ∷ "school_admin" ∷ [])) not_pricer price p
      (λ may.
        answered-Priced 400 500 (set_resource_cost k unit_price currency user.id s)
          (set_resource_cost-Priced k unit_price currency user.id exact s p))

answer-Priced : (c : Request) (s : Store) → Priced s → Settled c s → Priced (answer c s).1
unfolding answer post_line delete_line
answer-Priced (patches k u user) s p settled = patch_resource-Priced k u user s p settled
answer-Priced (adds event_id l user) s p settled =
    let add : Action Store ℕ = post_line event_id l user in
    rw (bind-pure tt add s) (
      answered-Priced 404 403 (add_resource_line event_id user l s)
        (add_resource_line-Priced event_id user l s p))
answer-Priced (deletes k user) s p settled =
    answered-Priced 404 403 (delete_resource_line k user s) (delete_resource_line-Priced k user s p)
answer-Priced (prices k unit_price currency user) s p settled =
    put_cost-Priced k unit_price currency user settled s p
answer-Priced (replaces event_id ls user) s p settled = post_resources-Priced event_id ls user s p

-- If every cost names a resource that is there, its event, and the unit price times its quantity, so it
-- is after any sequence of requests that add, delete and replace lines and set prices of whole
-- ten-thousandths, whether these return or raise, and that change lines, where these return.
pub run_requests-Priced :
    (cs : List Request) (s : Store) → AllSettled cs s → Priced s → Priced (run_requests cs s)
unfolding run_requests
run_requests-Priced [] s settled p = p
run_requests-Priced (c ∷ cs) s settled p =
    run_requests-Priced cs (answer c s).1 settled.1 (answer-Priced c s p settled.0)
