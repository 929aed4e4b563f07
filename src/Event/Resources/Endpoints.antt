-- ===== src/Event/Resources/Endpoints.antt =====
-- The endpoints on resource lines (app/domains/events/router.py) for a user with a tenant.
use sams_backend.Base.{
  ℕ, String, List, [], ◌∷◌, Option, Action, Result, ok, err, Error, value_error, permission_error,
  type_error, unique_violation, not_null_violation, foreign_key_violation, check_violation,
  runtime_error, data_error, http_error, gets, or_raise, require_that, ◌>>=◌, ◌>>◌, ⊤, String,
}
use sams_backend.Authz.{CurrentUser, has_any_role}
use sams_backend.Tenant.{Store, get_event_by_id}
use sams_backend.Event.Permission.{read, check_event_permission, is_editable}
use sams_backend.Event.Resources.Rows.{TypedResource, Decimal, get_resource_by_id}
use sams_backend.Event.Resources.Calls.{
  LineUpdate, Line, Floats, SummaryLine, update_resource_line, add_resource_line,
  delete_resource_line, add_resources_to_event, set_resource_cost, get_resource_summary,
}

-- `raise HTTPException(status_code=…, detail=str(exc))` in the handlers of ValueError, of
-- PermissionError and of Exception.
unfoldable pub to_http : ℕ → ℕ → Error → Error
to_http value permission (value_error m) = http_error value m
to_http value permission (permission_error m) = http_error permission m
to_http value permission (http_error code m) = http_error code m
to_http value permission (type_error m) = http_error 500 m
to_http value permission (unique_violation m) = http_error 500 m
to_http value permission (not_null_violation m) = http_error 500 m
to_http value permission (foreign_key_violation m) = http_error 500 m
to_http value permission (check_violation m) = http_error 500 m
to_http value permission (runtime_error m) = http_error 500 m
to_http value permission (data_error m) = http_error 500 m

abbrev pub answered : {A : Type 0} → ℕ → ℕ → Result A × Store → Result A × Store
answered value permission (ok a, s) = (ok a, s)
answered value permission (err e, s) = (err (to_http value permission e), s)

abbrev pub answering : {A : Type 0} → ℕ → ℕ → Action Store A → Action Store A
answering value permission m s = answered value permission (m s)

abbrev pub found_or_404 : {A : Type 0} → (Store → Option A) → String → Action Store A
found_or_404 f m = gets f >>= λ found. or_raise found (http_error 404 m)

abbrev pub not_line_editor : Error
not_line_editor =
    http_error 403
      "Access denied. Resource lines can only be edited by the event owner while in draft, or by manager/admin while under review."

abbrev pub not_event_editor : Error
not_event_editor =
    http_error 403
      "Access denied. Event can only be modified in draft status by its owner, or in resource planning by event teacher."

abbrev pub not_pricer : Error
not_pricer = http_error 403 "Only manager or admin can update cost details"

-- `PATCH /resources/{resource_id}`
unfoldable pub patch_resource : ℕ → LineUpdate → CurrentUser → Action Store ⊤
patch_resource resource_id payload user = answering 500 500 (
    found_or_404 (get_resource_by_id resource_id) "Resource not found" >>= λ resource.
    found_or_404 (get_event_by_id resource.event_id) "Event not found" >>= λ event.
    require_that (is_editable user event) not_line_editor
    >> update_resource_line resource_id user payload)

-- `POST /{event_id}/resources/lines`
unfoldable pub post_line : ℕ → Line → CurrentUser → Action Store ℕ
post_line event_id payload user = answering 404 403 (add_resource_line event_id user payload)

-- `DELETE /resources/{resource_id}`
unfoldable pub delete_line : ℕ → CurrentUser → Action Store ⊤
delete_line resource_id user = answering 404 403 (delete_resource_line resource_id user)

-- `PUT /resources/{resource_id}/cost`
unfoldable pub put_cost : ℕ → Decimal → String → CurrentUser → Action Store ⊤
put_cost resource_id unit_price currency user =
    require_that (has_any_role user ("manager" ∷ "school_admin" ∷ [])) not_pricer
    >> answering 400 500 (set_resource_cost resource_id unit_price currency user.id)

-- `POST /{event_id}/resources`
unfoldable pub post_resources : ℕ → List Line → CurrentUser → Action Store ⊤
post_resources event_id payload user = answering 500 500 (
    found_or_404 (get_event_by_id event_id) "Event not found" >>= λ event.
    require_that (is_editable user event) not_event_editor
    >> add_resources_to_event event_id payload user.id)

-- `GET /{event_id}/resources`
unfoldable pub get_resources :
    (fl : Floats)
    → (List TypedResource → List TypedResource)
    → ℕ
    → CurrentUser
    → Action Store (List SummaryLine × fl.Float)
get_resources fl ordered event_id user = answering 500 500 (
    found_or_404 (get_event_by_id event_id) "Event not found" >>= λ event.
    require_that (check_event_permission user event read) (http_error 403 "Access denied")
    >> gets (get_resource_summary fl ordered event_id))
