-- ===== src/Account/Pools.antt =====
-- Opening the pool of a tenant, and looking an account up, write nothing but the list of tenants.
use sams_backend.Base.{
  ℕ, String, List, [], ◌∷◌, nat_eq, string_eq, if◌then◌else◌, Action, pure, modify, require_that,
  value_error, runtime_error, Keeps, Keeps-bind, Keeps-found, Keeps-if, Keeps-require_that, view-if,
  with_found, ◌≡◌, refl,
}
use sams_backend.Account.{TenantRow, Control, Outside, AccountRow}
use sams_backend.Account.Directory.{
  get_db_pool, register_tenant, has_tenant, get_identity_by_id, get_super_admin_by_email,
  get_user_by_email,
}
use sams_backend.Account.Tokens.{
  Local, resolve_local_account, resolve_super_admin, resolve_in_tenant, is_super_session,
  local_user,
}

-- A view of the store that does not look at the tenants.
module _ {V : Type 0} (view : Control → V)
    (ignores : (s : Control) (ts : List TenantRow)
      → view (record s { tenants = ts }) ≡ view s) where
  pub get_db_pool-Keeps :
      (out : Outside) (tenant_id : String) → Keeps view (get_db_pool out tenant_id)
  unfolding get_db_pool
  get_db_pool-Keeps out tenant_id =
      Keeps-bind view (modify (register_tenant tenant_id))
        (λ _.
          require_that (out.answers tenant_id)
            (runtime_error "could not connect to the tenant database"))
        (λ s. view-if view (has_tenant tenant_id s) s s _ refl (ignores s _))
        (λ _. Keeps-require_that view (out.answers tenant_id) _)

  resolve_super_admin-Keeps : (email : String) → Keeps view (resolve_super_admin email)
  unfolding resolve_super_admin
  resolve_super_admin-Keeps email =
      Keeps-found (get_super_admin_by_email email) (value_error "Account no longer exists")
        (λ admin.
          pure (record { user_id = admin.id; role = "super_admin"; roles = "super_admin" ∷ [] }))
        view (λ _ s. refl)

  resolve_in_tenant-Keeps :
      (out : Outside) (email tenant_id role : String)
      → Keeps view (resolve_in_tenant out email tenant_id role)
  unfolding resolve_in_tenant
  resolve_in_tenant-Keeps out email tenant_id role =
      let answer : AccountRow → Action Control Local = λ user. pure (local_user role user) in
      let missing = value_error "Account no longer exists" in
      Keeps-bind view (get_db_pool out tenant_id)
        (λ _. with_found (get_user_by_email tenant_id email) missing answer)
        (get_db_pool-Keeps out tenant_id)
        λ _. Keeps-found (get_user_by_email tenant_id email) missing answer view (λ _ s. refl)

  -- Looking an account up writes nothing but tenants.
  pub resolve_local_account-Keeps :
      (out : Outside) (identity_id : ℕ) (tenant_id role : String)
      → Keeps view (resolve_local_account out identity_id tenant_id role)
  unfolding resolve_local_account
  resolve_local_account-Keeps out identity_id tenant_id role =
      Keeps-found (get_identity_by_id identity_id) (value_error "Account no longer exists")
        (λ identity.
          if is_super_session tenant_id role
          then resolve_super_admin identity.email
          else resolve_in_tenant out identity.email tenant_id role)
        view
        λ identity.
          Keeps-if view (is_super_session tenant_id role) _ _
            (resolve_super_admin-Keeps identity.email)
            (resolve_in_tenant-Keeps out identity.email tenant_id role)
