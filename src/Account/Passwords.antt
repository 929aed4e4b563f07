-- ===== src/Account/Passwords.antt =====
-- change_password of app/domains/auth/service.py. Whether the identity provider took the new password
-- too is the answer of another service, an argument here.
use sams_backend.Base.{
  String, List, [], ◌∷◌, Option, none, some, Bool, not, ◌==◌, string_eq, contains, if◌then◌else◌,
  is_text, Action, pure, gets, modify, or_raise, require_that, ◌>>=◌, ◌>>◌, ⊤, value_error,
  permission_error,
}
use sams_backend.Account.{Control, Outside, AccountRow}
use sams_backend.Account.Directory.{
  get_db_pool, get_super_admin_by_email, get_parent_by_email, get_user_by_email,
  update_super_admin_password, update_parent_password, update_user_password_hash,
}
use sams_backend.Account.Candidates.{verify_password}

abbrev pub managed_placeholders : List String
managed_placeholders = "managed" ∷ "keycloak_managed" ∷ []

abbrev pub unknown_account : {A : Type 0} → Option A → Action Control A
unknown_account found = or_raise found (value_error "Account not found")

-- The stored hash is one that is kept here, and the current password verifies against it.
unfoldable pub check_current : Outside → String → String → Action Control ⊤
check_current out current stored_hash =
    require_that (not (contains stored_hash managed_placeholders)) (
      permission_error
        "This account's password is managed by single sign-on and cannot be changed here.")
    >> require_that (verify_password out current stored_hash)
        (value_error "Current password is incorrect")

unfoldable pub change_super_admin : Outside → String → String → String → Action Control ⊤
change_super_admin out email current new = do
  found ← gets (get_super_admin_by_email email)
  record_of ← unknown_account found
  check_current out current record_of.password_hash
  modify (update_super_admin_password record_of.id (out.hash new))

-- The copy of the hash in the schema of the tenant, where there is one.
abbrev pub mirror : String → String → Option AccountRow → Control → Control
mirror tenant_id new_hash none s = s
mirror tenant_id new_hash (some u) s = update_user_password_hash tenant_id u.id new_hash s

unfoldable pub mirror_in_tenant : Outside → String → String → String → Action Control ⊤
mirror_in_tenant out email tenant_id new_hash =
    get_db_pool out tenant_id
    >> modify (λ s. mirror tenant_id new_hash (get_user_by_email tenant_id email s) s)

unfoldable pub change_parent : Outside → String → String → String → String → Action Control ⊤
change_parent out email tenant_id current new = do
  found ← gets (get_parent_by_email email)
  record_of ← unknown_account found
  check_current out current record_of.password_hash
  modify (update_parent_password record_of.id (out.hash new))
  (if is_text tenant_id then mirror_in_tenant out email tenant_id (out.hash new) else pure tt)

unfoldable pub change_user : Outside → String → String → String → String → Action Control ⊤
change_user out email tenant_id current new = do
  require_that (is_text tenant_id) (value_error "Account not found")
  get_db_pool out tenant_id
  found ← gets (get_user_by_email tenant_id email)
  user ← unknown_account found
  check_current out current user.password_hash
  modify (update_user_password_hash tenant_id user.id (out.hash new))

-- Which of the three stores of passwords a role has.
pub data PasswordStore : Type 0 where
  in_super_admins in_parents in_tenant : PasswordStore

abbrev pub store_of : String → PasswordStore
store_of role =
    if role == "super_admin"
    then in_super_admins
    else if role == "parent"
    then in_parents
    else in_tenant

unfoldable pub change_in :
    PasswordStore → Outside → String → String → String → String → Action Control ⊤
change_in in_super_admins out email tenant_id current new = change_super_admin out email current new
change_in in_parents out email tenant_id current new = change_parent out email tenant_id current new
change_in in_tenant out email tenant_id current new = change_user out email tenant_id current new

-- No tenant is the empty text, as everywhere in this file of the program.
unfoldable pub change_password :
    Outside → Bool → String → String → String → String → String → Action Control Bool
change_password out synced email role tenant_id current new =
    require_that (not (new == current))
      (value_error "New password must be different from the current password")
    >> (change_in (store_of role) out email tenant_id current new >> pure synced)
