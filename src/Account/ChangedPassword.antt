-- ===== src/Account/ChangedPassword.antt =====
-- A changed password is the one that the next login checks.
use mathlib.Core.Option
use sams_backend.Base.{
  String, Option, none, some, Bool, true, false, not, ◌&&◌, ◌==◌, nat_eq, string_eq, eq_self,
  first_row, update_rows, strip, if◌then◌else◌, is_text, Action, ok, pure, modify, ◌>>◌, ⊤,
  value_error, with_found, bind-steps, guard-steps, found-steps, pure-steps, first_row-update_hit,
  test-first_row, ◌≡◌, refl, sym, ap, ◌∙◌,
}
use mathlib.Core.Path.{subst}
use sams_backend.Account.{Control, Outside, AccountRow}
use sams_backend.Account.Directory.{
  get_db_pool, get_user_by_email, is_account, update_user_password_hash,
}
use sams_backend.Account.Pools.{get_db_pool-Keeps}
use sams_backend.Account.Lifecycle.{both_true}
use sams_backend.Account.Genuine.{people}
use sams_backend.Account.Candidates.{verify_password}
use sams_backend.Account.Passwords.{
  check_current, change_user, PasswordStore, in_super_admins, in_parents, in_tenant, store_of,
  change_in, change_password,
}
use sams_backend.Account.NewPassword.{
  stored_hash, Changed, check_current-steps, change_super_admin-Changed, change_parent-Changed,
}

pub get_user_by_email-people :
    (tenant_id email : String) (s w : Control)
    → people w ≡ people s
    → get_user_by_email tenant_id email s ≡ get_user_by_email tenant_id email w
unfolding get_user_by_email
get_user_by_email-people tenant_id email s w h =
    ap
      (λ (x : Control).
        if is_text email then first_row (is_account tenant_id (strip email)) x.accounts else none)
      (sym h)

-- What a query by address finds in a schema stands in that schema.
schema_of_found :
    (tenant_id email : String) (s : Control) (u : AccountRow)
    → get_user_by_email tenant_id email s ≡ some u
    → (u.schema == tenant_id) ≡ true
unfolding get_user_by_email
schema_of_found tenant_id email s u h = in_schema (is_text email) h
  where
    in_schema :
        (b : Bool)
        → (if b then first_row (is_account tenant_id (strip email)) s.accounts else none) ≡ some u
        → (u.schema == tenant_id) ≡ true
    in_schema true k =
        (both_true (u.schema == tenant_id) _
          (test-first_row (is_account tenant_id (strip email)) s.accounts u k)).0
    in_schema false k = cc

get_user_by_email-update :
    (tenant_id email new_hash : String) (s : Control) (u : AccountRow)
    → get_user_by_email tenant_id email s ≡ some u
    → get_user_by_email tenant_id email (update_user_password_hash tenant_id u.id new_hash s)
      ≡ some (record u { password_hash = new_hash })
unfolding get_user_by_email update_user_password_hash
get_user_by_email-update tenant_id email new_hash s u h = found_again (is_text email) h
  where
    found_again :
        (b : Bool)
        → (if b then first_row (is_account tenant_id (strip email)) s.accounts else none) ≡ some u
        → (if b
            then first_row (is_account tenant_id (strip email)) (
                update_rows
                  (λ (x : AccountRow). x.schema == tenant_id && x.id == u.id)
                  (λ (x : AccountRow). record x { password_hash = new_hash })
                  s.accounts)
            else none)
          ≡ some (record u { password_hash = new_hash })
    found_again true k =
        first_row-update_hit (λ (x : AccountRow). x.schema == tenant_id && x.id == u.id)
          (λ (x : AccountRow). record x { password_hash = new_hash })
          (is_account tenant_id (strip email)) (λ x. refl) s.accounts u k
          (rw (schema_of_found tenant_id email s u h, eq_self u.id) refl)
    found_again false k = cc

pub change_user-Changed :
    (out : Outside) (email tenant_id current new : String) (s s' : Control) (u : ⊤)
    → change_user out email tenant_id current new s ≡ (ok u, s')
    → Changed out
        (stored_hash in_tenant email tenant_id s)
        (stored_hash in_tenant email tenant_id s')
        current
        new
unfolding change_user stored_hash
change_user-Changed out email tenant_id current new s s' u h =
    let missing = value_error "Account not found" in
    let update : AccountRow → Action Control ⊤ =
      λ user. modify (update_user_password_hash tenant_id user.id (out.hash new)) in
    let change : AccountRow → Action Control ⊤ =
      λ user. check_current out current user.password_hash >> update user in
    let (named, h0) =
      guard-steps (is_text tenant_id) missing
        (get_db_pool out tenant_id >> with_found (get_user_by_email tenant_id email) missing change)
        s s' u h in
    let (u0, w, pooled, h1) =
      bind-steps (get_db_pool out tenant_id)
        (λ _. with_found (get_user_by_email tenant_id email) missing change) s s' u h0 in
    let same_people : people w ≡ people s =
      ap (λ x. people x.1) (sym pooled) ∙ get_db_pool-Keeps people (λ x ts. refl) out tenant_id s in
    let (user, found, h2) =
      found-steps (get_user_by_email tenant_id email) missing change w s' u h1 in
    let (u1, t, checked, h3) =
      bind-steps (check_current out current user.password_hash) (λ _. update user) w s' u h2 in
    let (verified, here, same) =
      check_current-steps out current user.password_hash w t u1 checked in
    record {
      old_hash = user.password_hash;
      known =
          ap (Option.map (λ (x : AccountRow). x.password_hash))
            (get_user_by_email-people tenant_id email s w same_people ∙ found);
      verified = verified;
      kept_here = here;
      written =
          ap (λ x. stored_hash in_tenant email tenant_id x) (sym (pure-steps tt u _ s' h3).1)
          ∙ ap (Option.map (λ (x : AccountRow). x.password_hash)) (
              get_user_by_email-update tenant_id email (out.hash new) t user
                (ap (get_user_by_email tenant_id email) (sym same) ∙ found));
    }

change_in-Changed :
    (kind : PasswordStore) (out : Outside) (email tenant_id current new : String) (s s' : Control)
    (u : ⊤)
    → change_in kind out email tenant_id current new s ≡ (ok u, s')
    → Changed out
        (stored_hash kind email tenant_id s)
        (stored_hash kind email tenant_id s')
        current
        new
unfolding change_in
change_in-Changed in_super_admins = change_super_admin-Changed
change_in-Changed in_parents = change_parent-Changed
change_in-Changed in_tenant = change_user-Changed

-- A password change that returns has verified the current password against the hash that a login of this
-- role checks, and the new password verifies against the hash that stands there now, provided that the
-- password hash verifies what it has hashed.
pub change_password-Changed :
    (out : Outside) (synced : Bool) (email role tenant_id current new : String) (s s' : Control)
    (answer : Bool)
    → out.verify new (out.hash new) ≡ some true
    → change_password out synced email role tenant_id current new s ≡ (ok answer, s')
    → Changed out
        (stored_hash (store_of role) email tenant_id s)
        (stored_hash (store_of role) email tenant_id s')
        current
        new
      × (verify_password out new (out.hash new) ≡ true)
      × (answer ≡ synced)
unfolding change_password verify_password
change_password-Changed out synced email role tenant_id current new s s' answer sound h =
    let change = change_in (store_of role) out email tenant_id current new in
    let (distinct_from, h1) =
      guard-steps (not (new == current))
        (value_error "New password must be different from the current password")
        (change >> pure synced) s s' answer h in
    let (u, t, changed, h2) = bind-steps change (λ _. pure synced) s s' answer h1 in
    let (e1, e2) = pure-steps synced answer t s' h2 in
    (
      subst
          (λ x.
            Changed out (stored_hash (store_of role) email tenant_id s)
              (stored_hash (store_of role) email tenant_id x) current new)
          e2 (change_in-Changed (store_of role) out email tenant_id current new s t u changed),
      ap (λ (o : Option Bool). elim o [ none ↦ false | some verdict ↦ verdict ]) sound,
      sym e1,
    )
