-- ===== src/Account/NewPassword.antt =====
-- A changed password of a super administrator or a parent is the one that the next login checks.
use mathlib.Core.Option
use sams_backend.Base.{
  String, List, Option, none, some, true, false, not, ◌==◌, nat_eq, string_eq, eq_self, first_row,
  contains, if◌then◌else◌, is_text, same_text, Action, ok, pure, modify, require_that, ◌>>◌, ⊤,
  value_error, permission_error, Keeps, Keeps-bind, Keeps-if, bind-steps, guard-steps, found-steps,
  require_that-steps, pure-steps, first_row-update_hit, ◌≡◌, refl, sym, ap, ◌∙◌, arith,
}
use sams_backend.Account.{Control, Outside, ParentRow, SuperAdminRow, AccountRow}
use sams_backend.Account.Directory.{
  get_db_pool, get_super_admin_by_email, get_parent_by_email, get_user_by_email,
  update_super_admin_password, update_parent_password, update_user_password_hash,
}
use sams_backend.Account.Pools.{get_db_pool-Keeps}
use sams_backend.Account.Candidates.{verify_password}
use sams_backend.Account.Passwords.{
  managed_placeholders, check_current, change_super_admin, change_parent, mirror, mirror_in_tenant,
  PasswordStore, in_super_admins, in_parents, in_tenant,
}

-- The hash that login_user checks for an account in the store.
unfoldable pub stored_hash : PasswordStore → String → String → Control → Option String
stored_hash in_super_admins email tenant_id s =
    Option.map (λ (a : SuperAdminRow). a.password_hash) (get_super_admin_by_email email s)
stored_hash in_parents email tenant_id s =
    Option.map (λ (p : ParentRow). p.password_hash) (get_parent_by_email email s)
stored_hash in_tenant email tenant_id s =
    Option.map (λ (u : AccountRow). u.password_hash) (get_user_by_email tenant_id email s)

-- The change has been made: the current password has been verified, and the new hash is in its place.
pub record Changed (out : Outside) (before after : Option String) (current new : String)
    : Type 0 where
  pub old_hash : String
  pub known : before ≡ some old_hash
  pub verified : verify_password out current old_hash ≡ true
  pub kept_here : contains old_hash managed_placeholders ≡ false
  pub written : after ≡ some (out.hash new)

pub check_current-steps :
    (out : Outside) (current hash : String) (s s' : Control) (u : ⊤)
    → check_current out current hash s ≡ (ok u, s')
    → (verify_password out current hash ≡ true)
      × (contains hash managed_placeholders ≡ false)
      × (s ≡ s')
unfolding check_current
check_current-steps out current hash s s' u h =
    let wrong = value_error "Current password is incorrect" in
    let (here, rest) =
      guard-steps (not (contains hash managed_placeholders))
        (permission_error
          "This account's password is managed by single sign-on and cannot be changed here.")
        (require_that (verify_password out current hash) wrong) s s' u h in
    let (verified, same) =
      require_that-steps (verify_password out current hash) wrong s s' u rest in
    (verified, ground arith, same)

pub change_super_admin-Changed :
    (out : Outside) (email tenant_id current new : String) (s s' : Control) (u : ⊤)
    → change_super_admin out email current new s ≡ (ok u, s')
    → Changed out
        (stored_hash in_super_admins email tenant_id s)
        (stored_hash in_super_admins email tenant_id s')
        current
        new
unfolding change_super_admin stored_hash update_super_admin_password get_super_admin_by_email
change_super_admin-Changed out email tenant_id current new s s' u h =
    let update : SuperAdminRow → Action Control ⊤ =
      λ a. modify (update_super_admin_password a.id (out.hash new)) in
    let (a, found, h1) =
      found-steps (get_super_admin_by_email email) (value_error "Account not found")
        (λ a. check_current out current a.password_hash >> update a) s s' u h in
    let (u1, t, checked, h2) =
      bind-steps (check_current out current a.password_hash) (λ _. update a) s s' u h1 in
    let (verified, here, same) = check_current-steps out current a.password_hash s t u1 checked in
    record {
      old_hash = a.password_hash;
      known = ap (Option.map (λ (x : SuperAdminRow). x.password_hash)) found;
      verified = verified;
      kept_here = here;
      written =
          ap (λ x. stored_hash in_super_admins email tenant_id x) (sym (pure-steps tt u _ s' h2).1)
          ∙ ap (Option.map (λ (x : SuperAdminRow). x.password_hash)) (
              first_row-update_hit (λ (x : SuperAdminRow). x.id == a.id)
                (λ (x : SuperAdminRow). record x { password_hash = out.hash new })
                (λ (x : SuperAdminRow). same_text x.email email) (λ x. refl) t.super_admins a
                (ap (get_super_admin_by_email email) (sym same) ∙ found) (eq_self a.id));
    }

parent_rows : Control → List ParentRow
parent_rows s = s.parents

mirror-parents :
    (tenant_id new_hash : String) (o : Option AccountRow) (s : Control)
    → parent_rows (mirror tenant_id new_hash o s) ≡ parent_rows s
unfolding update_user_password_hash parent_rows
mirror-parents tenant_id new_hash none s = refl
mirror-parents tenant_id new_hash (some u) s = refl

mirror_in_tenant-parents :
    (out : Outside) (email tenant_id new_hash : String)
    → Keeps parent_rows (mirror_in_tenant out email tenant_id new_hash)
unfolding mirror_in_tenant parent_rows
mirror_in_tenant-parents out email tenant_id new_hash =
    Keeps-bind parent_rows (get_db_pool out tenant_id)
      (λ _. modify (λ s. mirror tenant_id new_hash (get_user_by_email tenant_id email s) s))
      (get_db_pool-Keeps parent_rows (λ s ts. refl) out tenant_id)
      (λ _ s. mirror-parents tenant_id new_hash (get_user_by_email tenant_id email s) s)

pub change_parent-Changed :
    (out : Outside) (email tenant_id current new : String) (s s' : Control) (u : ⊤)
    → change_parent out email tenant_id current new s ≡ (ok u, s')
    → Changed out
        (stored_hash in_parents email tenant_id s)
        (stored_hash in_parents email tenant_id s')
        current
        new
unfolding change_parent stored_hash update_parent_password get_parent_by_email parent_rows
change_parent-Changed out email tenant_id current new s s' u h =
    let update : ParentRow → Action Control ⊤ =
      λ p. modify (update_parent_password p.id (out.hash new)) in
    let copy : Action Control ⊤ =
      if is_text tenant_id then mirror_in_tenant out email tenant_id (out.hash new) else pure tt in
    let (p, found, h1) =
      found-steps (get_parent_by_email email) (value_error "Account not found")
        (λ p. check_current out current p.password_hash >> (update p >> copy)) s s' u h in
    let (u1, t, checked, h2) =
      bind-steps (check_current out current p.password_hash) (λ _. update p >> copy) s s' u h1 in
    let (verified, here, same) = check_current-steps out current p.password_hash s t u1 checked in
    let changed = update_parent_password p.id (out.hash new) t in
    let kept : parent_rows s' ≡ parent_rows changed =
      ap (λ x. parent_rows x.1) (sym h2)
      ∙ Keeps-if parent_rows (is_text tenant_id)
          (mirror_in_tenant out email tenant_id (out.hash new)) (pure tt)
          (mirror_in_tenant-parents out email tenant_id (out.hash new)) (λ x. refl) changed in
    record {
      old_hash = p.password_hash;
      known = ap (Option.map (λ (x : ParentRow). x.password_hash)) found;
      verified = verified;
      kept_here = here;
      written =
          ap
            (λ ps.
              Option.map (λ (x : ParentRow). x.password_hash)
                (first_row (λ (x : ParentRow). same_text x.email email) ps))
            kept
          ∙ ap (Option.map (λ (x : ParentRow). x.password_hash)) (
              first_row-update_hit (λ (x : ParentRow). x.id == p.id)
                (λ (x : ParentRow). record x { password_hash = out.hash new })
                (λ (x : ParentRow). same_text x.email email) (λ x. refl) t.parents p
                (ap (get_parent_by_email email) (sym same) ∙ found) (eq_self p.id));
    }
