-- ===== src/Account/LoginHash.antt =====
-- The password hash that login_user of app/domains/auth/service.py checks, before and after
-- change_password.
use mathlib.Core.Option
use sams_backend.Base.{
  String, Option, none, some, Bool, true, false, ◌==◌, string_eq, is_text, Result, ok, err, ◌≡◌,
  refl, sym, ap, ◌∙◌, pure, require_that, runtime_error, ⊤,
}
use sams_backend.Account.{Control, Outside, ParentRow, SuperAdminRow, AccountRow}
use sams_backend.Account.Directory.{
  get_db_pool, register_tenant, get_super_admin_by_email, get_parent_by_email, get_user_by_email,
  check_parent_tenant_link,
}
use sams_backend.Account.Pools.{get_db_pool-Keeps}
use sams_backend.Account.Genuine.{people}
use sams_backend.Account.Candidates.{
  Candidate, verify_password, user_candidate, local_candidate, tenant_candidate,
  fetch_login_candidate,
}
use sams_backend.Account.Passwords.{
  in_super_admins, in_parents, in_tenant, store_of, change_password,
}
use sams_backend.Account.NewPassword.{stored_hash}
use sams_backend.Account.ChangedPassword.{change_password-Changed, get_user_by_email-people}

abbrev hash_in : Option Candidate → Option String
hash_in none = none
hash_in (some c) = some c.hash

abbrev hash_of : Result (Option Candidate) × Control → Option String
hash_of (ok found, s) = hash_in found
hash_of (err e, s) = none

-- The hash of the candidate that login_user fetches for a person and a tenant.
unfoldable pub login_hash : Outside → String → String → Control → Option String
login_hash out email tenant_id s = hash_of (
    fetch_login_candidate out email tenant_id (get_parent_by_email email s)
      (get_super_admin_by_email email s) s)

-- Whether a login with a tenant takes the global parent instead of the tenant's own account.
abbrev pub is_linked : Option ParentRow → String → Control → Bool
is_linked none tenant_id s = false
is_linked (some p) tenant_id s = check_parent_tenant_link p.id tenant_id s

-- Where a person with a role logs in: a super administrator outside every tenant, a parent in a tenant
-- that is linked, and anybody else in a tenant that answers and has no link to a parent of this address.
pub data Home (out : Outside) (role email tenant_id : String) (s : Control) : String → Type 0 where
  administrator : (role == "super_admin") ≡ true → Home out role email tenant_id s ""
  linked_parent :
      (role == "super_admin") ≡ false
      → (role == "parent") ≡ true
      → (tenant_id == "") ≡ false
      → is_linked (get_parent_by_email email s) tenant_id s ≡ true
      → Home out role email tenant_id s tenant_id
  local_user :
      (role == "super_admin") ≡ false
      → (role == "parent") ≡ false
      → (tenant_id == "") ≡ false
      → is_linked (get_parent_by_email email s) tenant_id s ≡ false
      → out.answers tenant_id ≡ true
      → ((u : AccountRow)
          → get_user_by_email tenant_id email s ≡ some u
          → is_text u.password_hash ≡ true)
      → Home out role email tenant_id s tenant_id

administrator_hash :
    (out : Outside) (email h : String) (p : Option ParentRow) (o : Option SuperAdminRow)
    (s : Control)
    → Option.map (λ (a : SuperAdminRow). a.password_hash) o ≡ some h
    → hash_of (fetch_login_candidate out email "" p o s) ≡ some h
unfolding fetch_login_candidate
administrator_hash out email h p none s known = cc
administrator_hash out email h p (some a) s known = known

-- In a tenant, nobody is looked up as a super administrator.
in_a_tenant :
    (out : Outside) (email tenant_id : String) (p : Option ParentRow) (o : Option SuperAdminRow)
    (s : Control)
    → (tenant_id == "") ≡ false
    → fetch_login_candidate out email tenant_id p o s ≡ tenant_candidate out email tenant_id p s
unfolding fetch_login_candidate
in_a_tenant out email tenant_id p none s named = refl
in_a_tenant out email tenant_id p (some a) s named = rw named refl

parent_hash :
    (out : Outside) (email tenant_id h : String) (p : Option ParentRow) (s : Control)
    → is_linked p tenant_id s ≡ true
    → Option.map (λ (x : ParentRow). x.password_hash) p ≡ some h
    → hash_of (tenant_candidate out email tenant_id p s) ≡ some h
unfolding tenant_candidate
parent_hash out email tenant_id h none s linked known = cc
parent_hash out email tenant_id h (some p) s linked known = rw linked known

unlinked_local :
    (out : Outside) (email tenant_id : String) (p : Option ParentRow) (s : Control)
    → is_linked p tenant_id s ≡ false
    → tenant_candidate out email tenant_id p s ≡ local_candidate out email tenant_id s
unfolding tenant_candidate
unlinked_local out email tenant_id none s unlinked = refl
unlinked_local out email tenant_id (some p) s unlinked = rw unlinked refl

account_hash :
    (tenant_id h : String) (o : Option AccountRow)
    → ((u : AccountRow) → o ≡ some u → is_text u.password_hash ≡ true)
    → Option.map (λ (u : AccountRow). u.password_hash) o ≡ some h
    → hash_in (user_candidate tenant_id o) ≡ some h
unfolding user_candidate
account_hash tenant_id h none kept known = cc
account_hash tenant_id h (some u) kept known = rw (kept u refl) known

pool_opens :
    (out : Outside) (tenant_id : String) (s : Control)
    → out.answers tenant_id ≡ true
    → get_db_pool out tenant_id s ≡ (ok tt, register_tenant tenant_id s)
unfolding get_db_pool
pool_opens out tenant_id s answers = opens (out.answers tenant_id) answers
  where
    opens :
        (b : Bool)
        → b ≡ true
        → require_that b
            (runtime_error "could not connect to the tenant database")
            (register_tenant tenant_id s)
          ≡ (ok tt, register_tenant tenant_id s)
    opens true h = refl
    opens false h = cc

abbrev after_pool : String → String → Result ⊤ × Control → Option String
after_pool email tenant_id (ok u, t) =
    hash_in (user_candidate tenant_id (get_user_by_email tenant_id email t))
after_pool email tenant_id (err e, t) = none

local_candidate-after :
    (out : Outside) (email tenant_id : String) (s : Control)
    → hash_of (local_candidate out email tenant_id s)
      ≡ after_pool email tenant_id (get_db_pool out tenant_id s)
unfolding local_candidate
local_candidate-after out email tenant_id s = either (get_db_pool out tenant_id s)
  where
    either :
        (o : Result ⊤ × Control)
        → hash_of (elim o.0 as (λ _. Result (Option Candidate) × Control) [
          | ok u ↦ pure (user_candidate tenant_id (get_user_by_email tenant_id email o.1)) o.1
          | err e ↦ pure none o.1
        ])
          ≡ after_pool email tenant_id o
    either (ok u, t) = refl
    either (err e, t) = refl

local_hash :
    (out : Outside) (email tenant_id h : String) (s : Control)
    → out.answers tenant_id ≡ true
    → ((u : AccountRow)
        → get_user_by_email tenant_id email s ≡ some u
        → is_text u.password_hash ≡ true)
    → Option.map (λ (u : AccountRow). u.password_hash) (get_user_by_email tenant_id email s)
      ≡ some h
    → hash_of (local_candidate out email tenant_id s) ≡ some h
local_hash out email tenant_id h s answers kept known =
    let w = register_tenant tenant_id s in
    let opened = pool_opens out tenant_id s answers in
    let same : people w ≡ people s =
      ap (λ (o : Result ⊤ × Control). people o.1) (sym opened)
      ∙ get_db_pool-Keeps people (λ x ts. refl) out tenant_id s in
    local_candidate-after out email tenant_id s
    ∙ ap (after_pool email tenant_id) opened
    ∙ ap (λ o. hash_in (user_candidate tenant_id o))
        (sym (get_user_by_email-people tenant_id email s w same))
    ∙ account_hash tenant_id h (get_user_by_email tenant_id email s) kept known

-- A login at home checks the hash that the role's store keeps.
reads :
    (out : Outside) (role email tenant_id home h : String) (s : Control)
    → Home out role email tenant_id s home
    → stored_hash (store_of role) email tenant_id s ≡ some h
    → login_hash out email home s ≡ some h
unfolding login_hash stored_hash
reads out role email tenant_id _ h s (administrator admin) known =
    let store : store_of role ≡ in_super_admins = rw admin refl in
    administrator_hash out email h (get_parent_by_email email s) (get_super_admin_by_email email s)
      s (ap (λ k. stored_hash k email tenant_id s) (sym store) ∙ known)
reads out role email tenant_id _ h s (linked_parent other parent named linked) known =
    let store : store_of role ≡ in_parents = rw other (rw parent refl) in
    let p = get_parent_by_email email s in
    ap hash_of (in_a_tenant out email tenant_id p (get_super_admin_by_email email s) s named)
    ∙ parent_hash out email tenant_id h p s linked
        (ap (λ k. stored_hash k email tenant_id s) (sym store) ∙ known)
reads out role email tenant_id _ h s (local_user other no_parent named unlinked answers kept)
      known =
    let store : store_of role ≡ in_tenant = rw other (rw no_parent refl) in
    let p = get_parent_by_email email s in
    ap hash_of (
      in_a_tenant out email tenant_id p (get_super_admin_by_email email s) s named
      ∙ unlinked_local out email tenant_id p s unlinked)
    ∙ local_hash out email tenant_id h s answers kept
        (ap (λ k. stored_hash k email tenant_id s) (sym store) ∙ known)

-- A password change that returns has verified the current password against the hash that login_user
-- fetches for the person at home, and afterwards login_user fetches there a hash that the new password
-- verifies against, provided that the password hash verifies what it has hashed. Home is no tenant for a
-- super administrator, a linked tenant for a parent, and for any other role the tenant, where it answers,
-- has no link to a parent of that address, and keeps a hash that is not empty.
pub change_password-login_hash :
    (out : Outside) (synced : Bool) (email role tenant_id home current new : String)
    (s s' : Control) (answer : Bool)
    → out.verify new (out.hash new) ≡ some true
    → Home out role email tenant_id s home
    → Home out role email tenant_id s' home
    → change_password out synced email role tenant_id current new s ≡ (ok answer, s')
    → ((old : String) × (login_hash out email home s ≡ some old)
        × (verify_password out current old ≡ true))
      × ((latest : String) × (login_hash out email home s' ≡ some latest)
          × (verify_password out new latest ≡ true))
change_password-login_hash out synced email role tenant_id home current new s s' answer sound before
      after h =
    let (changed, verifies, _) =
      change_password-Changed out synced email role tenant_id current new s s' answer sound h in
    (
      (
        changed.old_hash,
        reads out role email tenant_id home changed.old_hash s before changed.known,
        changed.verified,
      ),
      (
        out.hash new,
        reads out role email tenant_id home (out.hash new) s' after changed.written,
        verifies,
      ),
    )
