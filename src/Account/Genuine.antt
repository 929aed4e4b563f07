-- ===== src/Account/Genuine.antt =====
-- Every candidate that a login checks is an account of the person who logs in.
use sams_backend.Base.{
  String, [], Option, none, some, Bool, true, false, ◌==◌, string_eq, if◌then◌else◌, is_text,
  Result, ok, err, pure, ⊤, pure-steps, Bool-cases, ◌≡◌, refl, sym, ap, ◌∙◌, inl, inr,
}
use sams_backend.Account.{Control, Outside, ParentRow, SuperAdminRow, AccountRow}
use sams_backend.Account.Directory.{
  get_db_pool, get_parent_by_email, get_super_admin_by_email, check_parent_tenant_link,
  get_user_by_email,
}
use sams_backend.Account.Pools.{get_db_pool-Keeps}
use sams_backend.Account.Candidates.{
  Candidate, admin_candidate, parent_candidate, user_candidate, as_user, local_candidate,
  tenant_candidate, fetch_login_candidate,
}

-- The store without its list of tenants, which opening a pool may extend.
abbrev pub people : Control → Control
people s = record s { tenants = [] }

-- An account that an address has in the tables, with its own hash.
pub data Genuine (email : String) (s : Control) : Candidate → Type 0 where
  is_admin :
      (a : SuperAdminRow)
      → get_super_admin_by_email email s ≡ some a
      → Genuine email s (admin_candidate "" a)
  is_parent_of :
      (tenant_id : String) (p : ParentRow)
      → get_parent_by_email email s ≡ some p
      → check_parent_tenant_link p.id tenant_id s ≡ true
      → Genuine email s (parent_candidate tenant_id p)
  is_user_of :
      (tenant_id : String) (u : AccountRow)
      → get_user_by_email tenant_id email s ≡ some u
      → Genuine email s
          (record { tenant_id = tenant_id; hash = u.password_hash; holder = as_user u })

abbrev pub Sound : String → Control → String → Option Candidate → Type 0
Sound email s tenant_id none = Unit
Sound email s tenant_id (some c) = Genuine email s c × (c.tenant_id ≡ tenant_id)

user_candidate-Sound :
    (email tenant_id : String) (s : Control) (o : Option AccountRow)
    → get_user_by_email tenant_id email s ≡ o
    → Sound email s tenant_id (user_candidate tenant_id o)
unfolding user_candidate
user_candidate-Sound email tenant_id s none h = tt
user_candidate-Sound email tenant_id s (some u) h = elim (Bool-cases (is_text u.password_hash)) [
  | inl hashed ↦ rw hashed (is_user_of tenant_id u h, refl)
  | inr bare ↦ rw bare tt
]

-- The look into a tenant, once the pool has answered or failed.
pool-Sound :
    (email tenant_id : String) (s : Control) (r : Result ⊤) (t s' : Control)
    (found : Option Candidate)
    → people t ≡ people s
    → (elim r as (λ _. Result (Option Candidate) × Control) [
      | ok u ↦ pure (user_candidate tenant_id (get_user_by_email tenant_id email t)) t
      | err e ↦ pure none t
    ])
      ≡ (ok found, s')
    → Sound email (people s) tenant_id found × (people s' ≡ people s)
unfolding get_user_by_email
pool-Sound email tenant_id s (ok u) t s' found kept h =
    let (e1, e2) = pure-steps _ found t s' h in
    (
      rw (sym e1, sym kept) (user_candidate-Sound email tenant_id (people t) _ refl),
      ap people (sym e2) ∙ kept,
    )
pool-Sound email tenant_id s (err e) t s' found kept h =
    let (e1, e2) = pure-steps none found t s' h in (rw (sym e1) tt, ap people (sym e2) ∙ kept)

pub local_candidate-Sound :
    (out : Outside) (email tenant_id : String) (s s' : Control) (found : Option Candidate)
    → local_candidate out email tenant_id s ≡ (ok found, s')
    → Sound email (people s) tenant_id found × (people s' ≡ people s)
unfolding local_candidate
local_candidate-Sound out email tenant_id s s' found h =
    pool-Sound email tenant_id s (get_db_pool out tenant_id s).0 (get_db_pool out tenant_id s).1 s'
      found (get_db_pool-Keeps people (λ x ts. refl) out tenant_id s) h

module _ (out : Outside) (email : String) where
  linked-Sound :
      (b : Bool) (tenant_id : String) (p : ParentRow) (s s' : Control) (found : Option Candidate)
      → get_parent_by_email email (people s) ≡ some p
      → check_parent_tenant_link p.id tenant_id (people s) ≡ b
      → (if b
          then pure (some (parent_candidate tenant_id p)) s
          else local_candidate out email tenant_id s)
        ≡ (ok found, s')
      → Sound email (people s) tenant_id found × (people s' ≡ people s)
  linked-Sound true tenant_id p s s' found known linked h =
      let (e1, e2) = pure-steps (some (parent_candidate tenant_id p)) found s s' h in
      (rw (sym e1) (is_parent_of tenant_id p known linked, refl), ap people (sym e2))
  linked-Sound false tenant_id p s s' found known linked h =
      local_candidate-Sound out email tenant_id s s' found h

  tenant_candidate-Sound :
      (tenant_id : String) (parent : Option ParentRow) (s s' : Control) (found : Option Candidate)
      → get_parent_by_email email (people s) ≡ parent
      → tenant_candidate out email tenant_id parent s ≡ (ok found, s')
      → Sound email (people s) tenant_id found × (people s' ≡ people s)
  unfolding tenant_candidate check_parent_tenant_link
  tenant_candidate-Sound tenant_id none s s' found known h =
      local_candidate-Sound out email tenant_id s s' found h
  tenant_candidate-Sound tenant_id (some p) s s' found known h =
      linked-Sound _ tenant_id p s s' found known refl h

  admin-Sound :
      (b : Bool) (tenant_id : String) (a : SuperAdminRow) (parent : Option ParentRow)
      (s s' : Control) (found : Option Candidate)
      → get_parent_by_email email (people s) ≡ parent
      → get_super_admin_by_email email (people s) ≡ some a
      → (tenant_id == "") ≡ b
      → (if b
          then pure (some (admin_candidate tenant_id a)) s
          else tenant_candidate out email tenant_id parent s)
        ≡ (ok found, s')
      → Sound email (people s) tenant_id found × (people s' ≡ people s)
  admin-Sound true tenant_id a parent s s' found known admin home h =
      let (e1, e2) = pure-steps (some (admin_candidate tenant_id a)) found s s' h in
      let here : tenant_id ≡ "" = (string_eq.test_iff tenant_id "").0 home in
      (rw (sym e1, here) (is_admin a admin, refl), ap people (sym e2))
  admin-Sound false tenant_id a parent s s' found known admin home h =
      tenant_candidate-Sound tenant_id parent s s' found known h

  pub fetch_login_candidate-Sound :
      (tenant_id : String) (parent : Option ParentRow) (super_admin : Option SuperAdminRow)
      (s s' : Control) (found : Option Candidate)
      → get_parent_by_email email (people s) ≡ parent
      → get_super_admin_by_email email (people s) ≡ super_admin
      → fetch_login_candidate out email tenant_id parent super_admin s ≡ (ok found, s')
      → Sound email (people s) tenant_id found × (people s' ≡ people s)
  unfolding fetch_login_candidate
  fetch_login_candidate-Sound tenant_id parent none s s' found known admin h =
      tenant_candidate-Sound tenant_id parent s s' found known h
  fetch_login_candidate-Sound tenant_id parent (some a) s s' found known admin h =
      admin-Sound (tenant_id == "") tenant_id a parent s s' found known admin refl h
