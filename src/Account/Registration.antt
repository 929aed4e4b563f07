-- ===== src/Account/Registration.antt =====
-- What the branches of register_user for super administrators and parents keep of the tables that decide who may register.
use sams_backend.Base.{
  ℕ, String, Option, none, some, true, not, ◌||◌, ◌==◌, string_eq, is_some, is_text, Action, pure,
  gets, modify, require_that, ◌>>=◌, ◌>>◌, ⊤, value_error, permission_error, Keeps, Preserves,
  Preserves-bind, Preserves-guard, Keeps-Preserves, ◌≡◌, refl,
}
use sams_backend.Account.{Control, Outside, SuperAdminRow, ParentRow, AccountRow, Claims}
use sams_backend.Account.Directory.{
  get_db_pool, get_super_admin_by_email, create_super_admin, get_parent_by_email,
  add_parent_tenant_link, get_user_by_email,
}
use sams_backend.Account.Memberships.{upsert_user_tenant_map}
use sams_backend.Account.Pools.{get_db_pool-Keeps}
use sams_backend.Account.Invites.{Invite, increment_invitation_uses}
use sams_backend.Account.Register.{
  Application, count_use, token_for, is_operator, register_super_admin, global_parent, local_parent,
  finish_registration, register_parent,
}
use sams_backend.Account.Codes.{
  Codes, codes, add_parent_tenant_link-codes, upsert_user_tenant_map-codes, global_parent-codes,
  local_parent-codes,
}

-- A property of those tables that survives the two writes of a registration to them: a super
-- administrator with the operator's address, and one more use of an invitation.
pub record Lasting (place_student : ℕ → Application → Action Control ⊤) (out : Outside)
    (Q : Codes → Type 0) : Type 0 where
  pub places : (user_id : ℕ) (a : Application) → Keeps codes (place_student user_id a)
  pub creates :
      (email hash : String)
      → is_operator out email ≡ true
      → Preserves (λ s. Q (codes s)) (create_super_admin email hash)
  pub counts :
      (i : Invite) (s : Control) → Q (codes s) → Q (codes (increment_invitation_uses i.code s))

module _ {place_student : ℕ → Application → Action Control ⊤} {out : Outside} {Q : Codes → Type 0}
    (law : Lasting place_student out Q) where
  abbrev pub Safe : Control → Type 0
  Safe s = Q (codes s)

  pub keeps : {A : Type 0} (m : Action Control A) → Keeps codes m → Preserves Safe m
  keeps m h = Keeps-Preserves codes Q m h

  count_use-Safe : (invite : Option Invite) → Preserves Safe (modify (count_use invite))
  count_use-Safe none s q = q
  count_use-Safe (some i) s q = law.counts i s q

  end-Safe :
      (invite : Option Invite) (c : Claims) → Preserves Safe (modify (count_use invite) >> pure c)
  end-Safe invite c =
      Preserves-bind Safe (modify (count_use invite)) (λ _. pure c) (count_use-Safe invite)
        (λ _ s q. q)

  pub register_super_admin-Safe :
      (a : Application) (invite : Option Invite)
      → Preserves Safe (register_super_admin out a invite)
  unfolding register_super_admin
  register_super_admin-Safe a invite =
      let last : ℕ → Action Control Claims = λ user_id.
        modify (count_use invite) >> pure (token_for out user_id "" "super_admin" a.email) in
      let write : Action Control Claims =
        create_super_admin a.email (out.hash a.password) >>= last in
      let m2 : Option SuperAdminRow → Action Control Claims = λ known.
        require_that (not (is_some known)) (value_error "Email already registered") >> write in
      let m1 : Action Control Claims = gets (get_super_admin_by_email a.email) >>= m2 in
      let coded = is_some invite || a.code == out.bootstrap_code in
      let uncoded =
        permission_error
          "super_admin accounts require the dedicated platform bootstrap code, not a staff self-registration passphrase." in
      Preserves-guard Safe (is_operator out a.email) _ (require_that coded uncoded >> m1)
        λ operator. Preserves-guard Safe coded uncoded m1 λ _.
          Preserves-bind Safe (gets (get_super_admin_by_email a.email)) m2 (λ s q. q)
            λ known. Preserves-guard Safe (not (is_some known)) _ write λ _.
              Preserves-bind Safe (create_super_admin a.email (out.hash a.password)) last
                (law.creates a.email (out.hash a.password) operator)
                (λ user_id. end-Safe invite (token_for out user_id "" "super_admin" a.email))

  pub finish_registration-Safe :
      (a : Application) (invite : Option Invite) (user_id : ℕ)
      → Preserves Safe (finish_registration out a invite user_id)
  unfolding finish_registration
  finish_registration-Safe a invite user_id =
      let token = token_for out user_id a.tenant_id a.role a.email in
      Preserves-bind Safe (upsert_user_tenant_map out.now a.email a.tenant_id a.role)
        (λ _. modify (count_use invite) >> pure token)
        (keeps (upsert_user_tenant_map out.now a.email a.tenant_id a.role)
          (upsert_user_tenant_map-codes out.now a.email a.tenant_id a.role))
        (λ _. end-Safe invite token)

  pub register_parent-Safe :
      (a : Application) (invite : Option Invite) → Preserves Safe (register_parent out a invite)
  unfolding register_parent
  register_parent-Safe a invite =
      let finish : ℕ → Action Control Claims = finish_registration out a invite in
      let m4 : Option AccountRow → Action Control Claims =
        λ user. local_parent out a user >>= finish in
      let m3 : Action Control Claims = gets (get_user_by_email a.tenant_id a.email) >>= m4 in
      let m2 : Action Control Claims = get_db_pool out a.tenant_id >> m3 in
      let m1 : ℕ → Action Control Claims =
        λ parent_id. add_parent_tenant_link parent_id a.tenant_id >> m2 in
      let m0 : Option ParentRow → Action Control Claims =
        λ known. global_parent out a known >>= m1 in
      Preserves-guard Safe (is_text a.tenant_id) _ (gets (get_parent_by_email a.email) >>= m0) λ _.
        Preserves-bind Safe (gets (get_parent_by_email a.email)) m0 (λ s q. q)
          λ known.
            Preserves-bind Safe (global_parent out a known) m1
              (keeps (global_parent out a known) (global_parent-codes out a known))
              λ parent_id.
                Preserves-bind Safe (add_parent_tenant_link parent_id a.tenant_id) (λ _. m2)
                  (keeps (add_parent_tenant_link parent_id a.tenant_id)
                    (add_parent_tenant_link-codes parent_id a.tenant_id))
                  λ _.
                    Preserves-bind Safe (get_db_pool out a.tenant_id) (λ _. m3)
                      (keeps (get_db_pool out a.tenant_id)
                        (get_db_pool-Keeps codes (λ x ts. refl) out a.tenant_id))
                      λ _.
                        Preserves-bind Safe (gets (get_user_by_email a.tenant_id a.email)) m4
                          (λ s q. q)
                          λ user.
                            Preserves-bind Safe (local_parent out a user) finish
                              (keeps (local_parent out a user) (local_parent-codes out a user))
                              (finish_registration-Safe a invite)
