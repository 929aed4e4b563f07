-- ===== src/Account/Registering.antt =====
-- What register_user keeps of the tables that decide who may register.
use sams_backend.Base.{
  ℕ, [], ◌∷◌, Option, none, some, not, ◌&&◌, ◌||◌, ◌==◌, string_eq, contains, is_some,
  if◌then◌else◌, strip, is_text, Action, pure, raise, gets, modify, require_that, ◌>>=◌, ◌>>◌, ⊤,
  value_error, permission_error, Keeps, Keeps-require_that, Preserves, Preserves-bind,
  Preserves-guard, Preserves-if, refl, arith,
}
use sams_backend.Account.{Control, Outside, AccountRow, Claims}
use sams_backend.Account.Directory.{
  get_db_pool, get_user_by_email, create_user, create_teacher_profile,
}
use sams_backend.Account.Pools.{get_db_pool-Keeps}
use sams_backend.Account.Invites.{Invite, find_invite, check_usable}
use sams_backend.Account.Register.{
  Application, lock_to, is_recognized, register_super_admin, finish_registration, register_parent,
  check_pass, write_profile, register_school_user, school_roles, register_as, register_user,
}
use sams_backend.Account.Codes.{Codes, codes, create_user-codes, create_teacher_profile-codes}
use sams_backend.Account.Registration.{
  Lasting, Safe, keeps, register_super_admin-Safe, finish_registration-Safe, register_parent-Safe,
}

module _ {place_student : ℕ → Application → Action Control ⊤} {out : Outside} {Q : Codes → Type 0}
    (law : Lasting place_student out Q) where
  write_profile-Safe :
      (a : Application) (user_id : ℕ) → Preserves (Safe law) (write_profile place_student a user_id)
  unfolding write_profile
  write_profile-Safe a user_id =
      Preserves-if (Safe law) (a.role == "teacher")
        (modify (create_teacher_profile a.tenant_id user_id))
        (if a.role == "student" then place_student user_id a else pure tt)
        (keeps law (modify (create_teacher_profile a.tenant_id user_id))
          (create_teacher_profile-codes a.tenant_id user_id))
        (Preserves-if (Safe law) (a.role == "student") (place_student user_id a) (pure tt)
          (keeps law (place_student user_id a) (law.places user_id a)) (λ s q. q))

  check_pass-Safe :
      (a : Application) (invite : Option Invite) → Preserves (Safe law) (check_pass out a invite)
  unfolding check_pass
  check_pass-Safe a invite =
      let passed =
        not (not (is_some invite) && contains a.role ("teacher" ∷ "manager" ∷ "event_teacher" ∷ []))
        || contains a.code
            (out.teacher_invite_code ∷ "regester123" ∷ "register123" ∷ "SCHOOL-STAFF-2026" ∷ []) in
      let refusal = permission_error "Invalid or missing registration pass" in
      Preserves-guard (Safe law) (not (a.role == "school_admin" && not (is_some invite))) _
        (require_that passed refusal)
        (λ _. keeps law (require_that passed refusal) (Keeps-require_that codes passed refusal))

  register_school_user-Safe :
      (a : Application) (invite : Option Invite)
      → Preserves (Safe law) (register_school_user place_student out a invite)
  unfolding register_school_user
  register_school_user-Safe a invite =
      let m4 : ℕ → Action Control Claims = λ user_id.
        write_profile place_student a user_id >> finish_registration out a invite user_id in
      let m3 : Action Control Claims =
        create_user a.tenant_id a.email (out.hash a.password) a.role >>= m4 in
      let m2 : Option AccountRow → Action Control Claims = λ known.
        require_that (not (is_some known)) (value_error "Email already registered") >> m3 in
      let m1 : Action Control Claims = gets (get_user_by_email a.tenant_id a.email) >>= m2 in
      let m0 : Action Control Claims = get_db_pool out a.tenant_id >> m1 in
      Preserves-guard (Safe law) (is_text a.tenant_id) _ (check_pass out a invite >> m0) λ _.
        Preserves-bind (Safe law) (check_pass out a invite) (λ _. m0) (check_pass-Safe a invite)
          λ _.
            Preserves-bind (Safe law) (get_db_pool out a.tenant_id) (λ _. m1)
              (keeps law (get_db_pool out a.tenant_id)
                (get_db_pool-Keeps codes (λ x ts. refl) out a.tenant_id))
              λ _.
                Preserves-bind (Safe law) (gets (get_user_by_email a.tenant_id a.email)) m2
                  (λ s q. q)
                  λ known. Preserves-guard (Safe law) (not (is_some known)) _ m3 λ _.
                    Preserves-bind (Safe law)
                      (create_user a.tenant_id a.email (out.hash a.password) a.role) m4
                      (keeps law (create_user a.tenant_id a.email (out.hash a.password) a.role)
                        (create_user-codes a.tenant_id a.email (out.hash a.password) a.role))
                      λ user_id.
                        Preserves-bind (Safe law) (write_profile place_student a user_id)
                          (λ _. finish_registration out a invite user_id)
                          (write_profile-Safe a user_id)
                          (λ _. finish_registration-Safe law a invite user_id)

  register_as-Safe :
      (invite : Option Invite) (a : Application)
      → Preserves (Safe law) (register_as place_student out invite a)
  unfolding register_as
  register_as-Safe invite a =
      let invalid : Action Control Claims =
        raise (value_error "Invalid registration role: {role}") in
      let school : Action Control Claims =
        if contains a.role school_roles
        then register_school_user place_student out a invite
        else invalid in
      Preserves-if (Safe law) (a.role == "super_admin") (register_super_admin out a invite)
        (if a.role == "parent" then register_parent out a invite else school)
        (register_super_admin-Safe law a invite)
        (Preserves-if (Safe law) (a.role == "parent") (register_parent out a invite) school
          (register_parent-Safe law a invite)
          (Preserves-if (Safe law) (contains a.role school_roles)
            (register_school_user place_student out a invite) invalid
            (register_school_user-Safe a invite) (λ s q. q)))

  lock_to-codes : (a : Application) (invite : Option Invite) → Keeps codes (lock_to out a invite)
  unfolding lock_to check_usable
  lock_to-codes a none s = refl
  lock_to-codes a (some i) s = ground arith

  -- The property survives a registration, whether it returns or raises.
  pub register_user-Safe :
      (given : Application) → Preserves (Safe law) (register_user place_student out given)
  unfolding register_user
  register_user-Safe given =
      let a : Application = record given { code = strip given.code } in
      let m2 : Option Invite → Action Control Claims =
        λ invite. lock_to out a invite >>= register_as place_student out invite in
      let m1 : Option Invite → Action Control Claims = λ invite.
        require_that (is_some invite || is_recognized out a)
          (value_error "Invalid or unrecognized invitation code")
        >> m2 invite in
      Preserves-guard (Safe law) (is_text a.code) _ (gets (find_invite a.code) >>= m1) λ _.
        Preserves-bind (Safe law) (gets (find_invite a.code)) m1 (λ s q. q)
          λ invite.
            Preserves-guard (Safe law) (is_some invite || is_recognized out a) _ (m2 invite) λ _.
              Preserves-bind (Safe law) (lock_to out a invite)
                (register_as place_student out invite)
                (keeps law (lock_to out a invite) (lock_to-codes a invite))
                (register_as-Safe invite)
