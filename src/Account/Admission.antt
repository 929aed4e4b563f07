-- ===== src/Account/Admission.antt =====
-- Who login_user lets in, and where.
use sams_backend.Base.{
  String, List, [], ◌∷◌, Option, none, some, Bool, true, false, string_eq, where_rows, contains,
  if◌then◌else◌, is_text, normal_email, All, Action, ok, Error, raise, ◌>>=◌, value_error,
  bind-steps, guard-steps, Bool-cases, Returns, ◌≡◌, refl, inl, inr, ◌⊎◌,
}
use sams_backend.Account.{Control, Outside, Session}
use sams_backend.Account.Directory.{get_parent_by_email, get_super_admin_by_email}
use sams_backend.Account.Candidates.{
  Candidate, verify_password, fetch_login_candidate, fetch_candidates, legacy_scan,
  enumerate_login_tenants,
}
use sams_backend.Account.Login.{
  LoginResult, session, login_as, login_into, login_legacy, settle_matches, take, login_anywhere,
  login_user, is_named, name_or_empty, no_tenants,
}
use sams_backend.Account.Genuine.{people, Genuine, fetch_login_candidate-Sound}
use sams_backend.Account.Scan.{Found, scanned, fetch_candidates-Genuine, legacy_scan-Found}
use sams_backend.Account.Sessions.{SessionIn}
use sams_backend.Account.Answers.{Answer, login_as-Answer, login_as-Seated, settle_matches-Answer}

verified_only :
    (out : Outside) (email password : String) (v : Control) (cs : List Candidate)
    → All (Genuine email v) cs
    → All
        (λ c. Genuine email v c × (verify_password out password c.hash ≡ true))
        (where_rows (λ (c : Candidate). verify_password out password c.hash) cs)
verified_only out email password v [] h = tt
verified_only out email password v (c ∷ cs) h =
    elim (Bool-cases (verify_password out password c.hash)) [
      | inl hit ↦ rw hit ((h.0, hit), verified_only out email password v cs h.1)
      | inr miss ↦ rw miss (verified_only out email password v cs h.1)
    ]

module _ (out : Outside) (email password : String) where
  login_anywhere-Answer :
      (tenants : List String) (s s' : Control) (result : LoginResult)
      → login_anywhere out email password tenants
          (get_parent_by_email email s)
          (get_super_admin_by_email email s)
          s
        ≡ (ok result, s')
      → Answer out password email (people s) result
  unfolding login_anywhere get_parent_by_email get_super_admin_by_email
  login_anywhere-Answer tenants s s' result h =
      let next : List Candidate → Action Control LoginResult = λ cs.
        settle_matches out email
          (where_rows (λ (c : Candidate). verify_password out password c.hash) cs) in
      let (cs, t, first, rest) =
        bind-steps
          (fetch_candidates out email (get_parent_by_email email s)
            (get_super_admin_by_email email s) (take 8 tenants))
          next s s' result h in
      settle_matches-Answer out email password (people s) _
        (verified_only out email password (people s) cs
          (fetch_candidates-Genuine out email _ _ (take 8 tenants) s t cs refl refl first))
        t s' result rest

  legacy-Answer :
      (v : Control) (e : Error) (found : Option Candidate)
      → Found out email v found
      → Returns (Answer out password email v) (elim found as (λ _. Action Control LoginResult) [
        | none ↦ raise e
        | some c ↦ login_as out email password (some c)
      ])
  legacy-Answer v e none g s s' result h = cc
  legacy-Answer v e (some c) g s s' result h =
      login_as-Answer out email password v (some c) g s s' result h

  login_legacy-Answer :
      (s s' : Control) (result : LoginResult)
      → login_legacy out email password s ≡ (ok result, s')
      → Answer out password email (people s) result
  unfolding login_legacy
  login_legacy-Answer s s' result h =
      let unknown =
        value_error
          "This account is not associated with a school. Ask an administrator to invite you to one." in
      let next : Option Candidate → Action Control LoginResult = λ found. elim found [
        | none ↦ raise unknown
        | some c ↦ login_as out email password (some c)
      ] in
      let (found, t, first, rest) =
        bind-steps (legacy_scan out email s.tenants) next s s' result h in
      legacy-Answer (people s) unknown found (legacy_scan-Found out email s.tenants s t found first)
        t s' result rest

  login_into-Seated :
      (tenant_id : String) (tenants : List String) (s s' : Control) (result : LoginResult)
      → login_into out email password tenant_id tenants
          (get_parent_by_email email s)
          (get_super_admin_by_email email s)
          s
        ≡ (ok result, s')
      → (contains tenant_id tenants ≡ true)
        × ((made : Session) × (result ≡ session made) × SessionIn tenant_id made)
  unfolding login_into get_parent_by_email get_super_admin_by_email
  login_into-Seated tenant_id tenants s s' result h =
      let fetch =
        fetch_login_candidate out email tenant_id (get_parent_by_email email s)
          (get_super_admin_by_email email s) in
      let (member, h1) =
        guard-steps (contains tenant_id tenants) (value_error "Invalid email or password")
          (fetch >>= login_as out email password) s s' result h in
      let (found, t, first, rest) = bind-steps fetch (login_as out email password) s s' result h1 in
      let (sound, kept) =
        fetch_login_candidate-Sound out email tenant_id _ _ s t found refl refl first in
      (member, login_as-Seated out email password (people s) found tenant_id sound t s' result rest)

  login_into-Answer :
      (tenant_id : String) (tenants : List String) (s s' : Control) (result : LoginResult)
      → login_into out email password tenant_id tenants
          (get_parent_by_email email s)
          (get_super_admin_by_email email s)
          s
        ≡ (ok result, s')
      → Answer out password email (people s) result
  unfolding login_into get_parent_by_email get_super_admin_by_email
  login_into-Answer tenant_id tenants s s' result h =
      let fetch =
        fetch_login_candidate out email tenant_id (get_parent_by_email email s)
          (get_super_admin_by_email email s) in
      let (member, h1) =
        guard-steps (contains tenant_id tenants) (value_error "Invalid email or password")
          (fetch >>= login_as out email password) s s' result h in
      let (found, t, first, rest) = bind-steps fetch (login_as out email password) s s' result h1 in
      let (sound, kept) =
        fetch_login_candidate-Sound out email tenant_id _ _ s t found refl refl first in
      login_as-Answer out email password (people s) found
        (scanned out email (people s) tenant_id found sound) t s' result rest

three_branches :
    {A : Type 0} (a b : Bool) (m n k : Action Control A) (s s' : Control) (r : A)
    → (if a then m s else if b then n s else k s) ≡ (ok r, s')
    → (m s ≡ (ok r, s')) ⊎ ((n s ≡ (ok r, s')) ⊎ (k s ≡ (ok r, s')))
three_branches true b m n k s s' r h = inl h
three_branches false true m n k s s' r h = inr (inl h)
three_branches false false m n k s s' r h = inr (inr h)

-- A login that returns has verified the password against the hash of an account of this person: a
-- session is one in the tenant of that account, and a choice is between the tenants of at least two
-- accounts, each of which has verified it.
pub login_user-Answer :
    (walk : List String → List String) (out : Outside) (given password : String)
    (tenant_id : Option String) (s s' : Control) (result : LoginResult)
    → login_user walk out given password tenant_id s ≡ (ok result, s')
    → Answer out password (normal_email given) (people s) result
unfolding login_user
login_user-Answer walk out given password tenant_id s s' result h =
    let email = normal_email given in
    let tenants = walk (enumerate_login_tenants email s) in
    let parent = get_parent_by_email email s in
    let super_admin = get_super_admin_by_email email s in
    elim (three_branches (is_named tenant_id) (no_tenants tenants)
      (login_into out email password (name_or_empty tenant_id) tenants parent super_admin)
      (login_legacy out email password)
      (login_anywhere out email password tenants parent super_admin) s s' result h) [
        | inl named ↦
            login_into-Answer out email password (name_or_empty tenant_id) tenants s s' result named
        | inr (inl unknown) ↦ login_legacy-Answer out email password s s' result unknown
        | inr (inr anywhere) ↦ login_anywhere-Answer out email password tenants s s' result anywhere
      ]

first_branch :
    {X : Type 0} {x : X} (a : Bool) (y z : X) → a ≡ true → (if a then y else z) ≡ x → y ≡ x
first_branch true y z e h = h
first_branch false y z e h = cc

-- A login that names a school returns a session in that school or raises; it never answers with a
-- choice, and the school is one of those that the tables give the person.
pub login_user_named :
    (walk : List String → List String) (out : Outside) (given password tenant_id : String)
    (s s' : Control) (result : LoginResult)
    → is_text tenant_id ≡ true
    → login_user walk out given password (some tenant_id) s ≡ (ok result, s')
    → (contains tenant_id (walk (enumerate_login_tenants (normal_email given) s)) ≡ true)
      × ((made : Session) × (result ≡ session made) × SessionIn tenant_id made)
unfolding login_user
login_user_named walk out given password tenant_id s s' result named h =
    login_into-Seated out (normal_email given) password tenant_id
      (walk (enumerate_login_tenants (normal_email given) s)) s s' result
      (first_branch _ _ _ named h)
