-- ===== src/Account/Answers.antt =====
-- What login_user may answer.
use sams_backend.Base.{
  ◌≤◌, String, List, [], ◌∷◌, Option, none, some, true, string_eq, length, map, All, pure,
  value_error, bind-steps, guard-steps, pure-steps, Returns, ◌≡◌, sym, ◌∙◌, arith,
}
use sams_backend.Account.{Control, Outside, Session}
use sams_backend.Account.Directory.{get_or_create_identity}
use sams_backend.Account.Tokens.{create_selection_challenge}
use sams_backend.Account.Candidates.{Candidate, verify_password}
use sams_backend.Account.Login.{
  LoginResult, session, select_tenant, role_of, complete_login, finish_login, login_as,
  settle_matches, issue_login_selection_challenge,
}
use sams_backend.Account.Genuine.{Genuine, Sound}
use sams_backend.Account.Scan.{Found}
use sams_backend.Account.Sessions.{SessionIn, complete_login-SessionIn}

-- What a login may answer: a session in the tenant of an account of this person, whose own hash has
-- verified the password; or the choice between the tenants of several such accounts.
pub data Answer (out : Outside) (password email : String) (s : Control) : LoginResult → Type 0 where
  logged_in :
      (c : Candidate) (made : Session)
      → Genuine email s c
      → verify_password out password c.hash ≡ true
      → SessionIn c.tenant_id made
      → Answer out password email s (session made)
  asked :
      (cs : List Candidate) (token : String)
      → 2 ≤ length cs
      → All (λ c. Genuine email s c × (verify_password out password c.hash ≡ true)) cs
      → Answer out password email s
          (select_tenant token (map (λ (c : Candidate). (c.tenant_id, role_of c.holder)) cs))

-- The session that a chosen candidate gets.
Seated : Candidate → LoginResult → Type 0
Seated c result = (made : Session) × (result ≡ session made) × SessionIn c.tenant_id made

finish_login-Seated :
    (out : Outside) (email : String) (v : Control) (c : Candidate)
    → Genuine email v c
    → Returns (Seated c) (finish_login out email c)
unfolding finish_login Seated
finish_login-Seated out email v c g s s' result h =
    let (made, t, first, rest) =
      bind-steps (complete_login out email c) (λ made. pure (session made)) s s' result h in
    (
      made,
      sym (pure-steps (session made) result t s' rest).0,
      complete_login-SessionIn out email v c g s t made first,
    )

module _ (out : Outside) (email password : String) (v : Control) where
  pub finish_login-Answer :
      (c : Candidate)
      → Genuine email v c
      → verify_password out password c.hash ≡ true
      → Returns (Answer out password email v) (finish_login out email c)
  unfolding Seated
  finish_login-Answer c g verified s s' result h =
      let (made, same, here) = finish_login-Seated out email v c g s s' result h in
      rw same (logged_in c made g verified here)

  pub login_as-Seated :
      (found : Option Candidate) (tenant_id : String)
      → Sound email v tenant_id found
      → Returns
          (λ result. (made : Session) × (result ≡ session made) × SessionIn tenant_id made)
          (login_as out email password found)
  unfolding login_as Seated
  login_as-Seated none tenant_id sound s s' result h = cc
  login_as-Seated (some c) tenant_id sound s s' result h =
      let (verified, rest) =
        guard-steps (verify_password out password c.hash) (value_error "Invalid email or password")
          (finish_login out email c) s s' result h in
      let (made, same, here) = finish_login-Seated out email v c sound.0 s s' result rest in
      (made, same, here ∙ sound.1)

  pub login_as-Answer :
      (found : Option Candidate)
      → Found out email v found
      → Returns (Answer out password email v) (login_as out email password found)
  unfolding login_as
  login_as-Answer none g s s' result h = cc
  login_as-Answer (some c) g s s' result h =
      let (verified, rest) =
        guard-steps (verify_password out password c.hash) (value_error "Invalid email or password")
          (finish_login out email c) s s' result h in
      finish_login-Answer c g verified s s' result rest

  challenge-Answer :
      (cs : List Candidate)
      → 2 ≤ length cs
      → All (λ c. Genuine email v c × (verify_password out password c.hash ≡ true)) cs
      → Returns (Answer out password email v) (issue_login_selection_challenge out email cs)
  unfolding issue_login_selection_challenge
  challenge-Answer cs several h s s' result run =
      let (identity, t) = get_or_create_identity email s in
      let choice =
        select_tenant out.fresh_token
          (map (λ (c : Candidate). (c.tenant_id, role_of c.holder)) cs) in
      let (u, w, first, rest) =
        bind-steps
          (create_selection_challenge out identity.id (map (λ (c : Candidate). c.tenant_id) cs))
          (λ _. pure choice) t s' result run in
      rw (sym (pure-steps choice result w s' rest).0) (asked cs out.fresh_token several h)

  pub settle_matches-Answer :
      (cs : List Candidate)
      → All (λ c. Genuine email v c × (verify_password out password c.hash ≡ true)) cs
      → Returns (Answer out password email v) (settle_matches out email cs)
  unfolding settle_matches
  settle_matches-Answer [] h s s' result run = cc
  settle_matches-Answer (c ∷ []) h s s' result run =
      finish_login-Answer c h.0.0 h.0.1 s s' result run
  settle_matches-Answer (c ∷ d ∷ cs) h s s' result run =
      challenge-Answer (c ∷ d ∷ cs) (omega arith) h s s' result run
