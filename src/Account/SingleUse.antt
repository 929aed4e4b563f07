-- ===== src/Account/SingleUse.antt =====
-- A selection challenge is good for one call of login_redeem, and for the schools that it names.
use sams_backend.Base.{
  ℕ, String, List, Option, none, some, true, nat_eq, string_eq, first_row, contains, Action, ok,
  gets, modify, ◌>>=◌, type_error, with_found, guard-steps, found-steps, Returns, Returns-bind, ◌≡◌,
  refl,
}
use sams_backend.Account.{Control, Outside, ChallengeRow, IdentityRow, Session}
use sams_backend.Account.Directory.{get_identity_by_id}
use sams_backend.Account.Tokens.{
  Local, resolve_local_account, redeem_selection_challenge, is_redeemable,
}
use sams_backend.Account.Login.{Login, open_session}
use sams_backend.Account.Sessions.{SessionIn, Into, open_session-SessionIn}
use sams_backend.Account.Redeem.{
  refused_token, relabelled, hint_role, touch, login_from, seat_in, enter, admit, login_redeem,
}

abbrev challenges : Control → List ChallengeRow
challenges s = s.challenges

seat_in-SessionIn :
    (out : Outside) (tenant_id : String) (identity_id : ℕ) (account : Local)
    (identity : IdentityRow)
    → Returns (SessionIn tenant_id) (seat_in out tenant_id identity_id account identity)
unfolding seat_in Into
seat_in-SessionIn out tenant_id identity_id account identity =
    let login = login_from tenant_id account in
    Returns-bind (SessionIn tenant_id) (modify (touch out.now identity_id tenant_id))
      (λ _. open_session out identity.email identity_id login)
      (λ _. open_session-SessionIn out identity.email identity_id tenant_id login refl)

enter-SessionIn :
    (out : Outside) (tenant_id : String) (identity_id : ℕ)
    → Returns (SessionIn tenant_id) (enter out tenant_id identity_id)
unfolding enter
enter-SessionIn out tenant_id identity_id =
    let missing = type_error "'NoneType' object is not subscriptable" in
    let rest : Local → Action Control Session = λ account.
      with_found (get_identity_by_id identity_id) missing
        (seat_in out tenant_id identity_id account) in
    let look : String → Action Control Local =
      λ hint. relabelled (resolve_local_account out identity_id tenant_id hint) in
    Returns-bind (SessionIn tenant_id) (gets (hint_role identity_id tenant_id))
      (λ hint. look hint >>= rest)
      λ hint. Returns-bind (SessionIn tenant_id) (look hint) rest λ account s s' made h.
        let (identity, found, run) =
          found-steps (get_identity_by_id identity_id) missing
            (seat_in out tenant_id identity_id account) s s' made h in
        seat_in-SessionIn out tenant_id identity_id account identity s s' made run

admit-SessionIn :
    (out : Outside) (tenant_id : String) (found : Option ChallengeRow) (s s' : Control)
    (made : Session)
    → admit out tenant_id found s ≡ (ok made, s')
    → (c : ChallengeRow) × (found ≡ some c)
      × (contains tenant_id c.matched_tenants ≡ true)
      × SessionIn tenant_id made
unfolding admit
admit-SessionIn out tenant_id none s s' made h = cc
admit-SessionIn out tenant_id (some c) s s' made h =
    let (named, run) =
      guard-steps (contains tenant_id c.matched_tenants) refused_token
        (enter out tenant_id c.identity_id) s s' made h in
    (c, refl, named, enter-SessionIn out tenant_id c.identity_id s s' made run)

-- A redemption that returns has used a challenge that was neither consumed nor past its time, for a school
-- that the challenge names, and gives a session in that school.
pub login_redeem-SessionIn :
    (out : Outside) (selection_token tenant_id : String) (s s' : Control) (made : Session)
    → login_redeem out selection_token tenant_id s ≡ (ok made, s')
    → (c : ChallengeRow) × (first_row
          (is_redeemable out.now (out.digest selection_token))
          s.challenges
        ≡ some c)
      × (contains tenant_id c.matched_tenants ≡ true)
      × SessionIn tenant_id made
unfolding login_redeem redeem_selection_challenge
login_redeem-SessionIn out selection_token tenant_id s s' made h =
    admit-SessionIn out tenant_id _ _ s' made h
