-- ===== src/Account/Families.antt =====
-- Each family of refresh tokens has at most one live token, after every sequence of logins and
-- rotations.
use sams_backend.Base.{
  ℕ, String, List, [], ◌∷◌, ◌++◌, some, Bool, true, false, ◌==◌, nat_eq, string_eq, eq_self, leb,
  first_row, update_rows, is_some, if◌then◌else◌, Bool-cases, All, Action, err, Error, pure, raise,
  value_error, bind-failure, ◌>>◌, modify, ⊤, with_found, found-ok, found-failure, outcome-cases,
  bind-pure, first_row-append, first_row-append_found, type_error, ◌≡◌, refl, sym, ap, ◌∙◌, ◌⊎◌,
  inl, inr, arith,
}
use sams_backend.Account.{Control, Outside, RefreshRow, Session}
use sams_backend.Account.Tokens.{
  Local, has_digest, get_refresh_token, new_refresh_row, is_live_in, revoke,
  revoke_refresh_token_family, redeem_row, rotate_refresh_token, issue_refresh_token,
  create_refresh_token, add_refresh_token, replace_row, replace_token, renew, new_session,
  resolve_local_account,
}
use sams_backend.Account.Pools.{resolve_local_account-Keeps}
use sams_backend.Account.Rotation.{
  tokens, Rotated, rotate_refresh_token-Rotated, create-steps, is_some-none,
}
use sams_backend.Account.LiveTokens.{
  live_count, OneLive, live_count-append, live_count-retire_le, live_count-retire_lt,
  live_count-revoke_le,
}

create-failure :
    (b : Bool) (e x : Error) (s t s' : Control)
    → (if b then raise {A = ⊤} e s else pure tt t) ≡ (err x, s')
    → s' ≡ s
create-failure true e x s t s' h = cc
create-failure false e x s t s' h = cc

-- Where the fresh token cannot be written, no token is.
replace_row-failure :
    (out : Outside) (row : RefreshRow) (account : Local) (s s' : Control) (e : Error)
    → replace_row out row account s ≡ (err e, s')
    → tokens s' ≡ tokens s
unfolding replace_row create_refresh_token get_refresh_token
replace_row-failure out row account s s' e h =
    let digest = out.digest out.fresh_token in
    let finish : RefreshRow → Action Control Session = λ new_row.
      modify (replace_token out.now row.id new_row.id) >> pure (new_session out row account) in
    let missing = type_error "'NoneType' object is not subscriptable" in
    let n =
      new_refresh_row out s.next_id row.identity_id row.tenant_id account.role row.family_id in
    elim (bind-failure
      (create_refresh_token out row.identity_id row.tenant_id account.role row.family_id)
      (λ _. with_found (get_refresh_token digest) missing finish) s s' e h) [
        | inl refused ↦ ap tokens (create-failure _ _ e s _ s' refused)
        | inr (u, t, made, rest) ↦
            let (unused, e1) = create-steps _ _ s _ t u made in
            let there =
              ap (λ x. get_refresh_token digest x) (sym e1)
              ∙ first_row-append (has_digest digest) (tokens s) n
                  (is_some-none (get_refresh_token digest s) unused) (eq_self digest) in
            let run = found-ok (get_refresh_token digest) missing finish t n there in cc
      ]

renew-failure :
    (out : Outside) (row : RefreshRow) (s s' : Control) (e : Error)
    → renew out row s ≡ (err e, s')
    → tokens s' ≡ tokens s
unfolding renew
renew-failure out row s s' e h =
    let kept =
      resolve_local_account-Keeps tokens (λ x ts. refl) out row.identity_id row.tenant_id row.role
        s in
    elim (bind-failure (resolve_local_account out row.identity_id row.tenant_id row.role)
      (replace_row out row) s s' e h) [
        | inl refused ↦ ap (λ x. tokens x.1) (sym refused) ∙ kept
        | inr (account, t, resolved, rest) ↦
            replace_row-failure out row account t s' e rest
            ∙ ap (λ x. tokens x.1) (sym resolved)
            ∙ kept
      ]

redeem_row-failure :
    (out : Outside) (row : RefreshRow) (s s' : Control) (e : Error) (dead late : Bool)
    → (if dead
        then raise {A = Session}
            (value_error "Invalid refresh token")
            (revoke_refresh_token_family out.now row.family_id s)
        else if late
        then raise (value_error "Refresh token expired") s
        else renew out row s)
      ≡ (err e, s')
    → (tokens s' ≡ tokens s)
      ⊎ (tokens s' ≡ update_rows (is_live_in row.family_id) (revoke out.now) (tokens s))
unfolding revoke_refresh_token_family
redeem_row-failure out row s s' e true late h = inr (ap (λ x. tokens x.1) (sym h))
redeem_row-failure out row s s' e false true h = inl (ap (λ x. tokens x.1) (sym h))
redeem_row-failure out row s s' e false false h = inl (renew-failure out row s s' e h)

rotate_refresh_token-failure :
    (out : Outside) (raw_token : String) (s s' : Control) (e : Error)
    → rotate_refresh_token out raw_token s ≡ (err e, s')
    → (tokens s' ≡ tokens s)
      ⊎ ((g : ℕ) × (tokens s' ≡ update_rows (is_live_in g) (revoke out.now) (tokens s)))
unfolding rotate_refresh_token redeem_row
rotate_refresh_token-failure out raw_token s s' e h =
    elim (found-failure (get_refresh_token (out.digest raw_token))
      (value_error "Invalid refresh token") (redeem_row out) s s' e h) [
        | inl missing ↦ inl (ap tokens missing)
        | inr (row, found, rest) ↦
            elim (redeem_row-failure out row s s' e (is_some row.revoked_at)
              (leb row.expires_at out.now) rest) [
                | inl same ↦ inl same
                | inr revoked ↦ inr (row.family_id, revoked)
              ]
      ]

revoke-OneLive :
    (g now : ℕ) (ts : List RefreshRow)
    → OneLive ts
    → OneLive (update_rows (is_live_in g) (revoke now) ts)
revoke-OneLive g now ts v f = omega (arith, live_count-revoke_le f g now ts, v f)

Rotated-OneLive :
    (out : Outside) (token_hash : String) (row : RefreshRow) (ts ts' : List RefreshRow)
    → first_row (has_digest token_hash) ts ≡ some row
    → is_some row.revoked_at ≡ false
    → Rotated out row ts ts'
    → OneLive ts
    → OneLive ts'
Rotated-OneLive out token_hash row ts ts' found alive rotated v f =
    let n =
      new_refresh_row out rotated.id row.identity_id row.tenant_id rotated.role row.family_id in
    let counted = live_count-append f ts n in
    elim (Bool-cases (row.family_id == f)) [
      | inl mine ↦
          let fewer =
            live_count-retire_lt f out.now rotated.id token_hash row (ts ++ n ∷ [])
              (first_row-append_found (has_digest token_hash) ts (n ∷ []) row found)
              (ground arith) in
          rw rotated.written (ground (arith, v f))
      | inr other ↦
          let fewer = live_count-retire_le f out.now row.id rotated.id (ts ++ n ∷ []) in
          rw rotated.written (ground (arith, v f))
    ]

-- A rotation leaves at most one live token in each family, whether it returns or raises.
rotate_refresh_token-OneLive :
    (out : Outside) (raw_token : String) (s : Control)
    → OneLive (tokens s)
    → OneLive (tokens (rotate_refresh_token out raw_token s).1)
unfolding get_refresh_token
rotate_refresh_token-OneLive out raw_token s v =
    outcome-cases (λ t. OneLive (tokens t)) (rotate_refresh_token out raw_token) s
      (λ session s' h.
        let (row, found, alive, early, rotated, secret) =
          rotate_refresh_token-Rotated out raw_token s s' session h in
        Rotated-OneLive out (out.digest raw_token) row (tokens s) (tokens s') found alive rotated v)
      (λ e s' h. elim (rotate_refresh_token-failure out raw_token s s' e h) [
        | inl same ↦ rw same v
        | inr (g, revoked) ↦ rw revoked (revoke-OneLive g out.now (tokens s) v)
      ])

unused_family :
    (f : ℕ) (ts : List RefreshRow)
    → All (λ (r : RefreshRow). (r.family_id == f) ≡ false) ts
    → live_count f ts ≡ 0
unused_family f [] h = refl
unused_family f (t ∷ ts) h = ground (arith, h.0, unused_family f ts h.1)

-- A first token of a family that was not in use.
first-OneLive :
    (ts : List RefreshRow) (n : RefreshRow)
    → All (λ (r : RefreshRow). (r.family_id == n.family_id) ≡ false) ts
    → OneLive ts
    → OneLive (ts ++ n ∷ [])
first-OneLive ts n fresh v f =
    let counted = live_count-append f ts n in
    elim (Bool-cases (n.family_id == f)) [
      | inl mine ↦
          let none_yet : live_count f ts ≡ 0 =
            rw (sym ((nat_eq.test_iff n.family_id f).0 mine))
              (unused_family n.family_id ts fresh) in
          ground arith
      | inr other ↦ ground (arith, v f)
    ]

refusal-OneLive :
    (b : Bool) (e : Error) (s t : Control)
    → OneLive (tokens s)
    → OneLive (tokens t)
    → OneLive (tokens ((if b then raise {A = ⊤} e s else pure tt t)).1)
refusal-OneLive true e s t v w = v
refusal-OneLive false e s t v w = w

issue_refresh_token-OneLive :
    (out : Outside) (identity_id : ℕ) (tenant_id role : String) (s : Control)
    → All (λ (r : RefreshRow). (r.family_id == out.fresh_family) ≡ false) (tokens s)
    → OneLive (tokens s)
    → OneLive (tokens (issue_refresh_token out identity_id tenant_id role s).1)
unfolding issue_refresh_token create_refresh_token
issue_refresh_token-OneLive out identity_id tenant_id role s fresh v =
    let n = new_refresh_row out s.next_id identity_id tenant_id role out.fresh_family in
    let made : OneLive
        (tokens (create_refresh_token out identity_id tenant_id role out.fresh_family s).1) =
      refusal-OneLive (is_some (get_refresh_token (out.digest out.fresh_token) s)) _ s
        (add_refresh_token n s) v (first-OneLive (tokens s) n fresh v) in
    rw
      (bind-pure out.fresh_token
        (create_refresh_token out identity_id tenant_id role out.fresh_family) s)
      made

-- Logins, each with a family that is not in use, and rotations, one after the other.
pub data Run (s : Control) : Control → Type 0 where
  nothing : Run s s
  issues :
      (out : Outside) (identity_id : ℕ) (tenant_id role : String) (t : Control)
      → Run s t
      → All (λ (r : RefreshRow). (r.family_id == out.fresh_family) ≡ false) (tokens t)
      → Run s (issue_refresh_token out identity_id tenant_id role t).1
  rotates :
      (out : Outside) (raw_token : String) (t : Control)
      → Run s t
      → Run s (rotate_refresh_token out raw_token t).1

-- After any sequence of logins and rotations, some of which may raise, each family has at most one live
-- token, if it had at the start.
pub Run-OneLive : (s t : Control) → Run s t → OneLive (tokens s) → OneLive (tokens t)
Run-OneLive s _ nothing v = v
Run-OneLive s _ (issues out identity_id tenant_id role t run fresh) v =
    issue_refresh_token-OneLive out identity_id tenant_id role t fresh (Run-OneLive s t run v)
Run-OneLive s _ (rotates out raw_token t run) v =
    rotate_refresh_token-OneLive out raw_token t (Run-OneLive s t run v)
