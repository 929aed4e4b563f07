-- ===== src/Account/Rotation.antt =====
-- What rotate_refresh_token of app/domains/auth/service.py does to the tokens.
use sams_backend.Base.{
  ℕ, String, List, [], ◌∷◌, ◌++◌, Option, none, some, Bool, true, false, ◌==◌, nat_eq, string_eq,
  eq_self, some_inj, leb, first_row, update_rows, is_some, if◌then◌else◌, Action, ok, Error, pure,
  raise, modify, ◌>>◌, ⊤, value_error, type_error, with_found, found-steps, bind-steps, pure-steps,
  first_row-append, ◌≡◌, refl, sym, ap, ◌∙◌,
}
use sams_backend.Account.{Control, Outside, RefreshRow, Session}
use sams_backend.Account.Pools.{resolve_local_account-Keeps}
use sams_backend.Account.Tokens.{
  Local, resolve_local_account, has_digest, get_refresh_token, create_refresh_token,
  new_refresh_row, is_token, retire, replace_token, new_session, replace_row, renew, redeem_row,
  rotate_refresh_token,
}

abbrev pub tokens : Control → List RefreshRow
tokens s = s.refresh_tokens

pub create-steps :
    (b : Bool) (e : Error) (s t s' : Control) (u : ⊤)
    → (if b then raise e s else pure tt t) ≡ (ok u, s')
    → (b ≡ false) × (t ≡ s')
create-steps true e s t s' u h = cc
create-steps false e s t s' u h = (refl, cc)

pub is_some-none : {A : Type 0} (o : Option A) → is_some o ≡ false → o ≡ none
is_some-none none h = refl
is_some-none (some a) h = cc

-- What a rotation that returns has done: the fresh token, of the family and the owner of `row`, stands
-- at the end, and the tokens with the id of `row` are retired.
pub record Rotated (out : Outside) (row : RefreshRow) (ts ts' : List RefreshRow) : Type 0 where
  pub role : String
  pub id : ℕ
  pub unused : first_row (has_digest (out.digest out.fresh_token)) ts ≡ none
  pub written :
      ts'
      ≡ update_rows
          (is_token row.id)
          (retire out.now id)
          (ts ++ new_refresh_row out id row.identity_id row.tenant_id role row.family_id ∷ [])

found_last :
    (token_hash : String) (ts : List RefreshRow) (n r : RefreshRow)
    → first_row (has_digest token_hash) ts ≡ none
    → n.token_hash ≡ token_hash
    → first_row (has_digest token_hash) (ts ++ n ∷ []) ≡ some r
    → n ≡ r
found_last token_hash ts n r unused e h = some_inj n r (
    sym (
      first_row-append (has_digest token_hash) ts n unused
        (ap (λ x. x == token_hash) e ∙ eq_self token_hash))
    ∙ h)

replace_row-Rotated :
    (out : Outside) (row : RefreshRow) (account : Local) (s s' : Control) (session : Session)
    → replace_row out row account s ≡ (ok session, s')
    → Rotated out row (tokens s) (tokens s') × (session.refresh_token ≡ out.fresh_token)
unfolding replace_row create_refresh_token replace_token get_refresh_token
replace_row-Rotated out row account s s' session h =
    let finish : RefreshRow → Action Control Session = λ new_row.
      modify (replace_token out.now row.id new_row.id) >> pure (new_session out row account) in
    let missing = type_error "'NoneType' object is not subscriptable" in
    let (u, t, made, h1) =
      bind-steps (create_refresh_token out row.identity_id row.tenant_id account.role row.family_id)
        (λ _. with_found (get_refresh_token (out.digest out.fresh_token)) missing finish) s s'
        session h in
    let (unused, e1) = create-steps _ _ s _ t u made in
    let (new_row, found, h2) =
      found-steps (get_refresh_token (out.digest out.fresh_token)) missing finish t s' session h1 in
    let (e2, e3) = pure-steps (new_session out row account) session _ s' h2 in
    let n =
      new_refresh_row out s.next_id row.identity_id row.tenant_id account.role row.family_id in
    let digest = out.digest out.fresh_token in
    let fresh = is_some-none (get_refresh_token digest s) unused in
    let same =
      found_last digest (tokens s) n new_row fresh refl
        (ap (λ x. first_row (has_digest digest) (tokens x)) e1 ∙ found) in
    (
      record {
        role = account.role;
        id = s.next_id;
        unused = fresh;
        written =
            sym (ap tokens e3)
            ∙ ap (λ x. update_rows (is_token row.id) (retire out.now new_row.id) (tokens x))
                (sym e1)
            ∙ ap
                (λ (x : RefreshRow).
                  update_rows (is_token row.id) (retire out.now x.id) (tokens s ++ n ∷ []))
                (sym same);
      },
      sym (ap (λ (x : Session). x.refresh_token) e2),
    )

renew-Rotated :
    (out : Outside) (row : RefreshRow) (s s' : Control) (session : Session)
    → renew out row s ≡ (ok session, s')
    → Rotated out row (tokens s) (tokens s') × (session.refresh_token ≡ out.fresh_token)
unfolding renew
renew-Rotated out row s s' session h =
    let (account, t, resolved, h1) =
      bind-steps (resolve_local_account out row.identity_id row.tenant_id row.role)
        (replace_row out row) s s' session h in
    let kept : tokens t ≡ tokens s =
      ap (λ x. tokens x.1) (sym resolved)
      ∙ resolve_local_account-Keeps tokens (λ x ts. refl) out row.identity_id row.tenant_id row.role
          s in
    let (rotated, secret) = replace_row-Rotated out row account t s' session h1 in
    (rw (sym kept) rotated, secret)

redeem_cases :
    (dead late : Bool) (e1 e2 : Error) (m : Action Control Session) (s t s' : Control)
    (session : Session)
    → (if dead then raise e1 t else if late then raise e2 s else m s) ≡ (ok session, s')
    → (dead ≡ false) × (late ≡ false) × (m s ≡ (ok session, s'))
redeem_cases true late e1 e2 m s t s' session h = cc
redeem_cases false true e1 e2 m s t s' session h = cc
redeem_cases false false e1 e2 m s t s' session h = (refl, refl, h)

-- A rotation that returns was of a known token, neither revoked nor past its time.
pub rotate_refresh_token-Rotated :
    (out : Outside) (raw_token : String) (s s' : Control) (session : Session)
    → rotate_refresh_token out raw_token s ≡ (ok session, s')
    → (row : RefreshRow) × (get_refresh_token (out.digest raw_token) s ≡ some row)
      × (is_some row.revoked_at ≡ false)
      × (leb row.expires_at out.now ≡ false)
      × Rotated out row (tokens s) (tokens s')
      × (session.refresh_token ≡ out.fresh_token)
unfolding rotate_refresh_token redeem_row
rotate_refresh_token-Rotated out raw_token s s' session h =
    let (row, found, h1) =
      found-steps (get_refresh_token (out.digest raw_token)) (value_error "Invalid refresh token")
        (redeem_row out) s s' session h in
    let (fresh, early, h2) =
      redeem_cases (is_some row.revoked_at) (leb row.expires_at out.now) _ _ (renew out row) s _ s'
        session h1 in
    let (rotated, secret) = renew-Rotated out row s s' session h2 in
    (row, found, fresh, early, rotated, secret)
