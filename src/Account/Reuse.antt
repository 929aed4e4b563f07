-- ===== src/Account/Reuse.antt =====
-- Reuse detection: a refresh token is good for one rotation, and each family has at most one live
-- token.
use sams_backend.Base.{
  ℕ, String, List, [], ◌∷◌, ◌++◌, some, true, false, nat_eq, string_eq, eq_self, first_row,
  update_rows, is_some, Bool-cases, All, ok, err, value_error, first_row-update_hit,
  first_row-append_found, found-ok, ◌≡◌, refl, ap, ◌∙◌, inl, inr, arith,
}
use sams_backend.Account.{Control, Outside, RefreshRow, Session}
use sams_backend.Account.Tokens.{
  has_digest, get_refresh_token, new_refresh_row, is_token, retire, is_live_in, revoke,
  revoke_refresh_token_family, redeem_row, rotate_refresh_token,
}
use sams_backend.Account.Rotation.{tokens, Rotated, rotate_refresh_token-Rotated}

-- After a revocation nothing of the family is live.
dead_family :
    (now family_id : ℕ) (ts : List RefreshRow)
    → All (λ r. is_live_in family_id r ≡ false) (update_rows (is_live_in family_id) (revoke now) ts)
dead_family now family_id [] = tt
dead_family now family_id (r ∷ ts) = elim (Bool-cases (is_live_in family_id r)) [
  | inl hit ↦ rw hit (ground arith, dead_family now family_id ts)
  | inr miss ↦ rw miss (miss, dead_family now family_id ts)
]

redeem_revoked :
    (out : Outside) (row : RefreshRow) (s : Control)
    → is_some row.revoked_at ≡ true
    → redeem_row out row s ≡ (
      err (value_error "Invalid refresh token"),
      revoke_refresh_token_family out.now row.family_id s,
    )
unfolding redeem_row
redeem_revoked out row s h = rw (h, redeem_row) refl

-- The presented token is found again, retired.
found_retired :
    (out : Outside) (token_hash : String) (row : RefreshRow) (ts ts' : List RefreshRow)
    → first_row (has_digest token_hash) ts ≡ some row
    → (rotated : Rotated out row ts ts')
    → first_row (has_digest token_hash) ts' ≡ some (retire out.now rotated.id row)
found_retired out token_hash row ts ts' found rotated =
    let n =
      new_refresh_row out rotated.id row.identity_id row.tenant_id rotated.role row.family_id in
    ap (first_row (has_digest token_hash)) rotated.written
    ∙ first_row-update_hit (is_token row.id) (retire out.now rotated.id) (has_digest token_hash)
        (λ x. refl) (ts ++ n ∷ []) row
        (first_row-append_found (has_digest token_hash) ts (n ∷ []) row found) (eq_self row.id)

-- A token that has bought a rotation buys no second one where it is presented again, at whatever time of
-- the clock, to the store that the rotation left, and presenting it revokes what is live of its family.
pub rotate_refresh_token_once :
    (out later : Outside) (raw_token : String) (s s' : Control) (session : Session)
    → rotate_refresh_token out raw_token s ≡ (ok session, s')
    → later.digest raw_token ≡ out.digest raw_token
    → (row : RefreshRow) × (get_refresh_token (out.digest raw_token) s ≡ some row)
      × (rotate_refresh_token later raw_token s' ≡ (
        err (value_error "Invalid refresh token"),
        revoke_refresh_token_family later.now row.family_id s',
      ))
      × All
          (λ r. is_live_in row.family_id r ≡ false)
          (tokens (revoke_refresh_token_family later.now row.family_id s'))
unfolding rotate_refresh_token get_refresh_token revoke_refresh_token_family
rotate_refresh_token_once out later raw_token s s' session h same =
    let (row, found, fresh, early, rotated, secret) =
      rotate_refresh_token-Rotated out raw_token s s' session h in
    let again =
      ap (λ d. first_row (has_digest d) (tokens s')) same
      ∙ found_retired out (out.digest raw_token) row (tokens s) (tokens s') found rotated in
    (
      row,
      found,
      found-ok (get_refresh_token (later.digest raw_token)) (value_error "Invalid refresh token")
            (redeem_row later) s' (retire out.now rotated.id row) again
          ∙ redeem_revoked later (retire out.now rotated.id row) s' refl,
      dead_family later.now row.family_id (tokens s'),
    )
