-- ===== src/Account/Standing.antt =====
-- Sequences of calls on memberships: the key stays unique, and a revoked membership stays revoked.
use sams_backend.Base.{
  ℕ, String, List, [], ◌∷◌, Option, some, Bool, true, false, not, ◌&&◌, ◌==◌, nat_eq, string_eq,
  update_rows, where_rows, normal_email, All, ◌≡◌, refl, sym, arith,
}
use sams_backend.Account.{
  Control, MembershipRow, MembershipStatus, active, suspended, revoked, membership_eq,
}
use sams_backend.Account.Memberships.{
  is_membership, is_mapping, get_membership, new_membership, invited_membership, set_role,
  set_status, set_default, invite_again, is_revoked, is_invited, has_status, is_active_in,
  upsert_mapping, upsert_user_tenant_map, remove_user_tenant_map, create_invited_membership,
  accept_membership, decline_membership, suspend_membership, restore_membership, revoke_membership,
  set_default_membership, touch_membership_last_active,
}
use sams_backend.Account.Directory.{get_or_create_identity}
use sams_backend.Account.Lifecycle.{
  Call, upserts, removes, invites, accepts, declines, defaults, touches, suspends, restores,
  revokes, apply_call, state_of, Edge, unmoved, invited_again, revoked_from, removed, KeyUnique,
  key_count-update_rows, key_count-where_rows, append-KeyUnique,
}
use sams_backend.Account.Diagram.{apply_call-Edge, insert_or_update-cases, identity-memberships}

update-KeyUnique :
    (p : MembershipRow → Bool) (f : MembershipRow → MembershipRow)
    → ((i : ℕ) (t : String) (m : MembershipRow) → is_membership i t (f m) ≡ is_membership i t m)
    → (ms : List MembershipRow) → KeyUnique ms
    → KeyUnique (update_rows p f ms)
update-KeyUnique p f keep ms u i t = rw (key_count-update_rows i t p f (keep i t) ms) (u i t)

where-KeyUnique :
    (q : MembershipRow → Bool) (ms : List MembershipRow)
    → KeyUnique ms
    → KeyUnique (where_rows q ms)
where-KeyUnique q ms u i t = omega (arith, key_count-where_rows i t q ms, u i t)

apply_call-KeyUnique :
    (now : ℕ) (c : Call) (s : Control)
    → KeyUnique s.memberships
    → KeyUnique (apply_call now c s).memberships
unfolding apply_call upsert_user_tenant_map upsert_mapping get_membership remove_user_tenant_map
    create_invited_membership accept_membership decline_membership suspend_membership
    restore_membership revoke_membership set_default_membership touch_membership_last_active
apply_call-KeyUnique now (upserts email tenant_id role) s u =
    let (identity, s1) = get_or_create_identity email s in
    let u1 : KeyUnique s1.memberships = rw (identity-memberships email s) u in
    insert_or_update-cases KeyUnique _ _ _ _ _ _ s1
      (λ known.
        update-KeyUnique (is_mapping (normal_email email) tenant_id) (set_role now role)
          (λ i t m. refl) s1.memberships u1)
      u1
      (λ fresh unclashed.
        append-KeyUnique s1.memberships
          (new_membership now identity.id (normal_email email) tenant_id role) unclashed u1)
apply_call-KeyUnique now (removes email tenant_id) s u =
    where-KeyUnique (λ m. not (is_mapping (normal_email email) tenant_id m)) s.memberships u
apply_call-KeyUnique now (invites identity_id email tenant_id role by) s u =
    insert_or_update-cases KeyUnique _ _ _ _ _ _ s
      (λ known.
        update-KeyUnique (is_revoked identity_id tenant_id) (invite_again role by) (λ i t m. refl)
          s.memberships u)
      u
      (λ fresh unclashed.
        append-KeyUnique s.memberships
          (invited_membership now identity_id (normal_email email) tenant_id role by) fresh u)
apply_call-KeyUnique now (accepts identity_id tenant_id) s u =
    update-KeyUnique (is_invited identity_id tenant_id) (set_status active) (λ i t m. refl)
      s.memberships u
apply_call-KeyUnique now (declines identity_id tenant_id) s u =
    where-KeyUnique (λ m. not (is_invited identity_id tenant_id m)) s.memberships u
apply_call-KeyUnique now (defaults identity_id tenant_id) s u =
    update-KeyUnique (is_active_in identity_id tenant_id) (set_default true) (λ i t m. refl) _
      (update-KeyUnique (λ (m : MembershipRow). m.identity_id == identity_id) (set_default false)
        (λ i t m. refl) s.memberships u)
apply_call-KeyUnique now (touches identity_id tenant_id) s u =
    update-KeyUnique (is_membership identity_id tenant_id)
      (λ (m : MembershipRow). record m { last_active_at = some now }) (λ i t m. refl) s.memberships
      u
apply_call-KeyUnique now (suspends email tenant_id) s u =
    update-KeyUnique (has_status email tenant_id active) (set_status suspended) (λ i t m. refl)
      s.memberships u
apply_call-KeyUnique now (restores email tenant_id) s u =
    update-KeyUnique (has_status email tenant_id suspended) (set_status active) (λ i t m. refl)
      s.memberships u
apply_call-KeyUnique now (revokes email tenant_id) s u =
    update-KeyUnique (λ m. is_mapping (normal_email email) tenant_id m && not (m.status == revoked))
      (set_status revoked) (λ i t m. refl) s.memberships u

pub run : List (ℕ × Call) → Control → Control
run [] s = s
run ((now, c) ∷ cs) s = run cs (apply_call now c s)

-- The calls that can bring a revoked person back: a fresh invitation, or deleting the row.
unfoldable pub readmits : Call → Bool
readmits (invites identity_id email tenant_id role by) = true
readmits (removes email tenant_id) = true
readmits _ = false

revoked_edge :
    (c : Call) (y : Option MembershipStatus)
    → readmits c ≡ false
    → Edge c (some revoked) y
    → y ≡ some revoked
unfolding readmits
revoked_edge _ _ h (unmoved c x) = refl
revoked_edge _ _ h (invited_again i email tenant_id role by) = cc
revoked_edge _ _ h (revoked_from email tenant_id x other) = refl
revoked_edge _ _ h (removed email tenant_id x) = cc

-- Whatever is called on memberships, short of a fresh invitation and of deleting the row, a revoked
-- membership stays revoked; in particular no restore, no acceptance and no login brings it back.
pub run-revoked :
    (i : ℕ) (t : String) (cs : List (ℕ × Call)) (s : Control)
    → KeyUnique s.memberships
    → All (λ (c : ℕ × Call). readmits c.1 ≡ false) cs
    → state_of i t s.memberships ≡ some revoked
    → state_of i t (run cs s).memberships ≡ some revoked
unfolding run
run-revoked i t [] s u quiet h = h
run-revoked i t ((now, c) ∷ cs) s u quiet h =
    run-revoked i t cs (apply_call now c s) (apply_call-KeyUnique now c s u) quiet.1
      (revoked_edge c _ quiet.0 (rw (sym h) (apply_call-Edge now c i t s u)))
