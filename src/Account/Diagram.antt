-- ===== src/Account/Diagram.antt =====
-- Every call on memberships follows the diagram of Account/Lifecycle, and a revoked membership stays
-- revoked.
use sams_backend.Base.{
  ℕ, String, List, none, some, Bool, true, false, not, ◌&&◌, ◌==◌, nat_eq, string_eq, first_row,
  update_rows, Option-cases, normal_email, same_text, ◌≡◌, refl, sym, ap, inl, inr, arith, ◌≢◌,
}
use sams_backend.Account.{
  Control, MembershipRow, MembershipStatus, invited, active, suspended, revoked, membership_eq,
  IdentityRow,
}
use sams_backend.Account.Memberships.{
  is_membership, is_mapping, new_membership, invited_membership, set_role, set_status, set_default,
  invite_again, insert_or_update, is_revoked, is_invited, has_status, is_active_in, upsert_mapping,
  upsert_user_tenant_map, remove_user_tenant_map, create_invited_membership, accept_membership,
  decline_membership, suspend_membership, restore_membership, revoke_membership,
  set_default_membership, touch_membership_last_active,
}
use sams_backend.Account.Directory.{get_or_create_identity}
use sams_backend.Account.Lifecycle.{
  Call, upserts, removes, invites, accepts, declines, defaults, touches, suspends, restores,
  revokes, apply_call, state_of, state_of-update_rows, Edge, unmoved, joins, first_invited,
  invited_again, accepted, declined, suspended_from, restored, revoked_from, removed, KeyUnique,
  update-Edge, append-Edge, remove-Edge, both_true,
}

-- What holds after a write that may update, insert or be refused.
pub insert_or_update-cases {ℓ} :
    (P : List MembershipRow → Type ℓ) (known clash has_school : Bool) (index : String)
    (updated added : List MembershipRow) (s : Control)
    → (known ≡ true → P updated)
    → P s.memberships
    → (known ≡ false → clash ≡ false → P added)
    → P (insert_or_update known clash has_school index updated added s).1.memberships
unfolding insert_or_update
insert_or_update-cases P true clash has_school index updated added s h k l = h refl
insert_or_update-cases P false true has_school index updated added s h k l = k
insert_or_update-cases P false false true index updated added s h k l = l refl refl
insert_or_update-cases P false false false index updated added s h k l = k

pub identity-memberships :
    (email : String) (s : Control) → (get_or_create_identity email s).1.memberships ≡ s.memberships
unfolding get_or_create_identity
identity-memberships email s =
    elim (Option-cases
      (first_row (λ (i : IdentityRow). same_text i.email (normal_email email)) s.identities)) [
        | inl e ↦ rw (e, get_or_create_identity) refl
        | inr (x, e) ↦ rw (e, get_or_create_identity) refl
      ]

upsert_mapping-Edge :
    (c : Call) (i : ℕ) (t : String) (now identity_id : ℕ) (email tenant_id role : String)
    (s : Control)
    → Edge c none (some active)
    → Edge c
        (state_of i t s.memberships)
        (state_of i t (upsert_mapping now identity_id email tenant_id role s).1.memberships)
unfolding upsert_mapping
upsert_mapping-Edge c i t now identity_id email tenant_id role s joins_now =
    insert_or_update-cases (λ ms. Edge c (state_of i t s.memberships) (state_of i t ms)) _ _ _ _ _ _
      s
      (λ known.
        update-Edge c i t (is_mapping email tenant_id) (set_role now role) (λ m. refl)
          (λ m hit. unmoved c (some m.status)) s.memberships)
      (unmoved c _)
      (λ fresh unclashed.
        append-Edge c i t s.memberships (new_membership now identity_id email tenant_id role)
          joins_now)

pending_status :
    (m : MembershipRow) (x : MembershipStatus) (a : Bool)
    → (a && m.status == x) ≡ true
    → x ≡ m.status
pending_status m x a hit = sym ((membership_eq.test_iff m.status x).0 (both_true a _ hit).1)

not_revoked :
    (m : MembershipRow) (a : Bool) → (a && not (m.status == revoked)) ≡ true → m.status ≢ revoked
not_revoked m a hit e = ground (arith, membership_eq.test_iff m.status revoked)

-- Each call moves each membership along an edge of the diagram that the call has, or leaves it.
pub apply_call-Edge :
    (now : ℕ) (c : Call) (i : ℕ) (t : String) (s : Control)
    → KeyUnique s.memberships
    → Edge c (state_of i t s.memberships) (state_of i t (apply_call now c s).memberships)
unfolding apply_call upsert_user_tenant_map remove_user_tenant_map create_invited_membership
    accept_membership decline_membership suspend_membership restore_membership revoke_membership
    set_default_membership touch_membership_last_active
apply_call-Edge now (upserts email tenant_id role) i t s u =
    let (identity, s1) = get_or_create_identity email s in
    rw (sym (ap (state_of i t) (identity-memberships email s))) (
      upsert_mapping-Edge (upserts email tenant_id role) i t now identity.id (normal_email email)
        tenant_id role s1 (joins email tenant_id role))
apply_call-Edge now (removes email tenant_id) i t s u =
    remove-Edge (removes email tenant_id) i t (is_mapping (normal_email email) tenant_id)
      (λ m hit. removed email tenant_id m.status) s.memberships (u i t)
apply_call-Edge now (invites identity_id email tenant_id role by) i t s u =
    let c = invites identity_id email tenant_id role by in
    insert_or_update-cases (λ ms. Edge c (state_of i t s.memberships) (state_of i t ms)) _ _ _ _ _ _
      s
      (λ known.
        update-Edge c i t (is_revoked identity_id tenant_id) (invite_again role by) (λ m. refl)
          (λ m hit.
            rw (sym (pending_status m revoked (is_membership identity_id tenant_id m) hit))
              (invited_again identity_id email tenant_id role by))
          s.memberships)
      (unmoved c _)
      (λ fresh unclashed.
        append-Edge c i t s.memberships
          (invited_membership now identity_id (normal_email email) tenant_id role by)
          (first_invited identity_id email tenant_id role by))
apply_call-Edge now (accepts identity_id tenant_id) i t s u =
    update-Edge (accepts identity_id tenant_id) i t (is_invited identity_id tenant_id)
      (set_status active) (λ m. refl)
      (λ m hit.
        rw (sym (pending_status m invited (is_membership identity_id tenant_id m) hit))
          (accepted identity_id tenant_id))
      s.memberships
apply_call-Edge now (declines identity_id tenant_id) i t s u =
    remove-Edge (declines identity_id tenant_id) i t (is_invited identity_id tenant_id)
      (λ m hit.
        rw (sym (pending_status m invited (is_membership identity_id tenant_id m) hit))
          (declined identity_id tenant_id))
      s.memberships (u i t)
apply_call-Edge now (defaults identity_id tenant_id) i t s u =
    let cleared =
      update_rows (λ (m : MembershipRow). m.identity_id == identity_id) (set_default false)
        s.memberships in
    rw
      (
        state_of-update_rows i t (is_active_in identity_id tenant_id) (set_default true) (λ m. refl)
            (λ m. refl) cleared,
        state_of-update_rows i t (λ (m : MembershipRow). m.identity_id == identity_id)
            (set_default false) (λ m. refl) (λ m. refl) s.memberships,
      )
      (unmoved (defaults identity_id tenant_id) _)
apply_call-Edge now (touches identity_id tenant_id) i t s u =
    update-Edge (touches identity_id tenant_id) i t (is_membership identity_id tenant_id)
      (λ (m : MembershipRow). record m { last_active_at = some now }) (λ m. refl)
      (λ m hit. unmoved (touches identity_id tenant_id) _) s.memberships
apply_call-Edge now (suspends email tenant_id) i t s u =
    update-Edge (suspends email tenant_id) i t (has_status email tenant_id active)
      (set_status suspended) (λ m. refl)
      (λ m hit.
        rw (sym (pending_status m active (is_mapping (normal_email email) tenant_id m) hit))
          (suspended_from email tenant_id))
      s.memberships
apply_call-Edge now (restores email tenant_id) i t s u =
    update-Edge (restores email tenant_id) i t (has_status email tenant_id suspended)
      (set_status active) (λ m. refl)
      (λ m hit.
        rw (sym (pending_status m suspended (is_mapping (normal_email email) tenant_id m) hit))
          (restored email tenant_id))
      s.memberships
apply_call-Edge now (revokes email tenant_id) i t s u =
    update-Edge (revokes email tenant_id) i t
      (λ m. is_mapping (normal_email email) tenant_id m && not (m.status == revoked))
      (set_status revoked) (λ m. refl)
      (λ m hit.
        revoked_from email tenant_id m.status
          (not_revoked m (is_mapping (normal_email email) tenant_id m) hit))
      s.memberships
