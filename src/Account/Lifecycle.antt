-- ===== src/Account/Lifecycle.antt =====
-- The life of a membership: each call of ControlPlaneRepository moves it along the edges of one
-- diagram.
use mathlib.Core.Option
use sams_backend.Base.{
  ℕ, ◌+◌, ◌≤◌, String, List, [], ◌∷◌, ◌++◌, Option, none, some, Bool, true, false, not, ◌&&◌, ◌==◌,
  nat_eq, string_eq, first_row, where_rows, update_rows, length, is_some, if◌then◌else◌, Bool-cases,
  Option-cases, first_row-update_where, first_row-append_found, first_row-append,
  first_row-append_ne, ◌≡◌, refl, sym, ap, ◌∙◌, inl, inr, arith, ◌≢◌,
}
use sams_backend.Account.{
  Control, MembershipRow, MembershipStatus, invited, active, suspended, revoked, membership_eq,
}
use sams_backend.Account.Memberships.{
  is_membership, upsert_user_tenant_map, remove_user_tenant_map, create_invited_membership,
  accept_membership, decline_membership, suspend_membership, restore_membership, revoke_membership,
  set_default_membership, touch_membership_last_active,
}

pub data Call : Type 0 where
  upserts : String → String → String → Call
  removes : String → String → Call
  invites : ℕ → String → String → String → String → Call
  accepts declines defaults touches : ℕ → String → Call
  suspends restores revokes : String → String → Call

-- What a call leaves in the tables, also where it raises.
unfoldable pub apply_call : ℕ → Call → Control → Control
apply_call now (upserts email tenant_id role) s =
    (upsert_user_tenant_map now email tenant_id role s).1
apply_call now (removes email tenant_id) s = remove_user_tenant_map email tenant_id s
apply_call now (invites identity_id email tenant_id role invited_by) s =
    (create_invited_membership now identity_id email tenant_id role invited_by s).1
apply_call now (accepts identity_id tenant_id) s = (accept_membership identity_id tenant_id s).1
apply_call now (declines identity_id tenant_id) s = (decline_membership identity_id tenant_id s).1
apply_call now (defaults identity_id tenant_id) s =
    (set_default_membership identity_id tenant_id s).1
apply_call now (touches identity_id tenant_id) s =
    touch_membership_last_active now identity_id tenant_id s
apply_call now (suspends email tenant_id) s = (suspend_membership email tenant_id s).1
apply_call now (restores email tenant_id) s = (restore_membership email tenant_id s).1
apply_call now (revokes email tenant_id) s = (revoke_membership email tenant_id s).1

-- The membership of one person in one school, as the access check sees it.
unfoldable pub state_of : ℕ → String → List MembershipRow → Option MembershipStatus
state_of i t ms = Option.map (λ (m : MembershipRow). m.status) (first_row (is_membership i t) ms)

-- The diagram: which call may move a membership from where to where.
pub data Edge : Call → Option MembershipStatus → Option MembershipStatus → Type 0 where
  unmoved : (c : Call) (x : Option MembershipStatus) → Edge c x x
  joins : (email tenant_id role : String) → Edge (upserts email tenant_id role) none (some active)
  first_invited :
      (i : ℕ) (email tenant_id role by : String)
      → Edge (invites i email tenant_id role by) none (some invited)
  invited_again :
      (i : ℕ) (email tenant_id role by : String)
      → Edge (invites i email tenant_id role by) (some revoked) (some invited)
  accepted : (i : ℕ) (tenant_id : String) → Edge (accepts i tenant_id) (some invited) (some active)
  declined : (i : ℕ) (tenant_id : String) → Edge (declines i tenant_id) (some invited) none
  suspended_from :
      (email tenant_id : String) → Edge (suspends email tenant_id) (some active) (some suspended)
  restored :
      (email tenant_id : String) → Edge (restores email tenant_id) (some suspended) (some active)
  revoked_from :
      (email tenant_id : String) (x : MembershipStatus)
      → x ≢ revoked
      → Edge (revokes email tenant_id) (some x) (some revoked)
  removed :
      (email tenant_id : String) (x : MembershipStatus)
      → Edge (removes email tenant_id) (some x) none

-- The key (identity_id, tenant_id) names at most one row.
abbrev pub key_count : ℕ → String → List MembershipRow → ℕ
key_count i t ms = length (where_rows (is_membership i t) ms)

abbrev pub KeyUnique : List MembershipRow → Type 0
KeyUnique ms = (i : ℕ) (t : String) → key_count i t ms ≤ 1

-- An update that keeps key and status is not seen.
kept_status :
    (p : MembershipRow → Bool) (f : MembershipRow → MembershipRow)
    → ((m : MembershipRow) → (f m).status ≡ m.status)
    → (o : Option MembershipRow)
    → Option.map (λ (m : MembershipRow). m.status) (Option.map (λ m. if p m then f m else m) o)
      ≡ Option.map (λ (m : MembershipRow). m.status) o
kept_status p f same none = refl
kept_status p f same (some m) = ground (arith, same m)

pub state_of-update_rows :
    (i : ℕ) (t : String) (p : MembershipRow → Bool) (f : MembershipRow → MembershipRow)
    → ((m : MembershipRow) → is_membership i t (f m) ≡ is_membership i t m)
    → ((m : MembershipRow) → (f m).status ≡ m.status)
    → (ms : List MembershipRow) → state_of i t (update_rows p f ms) ≡ state_of i t ms
unfolding state_of
state_of-update_rows i t p f keep same ms =
    ap (Option.map (λ (m : MembershipRow). m.status))
      (first_row-update_where p f (is_membership i t) keep ms)
    ∙ kept_status p f same (first_row (is_membership i t) ms)

module _ (c : Call) (i : ℕ) (t : String) where
  status_edge :
      (p : MembershipRow → Bool) (f : MembershipRow → MembershipRow)
      → ((m : MembershipRow) → p m ≡ true → Edge c (some m.status) (some (f m).status))
      → (o : Option MembershipRow)
      → Edge c (Option.map (λ (m : MembershipRow). m.status) o) (
          Option.map (λ (m : MembershipRow). m.status) (Option.map (λ m. if p m then f m else m) o))
  status_edge p f moves none = unmoved c none
  status_edge p f moves (some m) = elim (Bool-cases (p m)) [
    | inl hit ↦ rw hit (moves m hit)
    | inr miss ↦ rw miss (unmoved c (some m.status))
  ]

  -- An update that keeps the key moves a membership as it moves its rows.
  pub update-Edge :
      (p : MembershipRow → Bool) (f : MembershipRow → MembershipRow)
      → ((m : MembershipRow) → is_membership i t (f m) ≡ is_membership i t m)
      → ((m : MembershipRow) → p m ≡ true → Edge c (some m.status) (some (f m).status))
      → (ms : List MembershipRow) → Edge c (state_of i t ms) (state_of i t (update_rows p f ms))
  unfolding state_of
  update-Edge p f keep moves ms =
      rw (first_row-update_where p f (is_membership i t) keep ms)
        (status_edge p f moves (first_row (is_membership i t) ms))

  -- A row that is added is noticed where there was none.
  pub append-Edge :
      (ms : List MembershipRow) (m : MembershipRow)
      → Edge c none (some m.status)
      → Edge c (state_of i t ms) (state_of i t (ms ++ m ∷ []))
  unfolding state_of
  append-Edge ms m edge = elim (Option-cases (first_row (is_membership i t) ms)) [
    | inl fresh ↦ elim (Bool-cases (is_membership i t m)) [
      | inl hit ↦ rw (fresh, first_row-append (is_membership i t) ms m fresh hit) edge
      | inr miss ↦ rw (first_row-append_ne (is_membership i t) ms m miss) (unmoved c _)
    ]
    | inr (x, found) ↦
        rw (found, first_row-append_found (is_membership i t) ms (m ∷ []) x found) (unmoved c _)
  ]

  no_second :
      (q : MembershipRow → Bool) (ms : List MembershipRow)
      → key_count i t ms ≡ 0
      → first_row (is_membership i t) (where_rows q ms) ≡ none
  no_second q [] h = refl
  no_second q (m ∷ ms) h = ground (arith, no_second q ms)

  -- A row that is deleted is gone, since the key names no other.
  pub remove-Edge :
      (p : MembershipRow → Bool)
      → ((m : MembershipRow) → p m ≡ true → Edge c (some m.status) none)
      → (ms : List MembershipRow) → key_count i t ms ≤ 1
      → Edge c (state_of i t ms) (state_of i t (where_rows (λ m. not (p m)) ms))
  unfolding state_of
  remove-Edge p moves [] once = unmoved c none
  remove-Edge p moves (m ∷ ms) once = elim (Bool-cases (is_membership i t m)) [
    | inl mine ↦ elim (Bool-cases (p m)) [
      | inl hit ↦ rw (mine, hit, no_second (λ m. not (p m)) ms (ground arith)) (moves m hit)
      | inr miss ↦ rw (mine, miss, mine) (unmoved c _)
    ]
    | inr other ↦ elim (Bool-cases (p m)) [
      | inl hit ↦ rw (other, hit) (remove-Edge p moves ms (ground arith))
      | inr miss ↦ rw (other, miss, other) (remove-Edge p moves ms (ground arith))
    ]
  ]

-- An update of a row keeps the count of its key.
pub key_count-update_rows :
    (i : ℕ) (t : String) (p : MembershipRow → Bool) (f : MembershipRow → MembershipRow)
    → ((m : MembershipRow) → is_membership i t (f m) ≡ is_membership i t m)
    → (ms : List MembershipRow) → key_count i t (update_rows p f ms) ≡ key_count i t ms
key_count-update_rows i t p f keep [] = refl
key_count-update_rows i t p f keep (m ∷ ms) =
    ground (arith, keep m, key_count-update_rows i t p f keep ms)

pub key_count-where_rows :
    (i : ℕ) (t : String) (q : MembershipRow → Bool) (ms : List MembershipRow)
    → key_count i t (where_rows q ms) ≤ key_count i t ms
key_count-where_rows i t q [] = omega arith
key_count-where_rows i t q (m ∷ ms) = ground (arith, key_count-where_rows i t q ms)

key_count-append :
    (i : ℕ) (t : String) (ms : List MembershipRow) (m : MembershipRow)
    → key_count i t (ms ++ m ∷ []) ≡ key_count i t ms + (if is_membership i t m then 1 else 0)
key_count-append i t [] m = ground arith
key_count-append i t (x ∷ ms) m = ground (arith, key_count-append i t ms m)

unnamed :
    (i : ℕ) (t : String) (ms : List MembershipRow)
    → is_some (first_row (is_membership i t) ms) ≡ false
    → key_count i t ms ≡ 0
unnamed i t [] h = refl
unnamed i t (m ∷ ms) h = ground (arith, unnamed i t ms)

pub both_true : (a b : Bool) → (a && b) ≡ true → (a ≡ true) × (b ≡ true)
both_true a b h = ground arith

pub append-KeyUnique :
    (ms : List MembershipRow) (m : MembershipRow)
    → is_some (first_row (is_membership m.identity_id m.tenant_id) ms) ≡ false
    → KeyUnique ms
    → KeyUnique (ms ++ m ∷ [])
append-KeyUnique ms m fresh u i t = elim (Bool-cases (is_membership i t m)) [
  | inl hit ↦
      let one : m.identity_id ≡ i =
        (nat_eq.test_iff m.identity_id i).0 (both_true (m.identity_id == i) _ hit).0 in
      let other : m.tenant_id ≡ t =
        (string_eq.test_iff m.tenant_id t).0 (both_true (m.identity_id == i) _ hit).1 in
      let none_yet : key_count i t ms ≡ 0 =
        rw (sym one, sym other) (unnamed m.identity_id m.tenant_id ms fresh) in
      ground (arith, key_count-append i t ms m)
  | inr miss ↦ ground (arith, key_count-append i t ms m, u i t)
]
