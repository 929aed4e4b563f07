-- ===== src/Account/Memberships.antt =====
-- The memberships of an identity in the schools (`user_tenant_map`) and the requests for access, as
-- ControlPlaneRepository reads and writes them.
use sams_backend.Base.{
  ℕ, suc, String, List, [], ◌∷◌, ◌++◌, Option, none, some, Bool, true, false, not, ◌&&◌, ◌==◌,
  nat_eq, string_eq, first_row, where_rows, update_rows, is_some, if◌then◌else◌, normal_email,
  same_text, Action, pure, raise, ⊤, unique_violation, foreign_key_violation,
}
use sams_backend.Account.{
  Control, MembershipRow, MembershipStatus, invited, active, suspended, revoked, membership_eq,
  AccessRequestRow, RequestStatus, pending, approved, rejected, withdrawn,
}
use sams_backend.Account.Directory.{get_or_create_identity, has_tenant}

abbrev pub is_membership : ℕ → String → MembershipRow → Bool
is_membership identity_id tenant_id m = m.identity_id == identity_id && m.tenant_id == tenant_id

abbrev pub is_mapping : String → String → MembershipRow → Bool
is_mapping email tenant_id m = same_text m.email email && m.tenant_id == tenant_id

unfoldable pub get_membership : ℕ → String → Control → Option MembershipRow
get_membership identity_id tenant_id s =
    first_row (is_membership identity_id tenant_id) s.memberships

unfoldable pub get_memberships_for_identity : ℕ → Control → List MembershipRow
get_memberships_for_identity identity_id s =
    where_rows (λ (m : MembershipRow). m.identity_id == identity_id && has_tenant m.tenant_id s)
      s.memberships

abbrev pub new_membership : ℕ → ℕ → String → String → String → MembershipRow
new_membership now identity_id email tenant_id role = record {
  identity_id = identity_id;
  email = email;
  tenant_id = tenant_id;
  role = role;
  roles = [];
  status = active;
  invited_by = none;
  is_default = false;
  last_active_at = none;
  updated_at = now;
}

abbrev pub set_role : ℕ → String → MembershipRow → MembershipRow
set_role now role m = record m { role = role; updated_at = now }

-- `INSERT … ON CONFLICT … DO UPDATE` on this table: the update where the row is known, the insert where
-- no other unique index is in the way and the tenant exists.
unfoldable pub insert_or_update :
    Bool → Bool → Bool → String → List MembershipRow → List MembershipRow → Action Control ⊤
insert_or_update known clash has_school index updated added s =
    if known
    then pure tt (record s { memberships = updated })
    else if clash
    then raise (unique_violation index) s
    else if has_school
    then pure tt (record s { memberships = added })
    else raise (foreign_key_violation "user_tenant_map.tenant_id") s

-- For a resolved identity: `ON CONFLICT (email, tenant_id)`, beside the key on (identity_id, tenant_id).
unfoldable pub upsert_mapping : ℕ → ℕ → String → String → String → Action Control ⊤
upsert_mapping now identity_id email tenant_id role s =
    insert_or_update (is_some (first_row (is_mapping email tenant_id) s.memberships))
      (is_some (get_membership identity_id tenant_id s)) (has_tenant tenant_id s)
      "user_tenant_map_pkey"
      (update_rows (is_mapping email tenant_id) (set_role now role) s.memberships)
      (s.memberships ++ new_membership now identity_id email tenant_id role ∷ []) s

unfoldable pub upsert_user_tenant_map : ℕ → String → String → String → Action Control ⊤
upsert_user_tenant_map now email tenant_id role s =
    let (identity, t) = get_or_create_identity email s in
    upsert_mapping now identity.id (normal_email email) tenant_id role t

unfoldable pub remove_user_tenant_map : String → String → Control → Control
remove_user_tenant_map email tenant_id s = record s {
  memberships =
      where_rows (λ (m : MembershipRow). not (is_mapping (normal_email email) tenant_id m))
        s.memberships;
}

abbrev pub invite_again : String → String → MembershipRow → MembershipRow
invite_again role invited_by m = record m {
  status = invited;
  role = role;
  roles = role ∷ [];
  invited_by = some invited_by;
}

abbrev pub invited_membership : ℕ → ℕ → String → String → String → String → MembershipRow
invited_membership now identity_id email tenant_id role invited_by = record {
  identity_id = identity_id;
  email = email;
  tenant_id = tenant_id;
  role = role;
  roles = role ∷ [];
  status = invited;
  invited_by = some invited_by;
  is_default = false;
  last_active_at = none;
  updated_at = now;
}

abbrev pub is_revoked : ℕ → String → MembershipRow → Bool
is_revoked identity_id tenant_id m = is_membership identity_id tenant_id m && m.status == revoked

-- `ON CONFLICT (identity_id, tenant_id) DO UPDATE … WHERE status IN ('revoked')`, beside the unique
-- index on (email, tenant_id).
unfoldable pub create_invited_membership :
    ℕ → ℕ → String → String → String → String → Action Control ⊤
create_invited_membership now identity_id email tenant_id role invited_by s =
    let key = normal_email email in
    insert_or_update (is_some (get_membership identity_id tenant_id s))
      (is_some (first_row (is_mapping key tenant_id) s.memberships)) (has_tenant tenant_id s)
      "idx_utm_email_tenant"
      (update_rows (is_revoked identity_id tenant_id) (invite_again role invited_by) s.memberships)
      (s.memberships ++ invited_membership now identity_id key tenant_id role invited_by ∷ []) s

abbrev pub set_status : MembershipStatus → MembershipRow → MembershipRow
set_status status m = record m { status = status }

-- An update of the status of the rows that a test picks; the answer tells whether there was one.
abbrev pub update_status : (MembershipRow → Bool) → MembershipStatus → Control → Bool × Control
update_status test status s = (
  is_some (first_row test s.memberships),
  record s { memberships = update_rows test (set_status status) s.memberships },
)

abbrev pub is_invited : ℕ → String → MembershipRow → Bool
is_invited identity_id tenant_id m = is_membership identity_id tenant_id m && m.status == invited

unfoldable pub accept_membership : ℕ → String → Control → Bool × Control
accept_membership identity_id tenant_id = update_status (is_invited identity_id tenant_id) active

unfoldable pub decline_membership : ℕ → String → Control → Bool × Control
decline_membership identity_id tenant_id s = (
  is_some (first_row (is_invited identity_id tenant_id) s.memberships),
  record s {
    memberships = where_rows (λ m. not (is_invited identity_id tenant_id m)) s.memberships;
  },
)

abbrev pub has_status : String → String → MembershipStatus → MembershipRow → Bool
has_status email tenant_id status m =
    is_mapping (normal_email email) tenant_id m && m.status == status

unfoldable pub suspend_membership : String → String → Control → Bool × Control
suspend_membership email tenant_id = update_status (has_status email tenant_id active) suspended

unfoldable pub restore_membership : String → String → Control → Bool × Control
restore_membership email tenant_id = update_status (has_status email tenant_id suspended) active

unfoldable pub revoke_membership : String → String → Control → Bool × Control
revoke_membership email tenant_id =
    update_status (λ m. is_mapping (normal_email email) tenant_id m && not (m.status == revoked))
      revoked

abbrev pub set_default : Bool → MembershipRow → MembershipRow
set_default flag m = record m { is_default = flag }

abbrev pub is_active_in : ℕ → String → MembershipRow → Bool
is_active_in identity_id tenant_id m = is_membership identity_id tenant_id m && m.status == active

-- Both updates stand in one transaction; neither raises.
unfoldable pub set_default_membership : ℕ → String → Control → Bool × Control
set_default_membership identity_id tenant_id s =
    let cleared =
      update_rows (λ (m : MembershipRow). m.identity_id == identity_id) (set_default false)
        s.memberships in
    (
      is_some (first_row (is_active_in identity_id tenant_id) cleared),
      record s {
        memberships = update_rows (is_active_in identity_id tenant_id) (set_default true) cleared;
      },
    )

unfoldable pub touch_membership_last_active : ℕ → ℕ → String → Control → Control
touch_membership_last_active now identity_id tenant_id s = record s {
  memberships =
      update_rows (is_membership identity_id tenant_id)
        (λ (m : MembershipRow). record m { last_active_at = some now }) s.memberships;
}

abbrev pub is_pending : AccessRequestRow → Bool
is_pending r = elim r.status [
  | pending ↦ true
  | approved ↦ false
  | rejected ↦ false
  | withdrawn ↦ false
]

abbrev pub is_open_request : ℕ → String → AccessRequestRow → Bool
is_open_request identity_id tenant_id r =
    (r.identity_id == identity_id && r.tenant_id == tenant_id) && is_pending r

abbrev pub ask_again : String → Option String → AccessRequestRow → AccessRequestRow
ask_again role note r = record r { requested_role = role; note = note }

-- `ON CONFLICT (identity_id, tenant_id) WHERE status = 'pending' DO UPDATE`
unfoldable pub create_access_request :
    ℕ → String → String → Option String → Action Control AccessRequestRow
create_access_request identity_id tenant_id requested_role note s =
    let row : AccessRequestRow = record {
      id = s.next_id;
      identity_id = identity_id;
      tenant_id = tenant_id;
      requested_role = requested_role;
      note = note;
      status = pending;
      reject_reason = none;
      decided_by = none;
      decided_at = none;
    } in
    elim (first_row (is_open_request identity_id tenant_id) s.access_requests) [
      | some r ↦ pure (ask_again requested_role note r) (record s {
        access_requests =
            update_rows (is_open_request identity_id tenant_id) (ask_again requested_role note)
              s.access_requests;
      })
      | none ↦
          if has_tenant tenant_id s
          then pure row (record s {
            access_requests = s.access_requests ++ row ∷ [];
            next_id = suc s.next_id;
          })
          else raise (foreign_key_violation "access_requests.tenant_id") s
    ]

abbrev pub is_undecided : ℕ → AccessRequestRow → Bool
is_undecided request_id r = r.id == request_id && is_pending r

unfoldable pub decide_access_request :
    ℕ → ℕ → RequestStatus → String → Option String → Control → Bool × Control
decide_access_request now request_id status decided_by reject_reason s = (
  is_some (first_row (is_undecided request_id) s.access_requests),
  record s {
    access_requests =
        update_rows (is_undecided request_id)
          (λ (r : AccessRequestRow). record r {
            status = status;
            decided_by = some decided_by;
            decided_at = some now;
            reject_reason = reject_reason;
          })
          s.access_requests;
  },
)
