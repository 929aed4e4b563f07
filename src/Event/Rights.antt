-- ===== src/Event/Rights.antt =====
-- What `check_event_permission` of app/domains/tenant/service.py grants, against the workflow and
-- against the rules of app/domains/events/service.py.
use sams_backend.Base.{
  String, List, [], ◌∷◌, Bool, true, false, ◌&&◌, ◌||◌, ◌==◌, nat_eq, string_eq, contains,
  if◌then◌else◌, intersects, any-contains-intersects, any, is_some, Bool-cases, ◌≡◌, ◌≢◌, refl, sym,
  ◌∙◌, inl, inr, arith,
}
use sams_backend.Authz.{CurrentUser}
use sams_backend.Tenant.{Status, draft, proposed, status_eq, Event}
use sams_backend.Event.Permission.{
  EventAction, read, edit_draft, approve, manager_decision, review, publish, teacher_publish,
  edit_resources, other, user_roles, admin_override, admins, role_reads, role_edits_draft,
  heads_a_mapped_class, may_decide, edit_override_roles, check_event_permission, is_editable,
}
use sams_backend.Event.Workflow.{transitions, manager_approve, is_authorized}
use sams_backend.Event.Lifecycle.{◌⟶◌, submission, approval, rejection, publication}

-- No role of the list gives the administrators' override.
abbrev pub IsPlain : CurrentUser → Type 0
IsPlain u = any (λ r. contains r admin_override) (user_roles u) ≡ false

abbrev pub with_status : Status → Event → Event
with_status st e = record e { row = record (e.row) { status = st } }

widen :
    (x y z w : Bool)
    → (x && false || y && true || z && true || w) ≡ true
    → (x && true || y && true || z && true || w) ≡ true
widen x y z w h = ground arith

role_reads_mono :
    {a b : Status} (r : String)
    → a ⟶ b
    → a ≢ draft
    → b ≢ draft
    → role_reads a r ≡ true
    → role_reads b r ≡ true
unfolding role_reads
role_reads_mono r submission na nb h = absurd (na refl)
role_reads_mono r approval na nb h = h
role_reads_mono r rejection na nb h = absurd (nb refl)
role_reads_mono r publication na nb h =
    widen (contains r ("parent" ∷ "student" ∷ [])) (contains r ("teacher" ∷ "event_teacher" ∷ []))
      (r == "manager") (contains r admins) h

any_mono :
    (p q : String → Bool)
    → ((r : String) → p r ≡ true → q r ≡ true)
    → (rs : List String) → any p rs ≡ true
    → any q rs ≡ true
any_mono p q f [] h = h
any_mono p q f (r ∷ rs) h = ground (arith, f r, any_mono p q f rs)

lift_any :
    (o a b c : Bool)
    → (a ≡ true → b ≡ true)
    → (if o then true else (a || c)) ≡ true
    → (if o then true else (b || c)) ≡ true
lift_any o a b c f h = ground arith

no_admin : (r : String) → contains r admin_override ≡ false → contains r admins ≡ false
no_admin r h = ground arith

edits_none :
    (o k a rest rest' : Bool)
    → (o || rest) ≡ false
    → (o ≡ false → a ≡ false)
    → (rest ≡ false → rest' ≡ false)
    → (k && (false || a) || rest') ≡ false
edits_none o k a rest rest' h f g = ground arith

not-any-role_edits_draft :
    (rs : List String)
    → any (λ r. contains r admin_override) rs ≡ false
    → any (role_edits_draft false) rs ≡ false
unfolding role_edits_draft
not-any-role_edits_draft [] h = refl
not-any-role_edits_draft (r ∷ rs) h =
    edits_none (contains r admin_override) (contains r ("teacher" ∷ "event_teacher" ∷ admins))
      (contains r admins) (any (λ r. contains r admin_override) rs)
      (any (role_edits_draft false) rs) h (no_admin r) (not-any-role_edits_draft rs)

-- Approval and publication never take an event away from those who could read it.
pub read_survives_progress :
    (u : CurrentUser) (e : Event) {a b : Status}
    → a ⟶ b
    → a ≢ draft
    → b ≢ draft
    → check_event_permission u (with_status a e) read ≡ true
    → check_event_permission u (with_status b e) read ≡ true
unfolding check_event_permission
read_survives_progress u e submission na nb h = absurd (na refl)
read_survives_progress u e approval na nb h =
    lift_any _ _ _ _ (any_mono _ _ (λ r. role_reads_mono r approval na nb) (user_roles u)) h
read_survives_progress u e rejection na nb h = absurd (nb refl)
read_survives_progress u e publication na nb h =
    lift_any _ _ _ _ (any_mono _ _ (λ r. role_reads_mono r publication na nb) (user_roles u)) h

and_false : (a : Bool) → (a && false) ≡ false
and_false a = ground arith

-- A draft is private: an actor without the administrators' override who neither created it nor heads
-- one of its mapped classes is refused every action on it.
pub draft_is_private :
    (u : CurrentUser) (e : Event) (action : EventAction)
    → IsPlain u
    → e.row.status ≡ draft
    → (e.row.created_by == u.id) ≡ false
    → heads_a_mapped_class u.id e.class_mappings ≡ false
    → check_event_permission u e action ≡ false
unfolding check_event_permission
draft_is_private u e read plain status foreign headless = rw (plain, status, foreign, headless)
draft_is_private u e edit_draft plain status foreign headless =
    rw (plain, status, foreign)
      (rw (not-any-role_edits_draft (user_roles u) plain)
        (and_false (contains "event:edit" (user_roles u))))
draft_is_private u e approve plain status foreign headless = rw (plain, status) (and_false _)
draft_is_private u e manager_decision plain status foreign headless =
    rw (plain, status) (and_false _)
draft_is_private u e review plain status foreign headless = rw (plain, status) (and_false _)
draft_is_private u e publish plain status foreign headless = rw (plain, status) (and_false _)
draft_is_private u e teacher_publish plain status foreign headless =
    rw (plain, status) (and_false _)
draft_is_private u e edit_resources plain status foreign headless = rw plain
draft_is_private u e (other a) plain status foreign headless = rw plain

status_draft : (st : Status) → (st == draft) ≡ true → st ≡ draft
status_draft st h = (status_eq.test_iff st draft).0 h

-- Outside the administrators and managers, an event is editable only as a draft, and only by the one
-- who created it: `edit_resources`, which `is_editable` asks about too, grants nothing.
pub is_editable_only_own_draft :
    (u : CurrentUser) (e : Event)
    → IsPlain u
    → intersects u.roles edit_override_roles ≡ false
    → is_editable u e ≡ true
    → (e.row.status ≡ draft) × ((e.row.created_by == u.id) ≡ true)
unfolding is_editable check_event_permission
is_editable_only_own_draft u e plain junior h = elim (Bool-cases (e.row.status == draft)) [
  | inl open_draft ↦ elim (Bool-cases (e.row.created_by == u.id)) [
    | inl own ↦ (status_draft e.row.status open_draft, own)
    | inr foreign ↦
        let shut = rw (plain, open_draft, foreign, junior) at h in
        let bad = rw (not-any-role_edits_draft (user_roles u) plain, and_false _) at shut in cc
  ]
  | inr closed ↦ let shut = rw (plain, closed, junior) at h in cc
]

proposed_decides : (st : Status) → (st == proposed) ≡ is_some (transitions st manager_approve)
unfolding transitions
proposed_decides st = ground arith

same_deciders :
    (super school admin star reviewer manager listed : Bool)
    → (super || (school || (admin || (star || false)))) ≡ false
    → ((reviewer || (manager || (school || (super || (admin || false))))) && listed)
      ≡ (listed && (school || (super || (manager || (reviewer || false)))))
same_deciders super school admin star reviewer manager listed h = ground arith

-- Who may decide by `check_event_permission` is who may decide by the workflow: for an actor without
-- the override the first grants `approve` just when the transition table lists `manager_approve` in
-- the event's status and authorizes the actor for it.
pub approve_agrees :
    (u : CurrentUser) (e : Event)
    → IsPlain u
    → check_event_permission u e approve ≡ (
        is_some (transitions e.row.status manager_approve)
        && is_authorized u "manager" manager_approve)
unfolding check_event_permission is_authorized may_decide
approve_agrees u e plain =
    let roles = user_roles u in
    let none_of = sym (any-contains-intersects admin_override roles) ∙ plain in
    rw plain (
      rw (any-contains-intersects ("manager" ∷ admins) roles) (
        rw (proposed_decides e.row.status) (
          same_deciders (contains "super_admin" roles) (contains "school_admin" roles)
            (contains "admin" roles) (contains "*" roles) (contains "event:review" roles)
            (contains "manager" roles) (is_some (transitions e.row.status manager_approve))
            none_of)))
