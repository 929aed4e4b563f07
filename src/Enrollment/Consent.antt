-- ===== src/Enrollment/Consent.antt =====
-- How the route `enroll_student` of app/domains/students/router.py lets a request start.
use sams_backend.Base.{
  ℕ, none, some, Bool, true, false, ◌&&◌, nat_eq, if◌then◌else◌, Action, ok, pure, raise,
  pure-steps, http_error, ◌≡◌, refl, sym,
}
use sams_backend.Authz.{CurrentUser, has_role}
use sams_backend.Tenant.{Store, requested_by_student, approved_by_parent, approved_by_teacher}
use sams_backend.Enrollment.Rows.{is_student_linked_to_parent, can_parent_approve_for_student}
use sams_backend.Enrollment.Approval.{Start, start, start_of}

-- The consent that the start of a request rests on.
pub data Consent (user : CurrentUser) (student_id : ℕ) (s : Store) : Start → Type 0 where
  asked_for : Consent user student_id s (start requested_by_student none none)
  by_parent :
      has_role user "parent" ≡ true
      → can_parent_approve_for_student student_id user.id s ≡ true
      → Consent user student_id s (start approved_by_parent none (some user.id))
  by_teacher :
      has_role user "teacher" ≡ true
      → (has_role user "parent" && is_student_linked_to_parent student_id user.id s) ≡ false
      → Consent user student_id s (start approved_by_teacher (some user.id) none)

-- The nested tests of the route, on their answers.
abbrev by_answers : CurrentUser → Bool → Bool → Bool → Bool → Action Store Start
by_answers user parent linked may teacher s =
    if parent
    then if linked
      then if may
        then pure (start approved_by_parent none (some user.id)) s
        else pure (start requested_by_student none none) s
      else if teacher
      then pure (start approved_by_teacher (some user.id) none) s
      else raise (http_error 403 "Parent is not linked to this student") s
    else if teacher
    then pure (start approved_by_teacher (some user.id) none) s
    else pure (start requested_by_student none none) s

module _ (user : CurrentUser) (k : ℕ) (s s' : Store) (st : Start) where
  abbrev Outcome : Type 0
  Outcome = Consent user k s st × (s ≡ s')

  settle : (x : Start) → Consent user k s x → pure x s ≡ (ok st, s') → Outcome
  settle x c h = let (p, q) = pure-steps x st s s' h in (rw (sym p) c, q)

  by_answers-Consent :
      (parent linked may teacher : Bool)
      → has_role user "parent" ≡ parent
      → is_student_linked_to_parent k user.id s ≡ linked
      → can_parent_approve_for_student k user.id s ≡ may
      → has_role user "teacher" ≡ teacher
      → by_answers user parent linked may teacher s ≡ (ok st, s')
      → Outcome
  by_answers-Consent true true true teacher p l m t h =
      settle (start approved_by_parent none (some user.id)) (by_parent p m) h
  by_answers-Consent true true false teacher p l m t h =
      settle (start requested_by_student none none) asked_for h
  by_answers-Consent true false may true p l m t h =
      settle (start approved_by_teacher (some user.id) none) (by_teacher t (rw (p, l) refl)) h
  by_answers-Consent true false may false p l m t h = cc
  by_answers-Consent false linked may true p l m t h =
      settle (start approved_by_teacher (some user.id) none) (by_teacher t (rw p refl)) h
  by_answers-Consent false linked may false p l m t h =
      settle (start requested_by_student none none) asked_for h

  -- A request that is let through starts with the consent it rests on, and changes nothing yet: as
  -- approved by a parent only for a caller who may approve for the student, as approved by a teacher
  -- only for a teacher who is not a linked parent of the student, and otherwise as a request.
  pub start_of-Consent : start_of user k s ≡ (ok st, s') → Consent user k s st × (s ≡ s')
  unfolding start_of
  start_of-Consent h =
      by_answers-Consent (has_role user "parent") (is_student_linked_to_parent k user.id s)
        (can_parent_approve_for_student k user.id s) (has_role user "teacher") refl refl refl refl h
