-- ===== src/Enrollment/Uniqueness.antt =====
-- What `enroll_student` of app/domains/tenant/service.py keeps of the enrollments.
use sams_backend.Base.{
  ℕ, ◌+◌, ◌≤◌, List, [], ◌∷◌, Option, some, Bool, true, false, ◌&&◌, ◌==◌, nat_eq, length,
  first_row, test-first_row, Bool-cases, if◌then◌else◌, Action, Result, ok, gets, or_raise,
  require_that, ◌>>=◌, ◌>>◌, value_error, bind-steps, guard-steps, or_raise-steps, raise, pure,
  ◌>>◌, ◌⊎◌, ◌≡◌, refl, sym, ap, ◌∙◌, inl, inr, arith,
}
use sams_backend.Tenant.{
  Store, EnrollmentRow, EnrollmentState, ClassMapRow, StudentRow, get_class_map_by_id,
  get_event_by_id, get_student_by_id,
}
use sams_backend.Enrollment.Rows.{
  is_map_of, get_enrollments_for_student_and_event, create_enrollment, get_enrollment_by_id,
}
use sams_backend.Enrollment.Service.{
  enroll_student, enroll_new, enroll_into, known_enrollment, charge, is_in_class, is_none,
  is_published,
}
use sams_backend.Enrollment.Counts.{charge-steps, le_of_eq, le_trans, length-create_enrollment}

-- No student is enrolled twice in an event.
abbrev pub EnrolledOnce : Store → Type 0
EnrolledOnce s = (k e : ℕ) → length (get_enrollments_for_student_and_event k e s) ≤ 1

plus_zero : (n : ℕ) → n + 0 ≡ n
plus_zero n = omega arith

pair_eq : {a b c d : ℕ} → a ≡ b → c ≡ d → ◌≡◌ {A = ℕ × ℕ} (a, c) (b, d)
pair_eq h k = cc (h, k)

same_keys : (a b c d : ℕ) → (a == b && c == d) ≡ true → (a ≡ b) × (c ≡ d)
same_keys a b c d h = ground arith

is_none-nil : (xs : List EnrollmentRow) → is_none xs ≡ true → length xs ≡ 0
is_none-nil [] h = refl
is_none-nil (x ∷ xs) h = cc

is_map_of-event :
    (m : ClassMapRow) (e : ℕ) (s : Store)
    → get_class_map_by_id m.id s ≡ some m
    → is_map_of e s m.id ≡ (m.event_id == e)
unfolding is_map_of
is_map_of-event m e s mapped = rw (mapped, is_map_of) refl

-- What one more enrollment makes of the count, where there was none before.
room_for_one :
    (student_id : ℕ) (m : ClassMapRow) (s : Store) (k e : ℕ)
    → get_class_map_by_id m.id s ≡ some m
    → is_none (get_enrollments_for_student_and_event student_id m.event_id s) ≡ true
    → EnrolledOnce s
    → length (get_enrollments_for_student_and_event k e s)
        + (if student_id == k && is_map_of e s m.id then 1 else 0)
      ≤ 1
room_for_one student_id m s k e mapped new once =
    rw (is_map_of-event m e s mapped) (elim (Bool-cases (student_id == k && m.event_id == e)) [
      | inl same ↦
          let (p, q) = same_keys student_id k m.event_id e same in
          let empty =
            is_none-nil (get_enrollments_for_student_and_event student_id m.event_id s) new in
          let empty' : length (get_enrollments_for_student_and_event k e s) ≡ 0 =
            ap (λ (x : ℕ × ℕ). length (get_enrollments_for_student_and_event x.0 x.1 s))
              (pair_eq (sym p) (sym q))
            ∙ empty in
          rw (same, empty') (le_of_eq refl)
      | inr other ↦ rw other (
          le_trans (le_of_eq (plus_zero (length (get_enrollments_for_student_and_event k e s))))
            (once k e))
    ])

either_way :
    {A : Type 0} (b : Bool) (x y out : A)
    → (if b then x else y) ≡ out
    → ((b ≡ true) × (x ≡ out)) ⊎ ((b ≡ false) × (y ≡ out))
either_way true x y out h = inl (refl, h)
either_way false x y out h = inr (refl, h)

-- A new enrollment, of a student who is not in the event yet.
enroll_new-EnrolledOnce :
    (student_id : ℕ) (m : ClassMapRow) (state : EnrollmentState) (t p : Option ℕ)
    (student : StudentRow) (s s' : Store) (id : ℕ)
    → get_class_map_by_id m.id s ≡ some m
    → is_none (get_enrollments_for_student_and_event student_id m.event_id s) ≡ true
    → EnrolledOnce s
    → enroll_new student_id m state t p student s ≡ (ok id, s')
    → EnrolledOnce s'
unfolding enroll_new
enroll_new-EnrolledOnce student_id m state t p student s s' id mapped new once h k e =
    let (key, made) = create_enrollment student_id m.id state t p s in
    let details = get_enrollment_by_id key made in
    elim (either_way (is_in_class m.class_id student) ((charge key details >> pure key) made)
      (raise (value_error "Student is not in the class mapped to this event") s) (ok id, s') h) [
        | inl (fits, paid_for) ↦
            let count : length (get_enrollments_for_student_and_event k e s')
                ≡ length (get_enrollments_for_student_and_event k e made) =
              ap (λ (x : Store). length (get_enrollments_for_student_and_event k e x))
                (sym (charge-steps key details made s' id paid_for)) in
            le_trans (le_of_eq count) (
              le_trans (length-create_enrollment student_id m.id state t p k e s)
                (room_for_one student_id m s k e mapped new once))
        | inr (elsewhere, refused) ↦ cc
      ]

known_enrollment-same :
    (map_id : ℕ) (existing : List EnrollmentRow) (s s' : Store) (id : ℕ)
    → known_enrollment map_id existing s ≡ (ok id, s')
    → s ≡ s'
unfolding known_enrollment
known_enrollment-same map_id existing s s' id h = ground arith

enroll_into-EnrolledOnce :
    (student_id map_id : ℕ) (m : ClassMapRow) (state : EnrollmentState) (t p : Option ℕ)
    (student : StudentRow) (s s' : Store) (id : ℕ)
    → get_class_map_by_id m.id s ≡ some m
    → EnrolledOnce s
    → enroll_into student_id map_id state t p m student s ≡ (ok id, s')
    → EnrolledOnce s'
unfolding enroll_into
enroll_into-EnrolledOnce student_id map_id m state t p student s s' id mapped once h =
    let existing = get_enrollments_for_student_and_event student_id m.event_id s in
    elim (either_way (is_none existing) (enroll_new student_id m state t p student s)
      (known_enrollment map_id existing s) (ok id, s') h) [
        | inl (new, made) ↦
            enroll_new-EnrolledOnce student_id m state t p student s s' id mapped new once made
        | inr (old, kept) ↦ λ k e.
            le_trans
              (le_of_eq (
                ap (λ (x : Store). length (get_enrollments_for_student_and_event k e x))
                  (sym (known_enrollment-same map_id existing s s' id kept))))
              (once k e)
      ]

-- The steps of an enrollment that returns.
enroll_student-steps :
    (student_id map_id : ℕ) (state : EnrollmentState) (t p : Option ℕ) (s s' : Store) (id : ℕ)
    → enroll_student student_id map_id state t p s ≡ (ok id, s')
    → (m : ClassMapRow) × (student : StudentRow) × (get_class_map_by_id map_id s ≡ some m)
      × (is_published (get_event_by_id m.event_id s) ≡ true)
      × (get_student_by_id student_id s ≡ some student)
      × (enroll_into student_id map_id state t p m student s ≡ (ok id, s'))
unfolding enroll_student
enroll_student-steps student_id map_id state t p s s' id h =
    let no_map = value_error "Event class mapping not found" in
    let closed = value_error "Enrollment is only allowed for published events" in
    let no_student = value_error "Student not found" in
    let (m, s1, looked, h1) =
      bind-steps (or_raise (get_class_map_by_id map_id s) no_map)
        (λ m. gets (get_event_by_id m.event_id) >>= λ ev.
          require_that (is_published ev) closed
          >> (gets (get_student_by_id student_id) >>= λ found.
              or_raise found no_student >>= enroll_into student_id map_id state t p m))
        s s' id h in
    let (mapped, e1) = or_raise-steps (get_class_map_by_id map_id s) no_map s s1 m looked in
    let rest : Store → Action Store ℕ = λ x.
      or_raise (get_student_by_id student_id x) no_student
      >>= enroll_into student_id map_id state t p m in
    let guarded : Store → Result ℕ × Store = λ x.
      (require_that (is_published (get_event_by_id m.event_id x)) closed >> (λ y. rest y y)) x in
    let (open_event, h2) =
      guard-steps (is_published (get_event_by_id m.event_id s)) closed (λ y. rest y y) s s' id
        (ap guarded e1 ∙ h1) in
    let (student, s2, looked', h3) =
      bind-steps (or_raise (get_student_by_id student_id s) no_student)
        (enroll_into student_id map_id state t p m) s s' id h2 in
    let (found, e2) =
      or_raise-steps (get_student_by_id student_id s) no_student s s2 student looked' in
    (
      m,
      student,
      mapped,
      open_event,
      found,
      ap (enroll_into student_id map_id state t p m student) e2 ∙ h3,
    )

map_key :
    (map_id : ℕ) (m : ClassMapRow) (s : Store)
    → get_class_map_by_id map_id s ≡ some m
    → get_class_map_by_id m.id s ≡ some m
unfolding get_class_map_by_id
map_key map_id m s h =
    let hit = test-first_row (λ (x : ClassMapRow). x.id == map_id) s.class_maps m h in
    ap (λ (k : ℕ). first_row (λ (x : ClassMapRow). x.id == k) s.class_maps)
      ((nat_eq.test_iff m.id map_id).0 hit)
    ∙ h

-- An enrollment that returns leaves no student enrolled twice in an event, if none was before.
pub enroll_student-EnrolledOnce :
    (student_id map_id : ℕ) (state : EnrollmentState) (t p : Option ℕ) (s s' : Store) (id : ℕ)
    → EnrolledOnce s
    → enroll_student student_id map_id state t p s ≡ (ok id, s')
    → EnrolledOnce s'
enroll_student-EnrolledOnce student_id map_id state t p s s' id once h =
    let (m, student, mapped, open_event, found, made) =
      enroll_student-steps student_id map_id state t p s s' id h in
    enroll_into-EnrolledOnce student_id map_id m state t p student s s' id
      (map_key map_id m s mapped) once made
