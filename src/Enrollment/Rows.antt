-- ===== src/Enrollment/Rows.antt =====
-- The queries of app/domains/tenant/tenant_repository.py on enrollments, payments and the links
-- between students and parents.
use sams_backend.Base.{
  Action, raise, ⊤, not_null_violation, ℕ, String, ◌+◌, List, [], ◌∷◌, ◌++◌, Option, none, some,
  Bool, false, not, ◌&&◌, ◌==◌, nat_eq, first_row, where_rows, update_rows, is_some, coalesce,
}
use sams_backend.Tenant.{
  Store, EnrollmentRow, EnrollmentState, PaymentRow, PaymentStatus, LinkRow, EventRow,
  get_class_map_by_id, get_class_by_id, get_student_by_id,
}

-- The event that a mapping belongs to, through the join with `event_class_map`.
unfoldable pub is_map_of : ℕ → Store → ℕ → Bool
is_map_of event_id s map_id = elim (get_class_map_by_id map_id s) [
  | none ↦ false
  | some m ↦ m.event_id == event_id
]

unfoldable pub is_enrolled_in : ℕ → ℕ → Store → EnrollmentRow → Bool
is_enrolled_in student_id event_id s en =
    en.student_id == student_id && is_map_of event_id s en.event_class_map_id

unfoldable pub get_enrollments_for_student_and_event : ℕ → ℕ → Store → List EnrollmentRow
get_enrollments_for_student_and_event student_id event_id s =
    where_rows (is_enrolled_in student_id event_id s) s.enrollments

-- A row of `get_enrollment_by_id`, with what the joins add.
pub record Details : Type 0 where
  pub row : EnrollmentRow
  pub student_name : String
  pub event_title : String
  pub ticket_price : ℕ
  pub event_created_by : ℕ

abbrev pub event_row_by_id : ℕ → Store → Option EventRow
event_row_by_id event_id s = first_row (λ (e : EventRow). e.id == event_id) s.events

-- The inner joins: each of the four rows must be there.
unfoldable pub details_of : EnrollmentRow → Store → Option Details
details_of en s = elim (get_student_by_id en.student_id s) [
  | none ↦ none
  | some t ↦ elim (get_class_map_by_id en.event_class_map_id s) [
    | none ↦ none
    | some m ↦ elim (get_class_by_id m.class_id s) [
      | none ↦ none
      | some c ↦ elim (event_row_by_id m.event_id s) [
        | none ↦ none
        | some e ↦ some (record {
          row = en;
          student_name = t.name;
          event_title = e.title;
          ticket_price = m.ticket_price;
          event_created_by = e.created_by;
        })
      ]
    ]
  ]
]

abbrev pub enrollment_row : ℕ → Store → Option EnrollmentRow
enrollment_row enrollment_id s =
    first_row (λ (en : EnrollmentRow). en.id == enrollment_id) s.enrollments

unfoldable pub get_enrollment_by_id : ℕ → Store → Option Details
get_enrollment_by_id enrollment_id s = elim (enrollment_row enrollment_id s) [
  | none ↦ none
  | some en ↦ details_of en s
]

abbrev pub is_pair : ℕ → ℕ → EnrollmentRow → Bool
is_pair student_id map_id en = en.student_id == student_id && en.event_class_map_id == map_id

abbrev pub new_enrollment : ℕ → ℕ → ℕ → EnrollmentState → Option ℕ → Option ℕ → EnrollmentRow
new_enrollment id student_id map_id state teacher_id parent_id = record {
  id = id;
  student_id = student_id;
  event_class_map_id = map_id;
  state = state;
  teacher_id = teacher_id;
  parent_id = parent_id;
}

-- `INSERT … ON CONFLICT (student_id, event_class_map_id) DO UPDATE SET state`: the key of the row, and
-- the store.
unfoldable pub create_enrollment : ℕ → ℕ → EnrollmentState → Option ℕ → Option ℕ → Store → ℕ × Store
create_enrollment student_id map_id state teacher_id parent_id s =
    elim (first_row (is_pair student_id map_id) s.enrollments) [
      | none ↦ (
        s.next_id,
        record s {
          enrollments =
              s.enrollments
              ++ new_enrollment s.next_id student_id map_id state teacher_id parent_id ∷ [];
          next_id = s.next_id + 1;
        },
      )
      | some old ↦ (
        old.id,
        record s {
          enrollments =
              update_rows (is_pair student_id map_id)
                (λ (en : EnrollmentRow). record en { state = state }) s.enrollments;
        },
      )
    ]

-- `update_enrollment_state`: a teacher or a parent that is not given leaves the column.
abbrev pub set_decision : EnrollmentState → Option ℕ → Option ℕ → EnrollmentRow → EnrollmentRow
set_decision state teacher_id parent_id en = record en {
  state = state;
  teacher_id = coalesce teacher_id en.teacher_id;
  parent_id = coalesce parent_id en.parent_id;
}

unfoldable pub update_enrollment_state : ℕ → EnrollmentState → Option ℕ → Option ℕ → Store → Store
update_enrollment_state enrollment_id state teacher_id parent_id s = record s {
  enrollments =
      update_rows (λ (en : EnrollmentRow). en.id == enrollment_id)
        (set_decision state teacher_id parent_id) s.enrollments;
}

-- The delete, and the payments that `ON DELETE CASCADE` takes with it.
unfoldable pub delete_enrollment : ℕ → Store → Store
delete_enrollment enrollment_id s = record s {
  enrollments = where_rows (λ (en : EnrollmentRow). not (en.id == enrollment_id)) s.enrollments;
  payments = where_rows (λ (p : PaymentRow). not (p.enrollment_id == enrollment_id)) s.payments;
}

-- The `INSERT` names no currency, and the column `currency` takes no null and has no default.
unfoldable pub create_payment : ℕ → ℕ → PaymentStatus → Action Store ⊤
create_payment enrollment_id amount status = raise (not_null_violation "payments.currency")

unfoldable pub get_payment_by_enrollment : ℕ → Store → Option PaymentRow
get_payment_by_enrollment enrollment_id s =
    first_row (λ (p : PaymentRow). p.enrollment_id == enrollment_id) s.payments

abbrev pub is_link : ℕ → ℕ → LinkRow → Bool
is_link student_id parent_id l = l.student_id == student_id && l.parent_id == parent_id

unfoldable pub is_student_linked_to_parent : ℕ → ℕ → Store → Bool
is_student_linked_to_parent student_id parent_id s =
    is_some (first_row (is_link student_id parent_id) s.links)

unfoldable pub can_parent_approve_for_student : ℕ → ℕ → Store → Bool
can_parent_approve_for_student student_id parent_id s =
    elim (first_row (is_link student_id parent_id) s.links) [
      | none ↦ false
      | some l ↦ l.can_approve
    ]
