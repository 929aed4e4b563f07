-- ===== src/Tenant.antt =====
-- The tenant schema of app/core/database.py, the part of it that the modelled services read and
-- write, and the queries of app/domains/tenant/tenant_repository.py. Times are numbers that the
-- caller supplies, money is counted in cents, keys are numbers, and new keys come from one counter.
pub mod Years
pub mod Supplies
use Prim.Native.String.{◌++◌ as str_append, count as str_length}
use mathlib.Core.Option
use mathlib.Core.List
use Supplies.{ResourceTypeRow, ResourceRow, CostRow}
use Years.{YearRow, RolloverRow, LineRow, HistoryRow}
use sams_backend.Base.{
  any, ltb, Action, pure, checked, ⊤, Error, data_error, foreign_key_violation, ℕ, String, List, [],
  ◌∷◌, ◌++◌, Option, none, some, Bool, true, false, ◌&&◌, ◌==◌, ◌≡◌, ◌↔◌, nat_eq, Eq, nat_beq,
  first_row, where_rows, is_some, arith,
}

-- `event_status`, and the two names that `check_event_permission` tests besides.
pub data Status : Type 0 where
  draft resource_planning proposed approved finance_approval final_review published : Status
  pricing_review ready_to_publish : Status

abbrev pub status_code : Status → ℕ
status_code draft = 0
status_code resource_planning = 1
status_code proposed = 2
status_code approved = 3
status_code finance_approval = 4
status_code final_review = 5
status_code published = 6
status_code pricing_review = 7
status_code ready_to_publish = 8

pub status_test_iff : (a b : Status) → (nat_beq (status_code a) (status_code b) ≡ true) ↔ (a ≡ b)
status_test_iff a b = ground arith

instance abbrev pub status_eq : Eq Status
status_eq = record {
  test = λ a b. nat_beq (status_code a) (status_code b);
  test_iff = status_test_iff;
}

-- A row of `event`.
pub record EventRow : Type 0 where
  pub id : ℕ
  pub title : String
  pub created_by : ℕ
  pub school_subsidy : ℕ
  pub status : Status
  pub predicted_attendance : Option ℕ
  pub manager_reviewer_id : Option ℕ
  pub finance_reviewer_id : Option ℕ
  pub total_cost : Option ℕ
  pub submitted_at : Option ℕ
  pub manager_approved_at : Option ℕ
  pub finance_priced_at : Option ℕ
  pub published_at : Option ℕ
  pub rejection_reason : Option String

-- A row of `event_class_map`.
pub record ClassMapRow : Type 0 where
  pub id : ℕ
  pub event_id : ℕ
  pub class_id : ℕ
  pub ticket_price : ℕ

-- A row of `class`.
pub record ClassRow : Type 0 where
  pub id : ℕ
  pub name : String
  pub level_id : ℕ
  pub head_teacher_id : Option ℕ
  pub capacity : ℕ
  pub is_active : Bool
  pub academic_year_id : ℕ
  pub section_label : Option String

-- A row of `levels`.
pub record LevelRow : Type 0 where
  pub level_id : ℕ
  pub name : String
  pub ordinal : Option ℕ

pub data StudentStatus : Type 0 where
  enrolled graduated withdrawn : StudentStatus

-- A row of `students`.
pub record StudentRow : Type 0 where
  pub id : ℕ
  pub name : String
  pub class_id : Option ℕ
  pub status : StudentStatus
  pub exited_on : Option ℕ

-- A row of `student_parent_map`.
pub record LinkRow : Type 0 where
  pub student_id : ℕ
  pub parent_id : ℕ
  pub can_approve : Bool

-- A row of `users`.
pub record UserRow : Type 0 where
  pub id : ℕ
  pub role : String

pub data EnrollmentState : Type 0 where
  requested_by_student approved_by_parent approved_by_teacher : EnrollmentState
  rejected_by_parent rejected_by_teacher : EnrollmentState

-- A row of `enrollment`.
pub record EnrollmentRow : Type 0 where
  pub id : ℕ
  pub student_id : ℕ
  pub event_class_map_id : ℕ
  pub state : EnrollmentState
  pub teacher_id : Option ℕ
  pub parent_id : Option ℕ

pub data PaymentStatus : Type 0 where
  pending paid refunded : PaymentStatus

-- A row of `payments`.
pub record PaymentRow : Type 0 where
  pub id : ℕ
  pub enrollment_id : ℕ
  pub amount : ℕ
  pub status : PaymentStatus

-- The texts of `title_override`, with what they quote.
pub data Notice : Type 0 where
  proposal_submitted proposal_approved trip_published child_trip_published : String → Notice
  event_published child_event_published : String → Notice
  event_rejected : String → Option String → Notice
  enrollment_cancelled : String → String → Notice

-- A row of `notifications`.
pub record NotificationRow : Type 0 where
  pub event_id : ℕ
  pub recipient_user_id : ℕ
  pub title_override : Notice

pub record Store : Type 0 where
  pub events : List EventRow
  pub class_maps : List ClassMapRow
  pub classes : List ClassRow
  pub levels : List LevelRow
  pub students : List StudentRow
  pub links : List LinkRow
  pub users : List UserRow
  pub enrollments : List EnrollmentRow
  pub payments : List PaymentRow
  pub notifications : List NotificationRow
  pub years : List YearRow
  pub rollovers : List RolloverRow
  pub rollover_lines : List LineRow
  pub class_history : List HistoryRow
  pub resource_types : List ResourceTypeRow
  pub resources : List ResourceRow
  pub resource_costs : List CostRow
  pub next_id : ℕ

-- One of the mappings that `get_event_by_id` attaches. Its query selects no head teacher, so the
-- field is `none` there; other callers' events may carry it.
pub record ClassMapping : Type 0 where
  pub id : ℕ
  pub class_id : ℕ
  pub ticket_price : ℕ
  pub head_teacher_id : Option ℕ

-- The dictionary of an event: its row and its mappings.
pub record Event : Type 0 where
  pub row : EventRow
  pub class_mappings : List ClassMapping

unfoldable pub get_class_by_id : ℕ → Store → Option ClassRow
get_class_by_id class_id s = first_row (λ (c : ClassRow). c.id == class_id) s.classes

abbrev has_level : ℕ → Store → Bool
has_level level_id s = is_some (first_row (λ (l : LevelRow). l.level_id == level_id) s.levels)

-- `JOIN class c … JOIN levels l …`: a mapping whose class or level is gone drops out.
abbrev pub is_joined : Store → ClassMapRow → Bool
is_joined s m = elim (get_class_by_id m.class_id s) [
  | none ↦ false
  | some c ↦ has_level c.level_id s
]

abbrev pub to_mapping : ClassMapRow → ClassMapping
to_mapping m = record {
  id = m.id;
  class_id = m.class_id;
  ticket_price = m.ticket_price;
  head_teacher_id = none;
}

unfoldable pub mappings_of : ℕ → Store → List ClassMapping
mappings_of event_id s =
    List.map to_mapping
      (where_rows (λ (m : ClassMapRow). m.event_id == event_id && is_joined s m) s.class_maps)

unfoldable pub get_event_by_id : ℕ → Store → Option Event
unfolding mappings_of
get_event_by_id event_id s =
    Option.map (λ (e : EventRow). record { row = e; class_mappings = mappings_of event_id s })
      (first_row (λ (e : EventRow). e.id == event_id) s.events)

unfoldable pub get_class_map_by_id : ℕ → Store → Option ClassMapRow
get_class_map_by_id map_id s = first_row (λ (m : ClassMapRow). m.id == map_id) s.class_maps

unfoldable pub get_student_by_id : ℕ → Store → Option StudentRow
get_student_by_id student_id s = first_row (λ (t : StudentRow). t.id == student_id) s.students

-- The f-strings of `title_override`.
abbrev pub title_text : Notice → String
title_text (proposal_submitted t) =
    str_append (str_append "New event proposal: '" t) "' submitted for approval"
title_text (proposal_approved t) =
    str_append (str_append "Event proposal '" t)
      "' has been approved by Manager! You can now publish it."
title_text (trip_published t) =
    str_append (str_append "New school trip published: '" t) "' – enroll now!"
title_text (child_trip_published t) =
    str_append (str_append "Your child's school trip '" t) "' is now open for enrollment!"
title_text (event_published t) = str_append (str_append "New Event Published: '" t) "'"
title_text (child_event_published t) =
    str_append (str_append "New Child Event: '" t) "' has been published!"
title_text (event_rejected t none) =
    str_append (str_append "Event '" t) "' rejected by manager. Reason: None"
title_text (event_rejected t (some reason)) =
    str_append (str_append (str_append "Event '" t) "' rejected by manager. Reason: ") reason
title_text (enrollment_cancelled name t) =
    str_append (str_append (str_append (str_append "❌ Cancelled: " name) " un-enrolled from '") t)
      "'"

abbrev pub has_user : ℕ → Store → Bool
has_user user_id s = any (λ (u : UserRow). u.id == user_id) s.users

abbrev pub has_event : ℕ → Store → Bool
has_event event_id s = any (λ (e : EventRow). e.id == event_id) s.events

abbrev pub is_user_or_null : Option ℕ → Store → Bool
is_user_or_null none s = true
is_user_or_null (some u) s = has_user u s

abbrev pub notice_row : ℕ → Notice → ℕ → NotificationRow
notice_row event_id text recipient = record {
  event_id = event_id;
  recipient_user_id = recipient;
  title_override = text;
}

-- The store with more notifications and nothing else changed.
abbrev pub sent : Store → List NotificationRow → Store
sent s rows = record s { notifications = s.notifications ++ rows }

-- `VARCHAR(255)` and the two references.
abbrev pub notification_checks : NotificationRow → Store → List (Bool × Error)
notification_checks n s =
    (ltb (str_length (title_text n.title_override)) 256, data_error "notifications.title_override")
    ∷ (has_event n.event_id s, foreign_key_violation "notifications.event_id")
    ∷ (has_user n.recipient_user_id s, foreign_key_violation "notifications.recipient_user_id")
    ∷ []

unfoldable pub create_notification : ℕ → ℕ → Notice → Action Store ⊤
create_notification event_id recipient title s =
    let row = notice_row event_id title recipient in
    checked (notification_checks row s) (pure tt) (λ t. sent t (row ∷ [])) s
