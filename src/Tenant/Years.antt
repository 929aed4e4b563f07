-- ===== src/Tenant/Years.antt =====
-- The rows of the academic years and of the year rollover, from app/core/database.py.
use sams_backend.Base.{ℕ, String, Option, Eq, nat_beq, ◌≡◌, ◌↔◌, true, arith}

pub data YearStatus : Type 0 where
  planned active closed : YearStatus

-- A row of `academic_years`.
pub record YearRow : Type 0 where
  pub id : ℕ
  pub status : YearStatus
  pub end_date : Option ℕ
  pub rolled_from_id : Option ℕ

-- `proposed_action` and `override_action`; the engine never proposes `withdraw`.
pub data RolloverAction : Type 0 where
  promote graduate hold withdraw : RolloverAction

abbrev pub action_code : RolloverAction → ℕ
action_code promote = 0
action_code graduate = 1
action_code hold = 2
action_code withdraw = 3

pub action_test_iff :
    (a b : RolloverAction) → (nat_beq (action_code a) (action_code b) ≡ true) ↔ (a ≡ b)
action_test_iff a b = ground arith

instance abbrev pub action_eq : Eq RolloverAction
action_eq = record {
  test = λ a b. nat_beq (action_code a) (action_code b);
  test_iff = action_test_iff;
}

pub data ExceptionCode : Type 0 where
  no_next_level no_placement over_capacity : ExceptionCode

pub data RolloverState : Type 0 where
  draft previewed committing committed : RolloverState

-- The JSON of `year_rollover.summary`.
pub record Summary : Type 0 where
  pub promoted : ℕ
  pub graduated : ℕ
  pub withdrawn : ℕ
  pub held : ℕ

-- A row of `year_rollover`.
pub record RolloverRow : Type 0 where
  pub id : ℕ
  pub from_year_id : ℕ
  pub to_year_id : ℕ
  pub state : RolloverState
  pub summary : Option Summary

-- A row of `year_rollover_line`.
pub record LineRow : Type 0 where
  pub id : ℕ
  pub rollover_id : ℕ
  pub student_id : ℕ
  pub from_class_id : Option ℕ
  pub to_level_id : Option ℕ
  pub to_section_label : Option String
  pub to_class_id : Option ℕ
  pub proposed_action : RolloverAction
  pub override_action : Option RolloverAction
  pub exception_code : Option ExceptionCode
  pub applied_at : Option ℕ

-- A row of `student_class_history`.
pub record HistoryRow : Type 0 where
  pub student_id : ℕ
  pub old_class_id : Option ℕ
  pub new_class_id : Option ℕ
  pub changed_by : Option ℕ
