-- ===== src/EmployeeTest.antt =====
-- Tests of employees: the rows of src/app/models/employee_test.py and the inputs of
-- src/app/services/employee_test.py. Titles, texts of descriptions, the flags for the apps and the
-- journal columns of a template are dropped. A text is its list of code points. A number that the
-- payload gives is not negative here: the source refuses a negative one with the same error as 0, or,
-- for the threshold, as one above 100. The rows of a template stand in a list without the order by
-- position, which no result depends on.
pub mod Templates
pub mod Attempts
pub mod Submission
pub mod Grading
pub mod Rounding
pub mod Graded
pub mod Tally
pub mod Roster
pub mod Writes
pub mod Payload
pub mod Valid
pub mod Points
pub mod Completion
pub mod Life
use smenka_back.Prelude.{
  ℕ, ◌+◌, Bool, true, false, not, ◌&&◌, ◌||◌, Option, none, some, List, [], ◌∷◌, ◌++◌, map, leb,
  ltb, ◌==◌, if◌then◌else◌, find, select, update, any, length, Result, ok, err, ◌>>=◌, ◌>>◌,
  raise_if, or_raise, test_template_invalid, test_template_not_found, test_template_deleted,
  test_template_not_deleted, crash,
}
use smenka_back.Access.{
  Directory, Organization, OrganizationMember, get_organization, ensure_admin_or_owner, is_some,
}
use smenka_back.Billing.Tables.{Db}
use smenka_back.Billing.Entitlements.{require_active_subscription}

pub data TestQuestionType : Type 0 where
  single_choice multiple_choice : TestQuestionType

pub data TestAssignmentStatus : Type 0 where
  assigned in_progress passed failed : TestAssignmentStatus

pub data TestAttemptStatus : Type 0 where
  in_progress submitted : TestAttemptStatus

pub record TestQuestionOption : Type 0 where
  pub id : ℕ
  pub text : List ℕ
  pub is_correct : Bool
  pub position : ℕ

pub record TestQuestion : Type 0 where
  pub id : ℕ
  pub text : List ℕ
  pub type : TestQuestionType
  pub points : ℕ
  pub position : ℕ
  pub options : List TestQuestionOption

pub record TestTemplate : Type 0 where
  pub id : ℕ
  pub organization_id : ℕ
  pub pass_threshold_percent : ℕ
  pub max_attempts : ℕ
  pub is_deleted : Bool
  pub questions : List TestQuestion

pub record TestAssignment : Type 0 where
  pub id : ℕ
  pub template_id : ℕ
  pub member_id : ℕ
  pub assigned_by_user_id : Option ℕ
  pub due_at : Option ℕ
  pub status : TestAssignmentStatus
  pub attempts_used : ℕ
  pub best_percent : Option ℕ
  pub passed : Bool
  pub last_attempt_at : Option ℕ

pub record TestAttemptOption : Type 0 where
  pub id : ℕ
  pub is_correct : Bool
  pub is_selected : Bool

pub record TestAttemptQuestion : Type 0 where
  pub id : ℕ
  pub points : ℕ
  pub options : List TestAttemptOption

pub record TestAttempt : Type 0 where
  pub id : ℕ
  pub assignment_id : ℕ
  pub attempt_number : ℕ
  pub status : TestAttemptStatus
  pub score : ℕ
  pub max_score : ℕ
  pub percent : ℕ
  pub passed : Bool
  pub pass_threshold_percent : ℕ
  pub submitted_at : Option ℕ
  pub questions : List TestAttemptQuestion

-- The tables that the service writes, beside those of the guards.
pub record Tables : Type 0 where
  pub billing : Db
  pub templates : List TestTemplate
  pub assignments : List TestAssignment
  pub attempts : List TestAttempt

pub record QuestionOptionInput : Type 0 where
  pub text : List ℕ
  pub is_correct : Bool
  pub position : Option ℕ

-- A type is `none` when its text names no `TestQuestionType`.
pub record QuestionInput : Type 0 where
  pub text : List ℕ
  pub type : Option TestQuestionType
  pub points : ℕ
  pub position : Option ℕ
  pub options : List QuestionOptionInput
