-- ===== src/EmployeeTest/Attempts.antt =====
-- Assignments and attempts of src/app/services/employee_test.py.
use smenka_back.Prelude.{
  ℕ, ◌+◌, max, Bool, true, false, not, ◌&&◌, Option, none, some, List, [], ◌∷◌, ◌++◌, leb, ◌==◌,
  if◌then◌else◌, find, select, update, any, Result, ok, ◌>>=◌, ◌>>◌, raise_if, or_raise, crash,
  member_not_found, test_template_deleted, test_already_passed, test_attempts_exhausted,
  test_assignment_not_found,
}
use smenka_back.Access.{Directory}
use smenka_back.EmployeeTest.{
  TestAssignmentStatus, TestAttemptStatus, TestQuestionOption, TestQuestion, TestTemplate,
  TestAssignment, TestAttemptOption, TestAttemptQuestion, TestAttempt, Tables,
}
use smenka_back.EmployeeTest.Templates.{check_admin, get_template}

-- `k` is an element.
abbrev pub mem : ℕ → List ℕ → Bool
mem k ks = any (λ j. k == j) ks

abbrev pub subset : List ℕ → List ℕ → Bool
subset ks js = not (any (λ k. not (mem k js)) ks)

-- `list(dict.fromkeys(member_ids))`: the first of equal ids stays.
unfoldable pub unique_ids : List ℕ → List ℕ
unique_ids [] = []
unique_ids (k ∷ ks) = let rest = unique_ids ks in k ∷ select (λ j. not (j == k)) rest

abbrev pub member_in : Directory → ℕ → ℕ → Bool
member_in db org_id member_id =
    any (λ m. m.id == member_id && m.organization_id == org_id) db.members

abbrev pub is_assigned : ℕ → ℕ → TestAssignment → Bool
is_assigned template_id member_id a = a.template_id == template_id && a.member_id == member_id

unfoldable pub save_assignment : TestAssignment → Tables → Tables
save_assignment a t = record t { assignments = update (λ q. q.id == a.id) (λ _. a) t.assignments }

abbrev pub new_assignment : ℕ → ℕ → ℕ → ℕ → Option ℕ → TestAssignment
new_assignment assignment_id template_id member_id requester_id due_at = record {
  id = assignment_id;
  template_id = template_id;
  member_id = member_id;
  assigned_by_user_id = some requester_id;
  due_at = due_at;
  status = TestAssignmentStatus.assigned;
  attempts_used = 0;
  best_percent = none;
  passed = false;
  last_attempt_at = none;
}

-- The assignment of a member is written again or added.
abbrev pub upsert :
    Tables → ℕ → ℕ → ℕ → Option ℕ → ℕ → Option TestAssignment → Tables × TestAssignment
upsert t template_id member_id requester_id due_at assignment_id (some existing) =
    let a = record existing { due_at = due_at; assigned_by_user_id = some requester_id } in
    (save_assignment a t, a)
upsert t template_id member_id requester_id due_at assignment_id none =
    let a = new_assignment assignment_id template_id member_id requester_id due_at in
    (record t { assignments = t.assignments ++ a ∷ [] }, a)

-- The loop over the members; the id of a new assignment is given by its member. The members differ,
-- so that a look into the table finds what the query before the loop has found.
unfoldable pub upsert_all : Tables → ℕ → ℕ → Option ℕ → (ℕ → ℕ) → List ℕ → Tables
upsert_all t template_id requester_id due_at assignment_id [] = t
upsert_all t template_id requester_id due_at assignment_id (member_id ∷ members) =
    let existing = find (is_assigned template_id member_id) t.assignments in
    let written =
      upsert t template_id member_id requester_id due_at (assignment_id member_id) existing in
    upsert_all written.0 template_id requester_id due_at assignment_id members

unfoldable pub assign_template :
    Tables → ℕ → ℕ → ℕ → List ℕ → Option ℕ → (ℕ → ℕ) → ℕ → Result Tables
assign_template t org_id template_id requester_id member_ids due_at assignment_id now = do
  check_admin t.billing org_id requester_id now
  template ← get_template t org_id template_id
  raise_if template.is_deleted test_template_deleted
  let members = unique_ids member_ids
  raise_if (any (λ k. not (member_in t.billing.directory org_id k)) members) member_not_found
  ok (upsert_all t template_id requester_id due_at assignment_id members)

abbrev pub in_org : Tables → ℕ → TestAssignment → Bool
in_org t org_id a = any (λ r. r.id == a.template_id && r.organization_id == org_id) t.templates

unfoldable pub get_org_assignment : Tables → ℕ → ℕ → Result TestAssignment
get_org_assignment t org_id assignment_id =
    or_raise (find (λ a. a.id == assignment_id && in_org t org_id a) t.assignments)
      test_assignment_not_found

-- The attempts go with the assignment, by the foreign key.
unfoldable pub remove_assignment : TestAssignment → Tables → Tables
remove_assignment a t = record t {
  assignments = select (λ q. not (q.id == a.id)) t.assignments;
  attempts = select (λ q. not (q.assignment_id == a.id)) t.attempts;
}

unfoldable pub delete_assignment : Tables → ℕ → ℕ → ℕ → ℕ → Result Tables
delete_assignment t org_id assignment_id requester_id now = do
  check_admin t.billing org_id requester_id now
  a ← get_org_assignment t org_id assignment_id
  ok (remove_assignment a t)

-- The join with the members.
abbrev pub is_own : Tables → ℕ → TestAssignment → Bool
is_own t user_id a =
    any (λ m. m.id == a.member_id && m.user_id == user_id) t.billing.directory.members

unfoldable pub get_my_assignment : Tables → ℕ → ℕ → Result TestAssignment
get_my_assignment t user_id assignment_id =
    or_raise (find (λ a. a.id == assignment_id && is_own t user_id a) t.assignments)
      test_assignment_not_found

-- The template of an assignment is there by its foreign key.
unfoldable pub template_of : Tables → TestAssignment → Result TestTemplate
template_of t a = or_raise (find (λ r. r.id == a.template_id) t.templates) crash

abbrev pub is_open : TestAttemptStatus → Bool
is_open TestAttemptStatus.in_progress = true
is_open TestAttemptStatus.submitted = false

abbrev pub is_open_of : ℕ → TestAttempt → Bool
is_open_of assignment_id r = r.assignment_id == assignment_id && is_open r.status

unfoldable pub build_attempt_options : (ℕ → ℕ) → List TestQuestionOption → List TestAttemptOption
build_attempt_options attempt_option_id [] = []
build_attempt_options attempt_option_id (o ∷ options) =
    record { id = attempt_option_id o.id; is_correct = o.is_correct; is_selected = false }
    ∷ build_attempt_options attempt_option_id options

-- The id of a new row is given by the id of the row that it copies.
unfoldable pub build_attempt_questions :
    (ℕ → ℕ) → (ℕ → ℕ) → List TestQuestion → List TestAttemptQuestion
build_attempt_questions attempt_question_id attempt_option_id [] = []
build_attempt_questions attempt_question_id attempt_option_id (q ∷ questions) =
    record {
      id = attempt_question_id q.id;
      points = q.points;
      options = build_attempt_options attempt_option_id q.options;
    }
    ∷ build_attempt_questions attempt_question_id attempt_option_id questions

unfoldable pub points_of : List TestQuestion → ℕ
points_of [] = 0
points_of (q ∷ questions) = q.points + points_of questions

unfoldable pub max_number : ℕ → List TestAttempt → ℕ
max_number assignment_id [] = 0
max_number assignment_id (r ∷ attempts) =
    let rest = max_number assignment_id attempts in
    if r.assignment_id == assignment_id then max r.attempt_number rest else rest

abbrev pub started : TestAssignmentStatus → TestAssignmentStatus
started TestAssignmentStatus.assigned = TestAssignmentStatus.in_progress
started status = status

abbrev pub new_attempt :
    Tables → TestAssignment → TestTemplate → ℕ → List TestAttemptQuestion → TestAttempt
new_attempt t a template attempt_id questions = record {
  id = attempt_id;
  assignment_id = a.id;
  attempt_number = max_number a.id t.attempts + 1;
  status = TestAttemptStatus.in_progress;
  score = 0;
  max_score = points_of template.questions;
  percent = 0;
  passed = false;
  pass_threshold_percent = template.pass_threshold_percent;
  submitted_at = none;
  questions = questions;
}

-- An open attempt is given back, else a new one is written.
abbrev pub open_or_new :
    Tables → TestAssignment → Option TestAttempt → TestAttempt → Tables × TestAttempt
open_or_new t a (some existing) r = (t, existing)
open_or_new t a none r =
    let changed = record a { status = started a.status } in
    (record (save_assignment changed t) { attempts = t.attempts ++ r ∷ [] }, r)

unfoldable pub start_attempt :
    Tables → ℕ → ℕ → (ℕ → ℕ) → (ℕ → ℕ) → ℕ → Result (Tables × TestAttempt)
start_attempt t user_id assignment_id attempt_question_id attempt_option_id attempt_id = do
  a ← get_my_assignment t user_id assignment_id
  template ← template_of t a
  raise_if template.is_deleted test_template_deleted
  raise_if a.passed test_already_passed
  raise_if (leb template.max_attempts a.attempts_used) test_attempts_exhausted
  let existing = find (is_open_of a.id) t.attempts
  let copied = build_attempt_questions attempt_question_id attempt_option_id template.questions
  ok (open_or_new t a existing (new_attempt t a template attempt_id copied))
