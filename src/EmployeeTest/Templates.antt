-- ===== src/EmployeeTest/Templates.antt =====
-- The templates of tests and their validation: src/app/services/employee_test.py.
use smenka_back.Prelude.{
  is_space, ℕ, ◌+◌, Bool, true, false, not, ◌&&◌, Option, none, some, List, [], ◌∷◌, ◌++◌, ltb,
  ◌==◌, if◌then◌else◌, find, update, any, length, Result, ok, err, ◌>>=◌, ◌>>◌, raise_if, or_raise,
  test_template_invalid, test_template_not_found, test_template_deleted, test_template_not_deleted,
  crash,
}
use smenka_back.Access.{get_organization, ensure_admin_or_owner}
use smenka_back.Billing.Tables.{Db}
use smenka_back.Billing.Entitlements.{require_active_subscription}
use smenka_back.EmployeeTest.{
  TestQuestionType, TestQuestionOption, TestQuestion, TestTemplate, Tables, QuestionOptionInput,
  QuestionInput,
}

-- `not text or not text.strip()`.
abbrev pub is_blank : List ℕ → Bool
is_blank text = not (any (λ c. not (is_space c)) text)

abbrev pub wrong_count : TestQuestionType → ℕ → Bool
wrong_count TestQuestionType.single_choice k = not (k == 1)
wrong_count TestQuestionType.multiple_choice k = ltb k 1

abbrev pub one_if : Bool → ℕ
one_if b = if b then 1 else 0

unfoldable pub correct_count : List QuestionOptionInput → Result ℕ
correct_count [] = ok 0
correct_count (opt ∷ options) = do
  raise_if (is_blank opt.text) test_template_invalid
  k ← correct_count options
  ok (one_if opt.is_correct + k)

unfoldable pub validate_question : QuestionInput → Result (Unit {0})
validate_question q = do
  raise_if (is_blank q.text) test_template_invalid
  q_type ← or_raise q.type test_template_invalid
  raise_if (ltb q.points 1) test_template_invalid
  raise_if (ltb (length q.options) 2) test_template_invalid
  k ← correct_count q.options
  raise_if (wrong_count q_type k) test_template_invalid

unfoldable pub validate_questions : List QuestionInput → ℕ → Result ℕ
validate_questions [] total_points = ok total_points
validate_questions (q ∷ questions) total_points = do
  validate_question q
  validate_questions questions (total_points + q.points)

unfoldable pub validate_template_payload : ℕ → ℕ → List QuestionInput → Result (ℕ × ℕ)
validate_template_payload pass_threshold_percent max_attempts questions = do
  raise_if (ltb 100 pass_threshold_percent) test_template_invalid
  raise_if (ltb max_attempts 1) test_template_invalid
  raise_if (length questions == 0) test_template_invalid
  total_points ← validate_questions questions 0
  ok (length questions, total_points)

abbrev pub position_or : Option ℕ → ℕ → ℕ
position_or none idx = idx
position_or (some position) idx = position

-- The id of a new row is given by its place.
unfoldable pub build_options : (ℕ → ℕ) → ℕ → List QuestionOptionInput → List TestQuestionOption
build_options option_id oidx [] = []
build_options option_id oidx (o ∷ options) =
    record {
      id = option_id oidx;
      text = o.text;
      is_correct = o.is_correct;
      position = position_or o.position oidx;
    }
    ∷ build_options option_id (oidx + 1) options

-- `TestQuestionType(q.type)` raises on another text, which the validation has refused before.
unfoldable pub build_template_questions :
    (ℕ → ℕ) → (ℕ → ℕ → ℕ) → ℕ → List QuestionInput → Result (List TestQuestion)
build_template_questions question_id option_id idx [] = ok []
build_template_questions question_id option_id idx (q ∷ questions) = do
  q_type ← or_raise q.type crash
  built ← build_template_questions question_id option_id (idx + 1) questions
  ok (
      record {
        id = question_id idx;
        text = q.text;
        type = q_type;
        points = q.points;
        position = position_or q.position idx;
        options = build_options (option_id idx) 0 q.options;
      }
      ∷ built)

abbrev pub check_admin : Db → ℕ → ℕ → ℕ → Result (Unit {0})
check_admin billing org_id requester_id now = do
  org ← get_organization billing.directory org_id
  ensure_admin_or_owner billing.directory org requester_id true
  require_active_subscription billing org requester_id now

unfoldable pub get_template : Tables → ℕ → ℕ → Result TestTemplate
get_template t org_id template_id =
    or_raise (find (λ r. r.id == template_id && r.organization_id == org_id) t.templates)
      test_template_not_found

unfoldable pub create_template :
    Tables
    → ℕ
    → ℕ
    → List ℕ
    → ℕ
    → ℕ
    → List QuestionInput
    → (ℕ → ℕ)
    → (ℕ → ℕ → ℕ)
    → ℕ
    → ℕ
    → Result (Tables × TestTemplate)
create_template t org_id requester_id title threshold max_attempts questions question_id option_id
      template_id now =
    do
      check_admin t.billing org_id requester_id now
      raise_if (is_blank title) test_template_invalid
      counts ← validate_template_payload threshold max_attempts questions
      built ← build_template_questions question_id option_id 0 questions
      let template : TestTemplate = record {
        id = template_id;
        organization_id = org_id;
        pass_threshold_percent = threshold;
        max_attempts = max_attempts;
        is_deleted = false;
        questions = built;
      }
      ok (record t { templates = t.templates ++ template ∷ [] }, template)

-- A field of the body is `none` when it is not given, `some none` when it is null.
pub record TemplateFields : Type 0 where
  pub title : Option (Option (List ℕ))
  pub pass_threshold_percent : Option (Option ℕ)
  pub max_attempts : Option (Option ℕ)
  pub questions : Option (Option (List QuestionInput))

-- The new value of a number: the comparison of a null with a number raises a TypeError.
abbrev pub number_of : Option (Option ℕ) → ℕ → Result ℕ
number_of none old = ok old
number_of (some none) old = err crash
number_of (some (some new)) old = ok new

abbrev pub check_title : Option (Option (List ℕ)) → Result (Unit {0})
check_title none = ok tt
check_title (some none) = err test_template_invalid
check_title (some (some title)) = raise_if (is_blank title) test_template_invalid

-- The questions of the body, validated; `none` keeps those of the template.
unfoldable pub check_questions :
    Option (Option (List QuestionInput)) → ℕ → ℕ → Result (Option (List QuestionInput))
check_questions (some (some questions)) threshold max_attempts = do
  counts ← validate_template_payload threshold max_attempts questions
  ok (some questions)
check_questions _ threshold max_attempts = do
  raise_if (ltb 100 threshold) test_template_invalid
  raise_if (ltb max_attempts 1) test_template_invalid
  ok none

abbrev pub questions_or :
    (ℕ → ℕ)
    → (ℕ → ℕ → ℕ)
    → Option (List QuestionInput)
    → List TestQuestion
    → Result (List TestQuestion)
questions_or question_id option_id none old = ok old
questions_or question_id option_id (some questions) old =
    build_template_questions question_id option_id 0 questions

unfoldable pub save_template : TestTemplate → Tables → Tables
save_template r t = record t { templates = update (λ q. q.id == r.id) (λ _. r) t.templates }

unfoldable pub update_template :
    Tables → ℕ → ℕ → ℕ → TemplateFields → (ℕ → ℕ) → (ℕ → ℕ → ℕ) → ℕ → Result (Tables × TestTemplate)
update_template t org_id template_id requester_id fields question_id option_id now = do
  check_admin t.billing org_id requester_id now
  template ← get_template t org_id template_id
  raise_if template.is_deleted test_template_deleted
  threshold ← number_of fields.pass_threshold_percent template.pass_threshold_percent
  raise_if (ltb 100 threshold) test_template_invalid
  max_attempts ← number_of fields.max_attempts template.max_attempts
  questions_in ← check_questions fields.questions threshold max_attempts
  check_title fields.title
  questions ← questions_or question_id option_id questions_in template.questions
  let changed : TestTemplate = record template {
    pass_threshold_percent = threshold;
    max_attempts = max_attempts;
    questions = questions;
  }
  ok (save_template changed t, changed)

unfoldable pub delete_template : Tables → ℕ → ℕ → ℕ → ℕ → Result (Tables × TestTemplate)
delete_template t org_id template_id requester_id now = do
  check_admin t.billing org_id requester_id now
  template ← get_template t org_id template_id
  raise_if template.is_deleted test_template_not_found
  let changed = record template { is_deleted = true }
  ok (save_template changed t, changed)

unfoldable pub restore_template : Tables → ℕ → ℕ → ℕ → ℕ → Result (Tables × TestTemplate)
restore_template t org_id template_id requester_id now = do
  check_admin t.billing org_id requester_id now
  template ← get_template t org_id template_id
  raise_if (not template.is_deleted) test_template_not_deleted
  let changed = record template { is_deleted = false }
  ok (save_template changed t, changed)
