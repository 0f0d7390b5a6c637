-- ===== src/Tests/EmployeeTest.antt =====
-- Tests of employees at concrete inputs.
use smenka_back.Prelude.{
  ◌+◌, ◌≡◌, refl, true, false, none, some, List, [], ◌∷◌, ok, arith, Ensures, In, here, there,
}
use smenka_back.EmployeeTest.{
  TestQuestionType, TestAssignmentStatus, TestAttemptStatus, TestQuestion, TestTemplate,
  TestAssignment, TestAttempt, Tables,
}
use smenka_back.EmployeeTest.Attempts.{
  save_assignment, get_my_assignment, template_of, build_attempt_options, build_attempt_questions,
  points_of, max_number, start_attempt,
}
use smenka_back.EmployeeTest.Submission.{
  Answer, ids_where, compute_awarded, collect_answers, answer_to, mark, grade, round_half_even,
  doublings, float_percent, percent_of, grade_answers, get_my_attempt, save_attempt, assignment_of,
  submit_attempt,
}
use smenka_back.EmployeeTest.Graded.{Submitted, submit_attempt-Submitted}
use smenka_back.EmployeeTest.Writes.{AllTallied}
use smenka_back.EmployeeTest.Payload.{RightNumber}
use smenka_back.EmployeeTest.Valid.{AllValid}
use smenka_back.EmployeeTest.Completion.{submit_attempt_total}
use smenka_back.EmployeeTest.Life.{starts, submits, start, next, Reach-Tallied, Reach-AllValid}
use smenka_back.Tests.Fixtures.{db}

abbrev colours : TestQuestion
colours = record {
  id = 1;
  text = 63 ∷ [];
  type = TestQuestionType.multiple_choice;
  points = 2;
  position = 0;
  options =
      record { id = 1; text = 97 ∷ []; is_correct = true; position = 0 }
      ∷ record { id = 2; text = 98 ∷ []; is_correct = true; position = 1 }
      ∷ record { id = 3; text = 99 ∷ []; is_correct = false; position = 2 }
      ∷ [];
}

abbrev numbers : TestQuestion
numbers = record {
  id = 2;
  text = 63 ∷ [];
  type = TestQuestionType.single_choice;
  points = 1;
  position = 1;
  options =
      record { id = 4; text = 49 ∷ []; is_correct = false; position = 0 }
      ∷ record { id = 5; text = 50 ∷ []; is_correct = true; position = 1 }
      ∷ [];
}

abbrev quiz : TestTemplate
quiz = record {
  id = 60;
  organization_id = 1;
  pass_threshold_percent = 60;
  max_attempts = 2;
  is_deleted = false;
  questions = colours ∷ numbers ∷ [];
}

abbrev given : TestAssignment
given = record {
  id = 61;
  template_id = 60;
  member_id = 5;
  assigned_by_user_id = some 10;
  due_at = none;
  status = TestAssignmentStatus.assigned;
  attempts_used = 0;
  best_percent = none;
  passed = false;
  last_attempt_at = none;
}

abbrev school : Tables
school = record { billing = db; templates = quiz ∷ []; assignments = given ∷ []; attempts = [] }

abbrev taken : TestAttempt
taken = record {
  id = 62;
  assignment_id = 61;
  attempt_number = 1;
  status = TestAttemptStatus.in_progress;
  score = 0;
  max_score = 3;
  percent = 0;
  passed = false;
  pass_threshold_percent = 60;
  submitted_at = none;
  questions =
      record {
        id = 11;
        points = 2;
        options =
            record { id = 21; is_correct = true; is_selected = false }
            ∷ record { id = 22; is_correct = true; is_selected = false }
            ∷ record { id = 23; is_correct = false; is_selected = false }
            ∷ [];
      }
      ∷ record {
        id = 12;
        points = 1;
        options =
            record { id = 24; is_correct = false; is_selected = false }
            ∷ record { id = 25; is_correct = true; is_selected = false }
            ∷ [];
      }
      ∷ [];
}

abbrev in_exam : Tables
in_exam = record school {
  assignments = record given { status = TestAssignmentStatus.in_progress } ∷ [];
  attempts = taken ∷ [];
}

start_runs : start_attempt school 11 61 (λ k. k + 10) (λ k. k + 20) 62 ≡ ok (in_exam, taken)
unfolding start_attempt get_my_assignment template_of build_attempt_questions build_attempt_options
    points_of max_number save_assignment
start_runs = refl

-- The first question is answered twice, the last answer with both correct options; the second is wrong.
abbrev answers_given : List Answer
answers_given = (11, 23 ∷ []) ∷ (12, 24 ∷ []) ∷ (11, 22 ∷ 21 ∷ []) ∷ []

abbrev done : TestAttempt
done = record taken {
  status = TestAttemptStatus.submitted;
  score = 2;
  percent = 67;
  passed = true;
  submitted_at = some 9;
  questions =
      record {
        id = 11;
        points = 2;
        options =
            record { id = 21; is_correct = true; is_selected = true }
            ∷ record { id = 22; is_correct = true; is_selected = true }
            ∷ record { id = 23; is_correct = false; is_selected = false }
            ∷ [];
      }
      ∷ record {
        id = 12;
        points = 1;
        options =
            record { id = 24; is_correct = false; is_selected = true }
            ∷ record { id = 25; is_correct = true; is_selected = false }
            ∷ [];
      }
      ∷ [];
}

abbrev after_exam : Tables
after_exam = record school {
  assignments =
      record given {
        status = TestAssignmentStatus.passed;
        attempts_used = 1;
        best_percent = some 67;
        passed = true;
        last_attempt_at = some 9;
      }
      ∷ [];
  attempts = done ∷ [];
}

submit_runs : submit_attempt in_exam 11 62 answers_given 9 ≡ ok (after_exam, done)
unfolding submit_attempt get_my_attempt grade_answers collect_answers answer_to grade mark ids_where
    compute_awarded percent_of assignment_of template_of save_assignment save_attempt
submit_runs = refl

-- Exact halves, 57.5 and 54.5, that floats round down and up.
half_down : percent_of 23 40 ≡ 57
unfolding percent_of float_percent doublings round_half_even
half_down = refl

half_up : percent_of 109 200 ≡ 55
unfolding percent_of float_percent doublings round_half_even
half_up = refl

submit_attempt-Submitted_example :
    Ensures (Submitted in_exam 11 62 answers_given 9) (submit_attempt in_exam 11 62 answers_given 9)
submit_attempt-Submitted_example =
    submit_attempt-Submitted in_exam 11 62 answers_given 9
      (record { max_is_total = refl; distinct = (λ k. ground arith, (λ k. ground arith, tt)) }, tt)

school-AllTallied : AllTallied school
school-AllTallied = record {
  unique_ids = λ k. ground arith;
  unique_assignments = λ k. ground arith;
  one_open = λ k. ground arith;
  referenced = λ k h. refl;
  fits = (record { used = refl; any_passed = refl; in_status = refl }, tt);
  snapshots = tt;
}

Reach-Tallied_example : AllTallied after_exam
Reach-Tallied_example =
    Reach-Tallied
      (next
        (next start (
          starts 11 61 (λ k. k + 10) (λ k. k + 20) 62 in_exam taken refl
            (λ k. ground arith, (λ k. ground arith, tt)) start_runs))
        (submits 11 62 answers_given 9 after_exam done submit_runs))
      school-AllTallied

school-AllValid : AllValid school
school-AllValid = record {
  templates_in = (
    record {
      threshold_in = omega arith;
      attempts_in = omega arith;
      questions_in = omega arith;
      each = (
        record {
          points_in = omega arith;
          options_in = omega arith;
          correct_in = RightNumber.some_one 2 (omega arith);
        },
        (
          record {
            points_in = omega arith;
            options_in = omega arith;
            correct_in = RightNumber.just_one;
          },
          tt,
        ),
      );
    },
    tt,
  );
  attempts_in = tt;
}

Reach-AllValid_example : AllValid after_exam
Reach-AllValid_example =
    Reach-AllValid
      (next
        (next start (
          starts 11 61 (λ k. k + 10) (λ k. k + 20) 62 in_exam taken refl
            (λ k. ground arith, (λ k. ground arith, tt)) start_runs))
        (submits 11 62 answers_given 9 after_exam done submit_runs))
      school-AllValid

exam-AllValid : AllValid in_exam
exam-AllValid = record {
  templates_in = school-AllValid.templates_in;
  attempts_in = (record { some_points = omega arith; in_reach = omega arith }, tt);
}

exam_templates :
    (a : TestAssignment)
    → In a in_exam.assignments
    → (template : TestTemplate) × (template_of in_exam a ≡ ok template)
unfolding template_of
exam_templates a (here rows) = (quiz, refl)
exam_templates a (there b i) = elim i [ ]

taken_found : get_my_attempt in_exam 11 62 ≡ ok taken
unfolding get_my_attempt
taken_found = refl

submit_attempt_total_example :
    (result : Tables × TestAttempt) × (submit_attempt in_exam 11 62 answers_given 9 ≡ ok result)
submit_attempt_total_example =
    submit_attempt_total in_exam 11 62 answers_given 9 taken exam-AllValid exam_templates
      taken_found refl (record { asked = (refl, (refl, (refl, tt))); offered = (refl, (refl, tt)) })
