-- ===== src/EmployeeTest/Points.antt =====
-- The attempts stay valid when assignments are given and attempts are taken, in the operations of
-- src/app/services/employee_test.py.
use smenka_back.Prelude.{
  ℕ, ◌≤◌, Option, none, some, List, [], ◌∷◌, arith, leb, ◌==◌, length, find, any, All, All-append,
  All-update, All-select, All-In, find-In, raise_if, >>=-Ensures, Ensures, returns, or_raise-some,
  crash, test_template_deleted, test_already_passed, test_attempts_exhausted,
  test_attempt_not_found, member_not_found,
}
use smenka_back.EmployeeTest.{
  TestQuestion, TestAttemptQuestion, TestAttempt, TestAssignment, TestTemplate, Tables,
}
use smenka_back.EmployeeTest.Templates.{check_admin, get_template}
use smenka_back.EmployeeTest.Attempts.{
  is_open_of, is_assigned, build_attempt_questions, points_of, new_attempt, open_or_new, upsert,
  upsert_all, get_my_assignment, template_of, save_assignment, start_attempt, assign_template,
  delete_assignment, remove_assignment, unique_ids, get_org_assignment,
}
use smenka_back.EmployeeTest.Submission.{
  Answer, percent_of, submitted, save_attempt, get_my_attempt, assignment_of, grade_answers,
  submit_attempt,
}
use smenka_back.EmployeeTest.Payload.{ValidQuestion}
use smenka_back.EmployeeTest.Valid.{ValidTemplate, HasPoints, AllValid}

points_in :
    (questions : List TestQuestion)
    → 1 ≤ length questions
    → All ValidQuestion questions
    → 1 ≤ points_of questions
unfolding points_of
points_in [] h v = absurd (omega arith)
points_in (q ∷ questions) h v = let k = v.0.points_in in omega arith

opened-AllValid :
    (t : Tables) (a : TestAssignment) (template : TestTemplate) (existing : Option TestAttempt)
    (attempt_id : ℕ) (questions : List TestAttemptQuestion)
    → ValidTemplate template
    → AllValid t
    → AllValid (open_or_new t a existing (new_attempt t a template attempt_id questions)).0
unfolding save_assignment
opened-AllValid t a template (some existing) attempt_id questions v x = x
opened-AllValid t a template none attempt_id questions v x = record {
  templates_in = x.templates_in;
  attempts_in = All-append HasPoints t.attempts _ x.attempts_in (
    record {
      some_points = points_in template.questions v.questions_in v.each;
      in_reach = v.threshold_in;
    },
    tt,
  );
}

pub start_attempt-AllValid :
    (t : Tables) (user_id assignment_id : ℕ) (f g : ℕ → ℕ) (attempt_id : ℕ)
    → AllValid t
    → Ensures
        (λ (r : Tables × TestAttempt). AllValid r.0)
        (start_attempt t user_id assignment_id f g attempt_id)
unfolding start_attempt template_of
start_attempt-AllValid t user_id assignment_id f g attempt_id x =
    >>=-Ensures (get_my_assignment t user_id assignment_id) _ λ a _.
      >>=-Ensures (template_of t a) _ λ template found.
        let i = find-In _ template t.templates (or_raise-some _ template crash found) in
        let v = All-In ValidTemplate x.templates_in i in
        >>=-Ensures (raise_if template.is_deleted test_template_deleted) _ λ _ _.
          >>=-Ensures (raise_if a.passed test_already_passed) _ λ _ _.
            >>=-Ensures
              (raise_if (leb template.max_attempts a.attempts_used) test_attempts_exhausted) _
              λ _ _. returns _ (
                opened-AllValid t a template (find (is_open_of a.id) t.attempts) attempt_id
                  (build_attempt_questions f g template.questions) v x)

pub submit_attempt-AllValid :
    (t : Tables) (user_id attempt_id : ℕ) (answers : List Answer) (now : ℕ)
    → AllValid t
    → Ensures
        (λ (r : Tables × TestAttempt). AllValid r.0)
        (submit_attempt t user_id attempt_id answers now)
unfolding submit_attempt get_my_attempt save_assignment save_attempt
submit_attempt-AllValid t user_id attempt_id answers now x =
    >>=-Ensures (get_my_attempt t user_id attempt_id) _ λ r found.
      let i = find-In _ r t.attempts (or_raise-some _ r test_attempt_not_found found) in
      let old = All-In HasPoints x.attempts_in i in
      >>=-Ensures (grade_answers r answers) _ λ graded _.
        let percent = percent_of graded.1 r.max_score in
        let r' = submitted r graded.0 graded.1 percent now in
        >>=-Ensures (assignment_of t r) _ λ a _. >>=-Ensures (template_of t a) _ λ template _.
          returns _ (record {
            templates_in = x.templates_in;
            attempts_in =
                All-update HasPoints (λ q. q.id == r.id) r' t.attempts x.attempts_in
                  (record { some_points = old.some_points; in_reach = old.in_reach });
          })

upsert-AllValid :
    (t : Tables) (template_id member_id requester_id : ℕ) (due_at : Option ℕ) (assignment_id : ℕ)
    (existing : Option TestAssignment)
    → AllValid t
    → AllValid (upsert t template_id member_id requester_id due_at assignment_id existing).0
unfolding save_assignment
upsert-AllValid t template_id member_id requester_id due_at assignment_id (some a) x = record {
  templates_in = x.templates_in;
  attempts_in = x.attempts_in;
}
upsert-AllValid t template_id member_id requester_id due_at assignment_id none x = record {
  templates_in = x.templates_in;
  attempts_in = x.attempts_in;
}

upsert_all-AllValid :
    (t : Tables) (template_id requester_id : ℕ) (due_at : Option ℕ) (assignment_id : ℕ → ℕ)
    (members : List ℕ)
    → AllValid t
    → AllValid (upsert_all t template_id requester_id due_at assignment_id members)
unfolding upsert_all
upsert_all-AllValid t template_id requester_id due_at assignment_id [] x = x
upsert_all-AllValid t template_id requester_id due_at assignment_id (m ∷ members) x =
    let existing = find (is_assigned template_id m) t.assignments in
    upsert_all-AllValid (upsert t template_id m requester_id due_at (assignment_id m) existing).0
      template_id requester_id due_at assignment_id members
      (upsert-AllValid t template_id m requester_id due_at (assignment_id m) existing x)

pub assign_template-AllValid :
    (t : Tables) (org_id template_id requester_id : ℕ) (member_ids : List ℕ) (due_at : Option ℕ)
    (assignment_id : ℕ → ℕ) (now : ℕ)
    → AllValid t
    → Ensures AllValid
        (assign_template t org_id template_id requester_id member_ids due_at assignment_id now)
unfolding assign_template
assign_template-AllValid t org_id template_id requester_id member_ids due_at assignment_id now x =
    >>=-Ensures (check_admin t.billing org_id requester_id now) _ λ _ _.
      >>=-Ensures (get_template t org_id template_id) _ λ template _.
        >>=-Ensures (raise_if template.is_deleted test_template_deleted) _ λ _ _.
          >>=-Ensures (raise_if (any _ (unique_ids member_ids)) member_not_found) _ λ _ _.
            returns _ (
              upsert_all-AllValid t template_id requester_id due_at assignment_id
                (unique_ids member_ids) x)

pub delete_assignment-AllValid :
    (t : Tables) (org_id assignment_id requester_id now : ℕ)
    → AllValid t
    → Ensures AllValid (delete_assignment t org_id assignment_id requester_id now)
unfolding delete_assignment remove_assignment
delete_assignment-AllValid t org_id assignment_id requester_id now x =
    >>=-Ensures (check_admin t.billing org_id requester_id now) _ λ _ _.
      >>=-Ensures (get_org_assignment t org_id assignment_id) _ λ a _. returns _ (record {
        templates_in = x.templates_in;
        attempts_in = All-select HasPoints _ t.attempts x.attempts_in;
      })
