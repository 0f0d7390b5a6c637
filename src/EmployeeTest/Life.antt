-- ===== src/EmployeeTest/Life.antt =====
-- The life of the tests of employees: any sequence of the operations of
-- src/app/services/employee_test.py.
use smenka_back.Prelude.{ℕ, ◌≡◌, Option, List, ok, count, ensured}
use smenka_back.EmployeeTest.{TestAttempt, TestTemplate, Tables, QuestionInput}
use smenka_back.EmployeeTest.Templates.{
  TemplateFields, create_template, update_template, delete_template, restore_template,
}
use smenka_back.EmployeeTest.Attempts.{
  start_attempt, assign_template, delete_assignment, unique_ids,
}
use smenka_back.EmployeeTest.Submission.{Answer, submit_attempt}
use smenka_back.EmployeeTest.Tally.{has_id}
use smenka_back.EmployeeTest.Roster.{Fresh}
use smenka_back.EmployeeTest.Writes.{
  AllTallied, AllDistinct, start_attempt-Tallied, submit_attempt-Tallied, assign_template-Tallied,
  delete_assignment-Tallied, create_template-Keeps, update_template-Keeps, delete_template-Keeps,
  restore_template-Keeps,
}
use smenka_back.EmployeeTest.Valid.{
  AllValid, create_template-AllValid, update_template-AllValid, delete_template-AllValid,
  restore_template-AllValid,
}
use smenka_back.EmployeeTest.Points.{
  start_attempt-AllValid, submit_attempt-AllValid, assign_template-AllValid,
  delete_assignment-AllValid,
}

-- A step that succeeds; a failed one is rolled back. New rows have fresh ids.
pub data Step (t : Tables) : Tables → Type 0 where
  creates :
      (org_id requester_id : ℕ) (title : List ℕ) (threshold max_attempts : ℕ)
      (questions : List QuestionInput) (question_id : ℕ → ℕ) (option_id : ℕ → ℕ → ℕ)
      (template_id now : ℕ) (t' : Tables) (r : TestTemplate)
      → create_template t org_id requester_id title threshold max_attempts questions question_id
          option_id template_id now
        ≡ ok (t', r)
      → Step t t'
  updates :
      (org_id template_id requester_id : ℕ) (fields : TemplateFields) (question_id : ℕ → ℕ)
      (option_id : ℕ → ℕ → ℕ) (now : ℕ) (t' : Tables) (r : TestTemplate)
      → update_template t org_id template_id requester_id fields question_id option_id now
        ≡ ok (t', r)
      → Step t t'
  deletes :
      (org_id template_id requester_id now : ℕ) (t' : Tables) (r : TestTemplate)
      → delete_template t org_id template_id requester_id now ≡ ok (t', r)
      → Step t t'
  restores :
      (org_id template_id requester_id now : ℕ) (t' : Tables) (r : TestTemplate)
      → restore_template t org_id template_id requester_id now ≡ ok (t', r)
      → Step t t'
  assigns :
      (org_id template_id requester_id : ℕ) (member_ids : List ℕ) (due_at : Option ℕ)
      (assignment_id : ℕ → ℕ) (now : ℕ) (t' : Tables)
      → Fresh t assignment_id (unique_ids member_ids)
      → assign_template t org_id template_id requester_id member_ids due_at assignment_id now
        ≡ ok t'
      → Step t t'
  unassigns :
      (org_id assignment_id requester_id now : ℕ) (t' : Tables)
      → delete_assignment t org_id assignment_id requester_id now ≡ ok t'
      → Step t t'
  starts :
      (user_id assignment_id : ℕ) (attempt_question_id attempt_option_id : ℕ → ℕ) (attempt_id : ℕ)
      (t' : Tables) (r : TestAttempt)
      → count (has_id attempt_id) t.attempts ≡ 0
      → AllDistinct r
      → start_attempt t user_id assignment_id attempt_question_id attempt_option_id attempt_id
        ≡ ok (t', r)
      → Step t t'
  submits :
      (user_id attempt_id : ℕ) (answers : List Answer) (now : ℕ) (t' : Tables) (r : TestAttempt)
      → submit_attempt t user_id attempt_id answers now ≡ ok (t', r)
      → Step t t'

pub data Reach (t : Tables) : Tables → Type 0 where
  start : Reach t t
  next : {mid end : Tables} → Reach t mid → Step mid end → Reach t end

Step-Tallied : {t t' : Tables} → Step t t' → AllTallied t → AllTallied t'
Step-Tallied {t} (creates org by title least most questions f g k now t' r e) x =
    ensured (t', r) (create_template-Keeps t org by title least most questions f g k now) e x
Step-Tallied {t} (updates org k by fields f g now t' r e) x =
    ensured (t', r) (update_template-Keeps t org k by fields f g now) e x
Step-Tallied {t} (deletes org k by now t' r e) x =
    ensured (t', r) (delete_template-Keeps t org k by now) e x
Step-Tallied {t} (restores org k by now t' r e) x =
    ensured (t', r) (restore_template-Keeps t org k by now) e x
Step-Tallied {t} (assigns org k by members due_at id now t' fresh e) x =
    ensured t' (assign_template-Tallied t org k by members due_at id now fresh x) e
Step-Tallied {t} (unassigns org k by now t' e) x =
    ensured t' (delete_assignment-Tallied t org k by now x) e
Step-Tallied {t} (starts user k f g attempt_id t' r fresh distinct e) x =
    ensured (t', r) (start_attempt-Tallied t user k f g attempt_id fresh x) e distinct
Step-Tallied {t} (submits user k answers now t' r e) x =
    ensured (t', r) (submit_attempt-Tallied t user k answers now x) e

-- Over any sequence of operations on templates, assignments and attempts, from tables where it holds:
-- an assignment counts its submitted attempts, is passed exactly when one of them is, and has the
-- status `passed` exactly then; it has at most one open attempt; the maximum of an attempt is the sum
-- of its points; ids stay unique and no attempt is left without its assignment.
pub Reach-Tallied : {t t' : Tables} → Reach t t' → AllTallied t → AllTallied t'
Reach-Tallied start x = x
Reach-Tallied (next r s) x = Step-Tallied s (Reach-Tallied r x)

Step-AllValid : {t t' : Tables} → Step t t' → AllValid t → AllValid t'
Step-AllValid {t} (creates org by title least most questions f g k now t' r e) x =
    ensured (t', r) (create_template-AllValid t org by title least most questions f g k now x) e
Step-AllValid {t} (updates org k by fields f g now t' r e) x =
    ensured (t', r) (update_template-AllValid t org k by fields f g now x) e
Step-AllValid {t} (deletes org k by now t' r e) x =
    ensured (t', r) (delete_template-AllValid t org k by now x) e
Step-AllValid {t} (restores org k by now t' r e) x =
    ensured (t', r) (restore_template-AllValid t org k by now x) e
Step-AllValid {t} (assigns org k by members due_at id now t' fresh e) x =
    ensured t' (assign_template-AllValid t org k by members due_at id now x) e
Step-AllValid {t} (unassigns org k by now t' e) x =
    ensured t' (delete_assignment-AllValid t org k by now x) e
Step-AllValid {t} (starts user k f g attempt_id t' r fresh distinct e) x =
    ensured (t', r) (start_attempt-AllValid t user k f g attempt_id x) e
Step-AllValid {t} (submits user k answers now t' r e) x =
    ensured (t', r) (submit_attempt-AllValid t user k answers now x) e

-- Over any sequence of operations on templates, assignments and attempts, from tables where it holds:
-- every template has a threshold of at most 100, at least one attempt and one question, whose points
-- are at least 1 and which has two options at least, exactly one correct for a single choice and at
-- least one for a multiple choice; every attempt has at least one point to give and can be passed.
pub Reach-AllValid : {t t' : Tables} → Reach t t' → AllValid t → AllValid t'
Reach-AllValid start x = x
Reach-AllValid (next r s) x = Step-AllValid s (Reach-AllValid r x)
