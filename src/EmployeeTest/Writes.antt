-- ===== src/EmployeeTest/Writes.antt =====
-- The tallies after each operation of src/app/services/employee_test.py.
use smenka_back.Prelude.{
  ℕ, ◌+◌, ◌≡◌, refl, sym, ap, ◌∙◌, Bool, true, false, not, Option, none, some, List, [], ◌∷◌, map,
  arith, ltb, leb, find, any, count, All, All-In, In, find-In, find-key, raise_if, crash,
  >>=-Ensures, Ensures, returns, ensured, or_raise-some, test_template_invalid,
  test_template_not_found, test_template_deleted, test_template_not_deleted, test_already_passed,
  test_attempts_exhausted, test_assignment_not_found, test_attempt_not_found, member_not_found,
}
use smenka_back.EmployeeTest.{
  TestAttemptQuestion, TestQuestion, TestAttempt, TestAssignment, TestTemplate, Tables,
  QuestionInput,
}
use smenka_back.EmployeeTest.Templates.{
  TemplateFields, is_blank, validate_template_payload, build_template_questions, check_admin,
  get_template, number_of, check_title, check_questions, questions_or, save_template,
  create_template, update_template, delete_template, restore_template,
}
use smenka_back.EmployeeTest.Attempts.{
  is_open_of, build_attempt_questions, points_of, new_attempt, open_or_new, get_my_assignment,
  template_of, save_assignment, start_attempt, assign_template, delete_assignment, unique_ids,
  get_org_assignment,
}
use smenka_back.EmployeeTest.Submission.{
  Answer, answered, percent_of, submitted, status_after, counted, save_attempt, get_my_attempt,
  assignment_of, grade_answers, submit_attempt,
}
use smenka_back.EmployeeTest.Grading.{Distinct}
use smenka_back.EmployeeTest.Graded.{
  last_answer, points_total, IsSnapshot, Graded, mark-ids, grade_answers-Graded,
}
use smenka_back.EmployeeTest.Tally.{has_id, is_passed, Tallied, start-Tallied, submit-Tallied}
use smenka_back.EmployeeTest.Roster.{Fresh, remove-Tallied, upsert_all-Tallied}

abbrev pub AllTallied : Tables → Type 0
AllTallied t = Tallied t.assignments t.attempts

abbrev pub AllDistinct : TestAttempt → Type 0
AllDistinct r = All (λ (q : TestAttemptQuestion). Distinct q.options) r.questions

copied-total :
    (f g : ℕ → ℕ) (questions : List TestQuestion)
    → points_total (build_attempt_questions f g questions) ≡ points_of questions
unfolding build_attempt_questions points_of
copied-total f g [] = refl
copied-total f g (q ∷ questions) = ap (λ k. q.points + k) (copied-total f g questions)

answered-total :
    (chosen : TestAttemptQuestion → List ℕ) (questions : List TestAttemptQuestion)
    → points_total (map (λ q. answered (chosen q) q) questions) ≡ points_total questions
answered-total chosen [] = refl
answered-total chosen (q ∷ questions) = ap (λ k. q.points + k) (answered-total chosen questions)

answered-Distinct :
    (chosen : TestAttemptQuestion → List ℕ) (questions : List TestAttemptQuestion)
    → All (λ (q : TestAttemptQuestion). Distinct q.options) questions
    → All
        (λ (q : TestAttemptQuestion). Distinct q.options)
        (map (λ q. answered (chosen q) q) questions)
answered-Distinct chosen [] h = tt
answered-Distinct chosen (q ∷ questions) h =
    (λ k. rw (mark-ids k (chosen q) q.options) (h.0 k), answered-Distinct chosen questions h.1)

find-none :
    (p : TestAttempt → Bool) (rows : List TestAttempt) → find p rows ≡ none → count p rows ≡ 0
find-none p [] h = refl
find-none p (r ∷ rows) h = ground (arith, find-none p rows)

opened-Tallied :
    (t : Tables) (a : TestAssignment) (template : TestTemplate) (f g : ℕ → ℕ) (attempt_id : ℕ)
    (existing : Option TestAttempt)
    → In a t.assignments
    → find (is_open_of a.id) t.attempts ≡ existing
    → count (has_id attempt_id) t.attempts ≡ 0
    → AllTallied t
    → let r =
        new_attempt t a template attempt_id (build_attempt_questions f g template.questions) in
      let result = open_or_new t a existing r in AllDistinct result.1 → AllTallied result.0
unfolding save_assignment
opened-Tallied t a template f g attempt_id (some existing) i e fresh x distinct = x
opened-Tallied t a template f g attempt_id none i e fresh x distinct =
    let r = new_attempt t a template attempt_id (build_attempt_questions f g template.questions) in
    start-Tallied t.assignments t.attempts a r i refl refl (find-none _ t.attempts e) fresh
      (record { max_is_total = sym (copied-total f g template.questions); distinct = distinct }) x

pub start_attempt-Tallied :
    (t : Tables) (user_id assignment_id : ℕ) (f g : ℕ → ℕ) (attempt_id : ℕ)
    → count (has_id attempt_id) t.attempts ≡ 0
    → AllTallied t
    → Ensures
        (λ (r : Tables × TestAttempt). AllDistinct r.1 → AllTallied r.0)
        (start_attempt t user_id assignment_id f g attempt_id)
unfolding start_attempt get_my_assignment
start_attempt-Tallied t user_id assignment_id f g attempt_id fresh x =
    >>=-Ensures (get_my_assignment t user_id assignment_id) _ λ a found.
      let i = find-In _ a t.assignments (or_raise-some _ a test_assignment_not_found found) in
      >>=-Ensures (template_of t a) _ λ template _.
        >>=-Ensures (raise_if template.is_deleted test_template_deleted) _ λ _ _.
          >>=-Ensures (raise_if a.passed test_already_passed) _ λ _ _.
            >>=-Ensures
              (raise_if (leb template.max_attempts a.attempts_used) test_attempts_exhausted) _
              λ _ _. returns _ (opened-Tallied t a template f g attempt_id _ i refl fresh x)

submitted-IsSnapshot :
    (r : TestAttempt) (answers : List Answer) (graded : List TestAttemptQuestion × ℕ)
    (percent now : ℕ)
    → IsSnapshot r
    → Graded r answers graded
    → IsSnapshot (submitted r graded.0 graded.1 percent now)
submitted-IsSnapshot r answers graded percent now x g =
    let chosen = λ (q : TestAttemptQuestion). last_answer answers q.id [] in
    record {
      max_is_total = rw g.marked (x.max_is_total ∙ sym (answered-total chosen r.questions));
      distinct = rw g.marked (answered-Distinct chosen r.questions x.distinct);
    }

after-passed : (b exhausted : Bool) → is_passed (status_after b exhausted) ≡ b
after-passed true exhausted = refl
after-passed false true = refl
after-passed false false = refl

pub submit_attempt-Tallied :
    (t : Tables) (user_id attempt_id : ℕ) (answers : List Answer) (now : ℕ)
    → AllTallied t
    → Ensures
        (λ (r : Tables × TestAttempt). AllTallied r.0)
        (submit_attempt t user_id attempt_id answers now)
unfolding submit_attempt get_my_attempt assignment_of save_assignment save_attempt
submit_attempt-Tallied t user_id attempt_id answers now x =
    >>=-Ensures (get_my_attempt t user_id attempt_id) _ λ r found.
      let e = or_raise-some _ r test_attempt_not_found found in
      let snapshot = All-In IsSnapshot x.snapshots (find-In _ r t.attempts e) in
      >>=-Ensures (grade_answers r answers) _ λ graded k.
        let g = ensured graded (grade_answers-Graded r answers snapshot) k in
        let percent = percent_of graded.1 r.max_score in
        let r' = submitted r graded.0 graded.1 percent now in
        >>=-Ensures (assignment_of t r) _ λ a owner.
          let own = or_raise-some _ a crash owner in
          >>=-Ensures (template_of t a) _ λ template _.
            let a' = counted a template r' now in
            returns _ (
              submit-Tallied t.attempts _ r r' e refl refl g.was_open refl (x.unique_ids r.id)
                t.assignments a a' (find-In _ a t.assignments own) refl
                (find-key (λ (b : TestAssignment). b.id) r.assignment_id a t.assignments own) refl
                refl (after-passed _ _)
                (submitted-IsSnapshot r answers graded percent now snapshot g) x)

pub assign_template-Tallied :
    (t : Tables) (org_id template_id requester_id : ℕ) (member_ids : List ℕ) (due_at : Option ℕ)
    (assignment_id : ℕ → ℕ) (now : ℕ)
    → Fresh t assignment_id (unique_ids member_ids)
    → AllTallied t
    → Ensures AllTallied
        (assign_template t org_id template_id requester_id member_ids due_at assignment_id now)
unfolding assign_template
assign_template-Tallied t org_id template_id requester_id member_ids due_at assignment_id now fresh
      x =
    >>=-Ensures (check_admin t.billing org_id requester_id now) _ λ _ _.
      >>=-Ensures (get_template t org_id template_id) _ λ template _.
        >>=-Ensures (raise_if template.is_deleted test_template_deleted) _ λ _ _.
          >>=-Ensures (raise_if (any _ (unique_ids member_ids)) member_not_found) _ λ _ _.
            returns _ (
              upsert_all-Tallied t template_id requester_id due_at assignment_id
                (unique_ids member_ids) fresh x)

pub delete_assignment-Tallied :
    (t : Tables) (org_id assignment_id requester_id now : ℕ)
    → AllTallied t
    → Ensures AllTallied (delete_assignment t org_id assignment_id requester_id now)
unfolding delete_assignment
delete_assignment-Tallied t org_id assignment_id requester_id now x =
    >>=-Ensures (check_admin t.billing org_id requester_id now) _ λ _ _.
      >>=-Ensures (get_org_assignment t org_id assignment_id) _
        λ a _. returns _ (remove-Tallied t a x)

-- The operations on templates leave the assignments and attempts.
abbrev pub Keeps : Tables → Tables × TestTemplate → Type 0
Keeps t r = AllTallied t → AllTallied r.0

pub create_template-Keeps :
    (t : Tables) (org_id requester_id : ℕ) (title : List ℕ) (threshold max_attempts : ℕ)
    (questions : List QuestionInput) (f : ℕ → ℕ) (g : ℕ → ℕ → ℕ) (template_id now : ℕ)
    → Ensures (Keeps t) (
        create_template t org_id requester_id title threshold max_attempts questions f g template_id
          now)
unfolding create_template
create_template-Keeps t org_id requester_id title threshold max_attempts questions f g template_id
      now =
    >>=-Ensures (check_admin t.billing org_id requester_id now) _ λ _ _.
      >>=-Ensures (raise_if (is_blank title) test_template_invalid) _ λ _ _.
        >>=-Ensures (validate_template_payload threshold max_attempts questions) _
          λ _ _. >>=-Ensures (build_template_questions f g 0 questions) _ λ _ _. returns _ (λ x. x)

pub update_template-Keeps :
    (t : Tables) (org_id template_id requester_id : ℕ) (fields : TemplateFields) (f : ℕ → ℕ)
    (g : ℕ → ℕ → ℕ) (now : ℕ)
    → Ensures (Keeps t) (update_template t org_id template_id requester_id fields f g now)
unfolding update_template save_template
update_template-Keeps t org_id template_id requester_id fields f g now =
    >>=-Ensures (check_admin t.billing org_id requester_id now) _ λ _ _.
      >>=-Ensures (get_template t org_id template_id) _ λ template _.
        >>=-Ensures (raise_if template.is_deleted test_template_deleted) _ λ _ _.
          >>=-Ensures (number_of fields.pass_threshold_percent template.pass_threshold_percent) _
            λ threshold _. >>=-Ensures (raise_if (ltb 100 threshold) test_template_invalid) _ λ _ _.
              >>=-Ensures (number_of fields.max_attempts template.max_attempts) _ λ most _.
                >>=-Ensures (check_questions fields.questions threshold most) _ λ given _.
                  >>=-Ensures (check_title fields.title) _ λ _ _.
                    >>=-Ensures (questions_or f g given template.questions) _
                      λ _ _. returns _ (λ x. x)

pub delete_template-Keeps :
    (t : Tables) (org_id template_id requester_id now : ℕ)
    → Ensures (Keeps t) (delete_template t org_id template_id requester_id now)
unfolding delete_template save_template
delete_template-Keeps t org_id template_id requester_id now =
    >>=-Ensures (check_admin t.billing org_id requester_id now) _ λ _ _.
      >>=-Ensures (get_template t org_id template_id) _ λ template _.
        >>=-Ensures (raise_if template.is_deleted test_template_not_found) _
          λ _ _. returns _ (λ x. x)

pub restore_template-Keeps :
    (t : Tables) (org_id template_id requester_id now : ℕ)
    → Ensures (Keeps t) (restore_template t org_id template_id requester_id now)
unfolding restore_template save_template
restore_template-Keeps t org_id template_id requester_id now =
    >>=-Ensures (check_admin t.billing org_id requester_id now) _ λ _ _.
      >>=-Ensures (get_template t org_id template_id) _ λ template _.
        >>=-Ensures (raise_if (not template.is_deleted) test_template_not_deleted) _
          λ _ _. returns _ (λ x. x)
