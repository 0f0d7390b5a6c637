-- ===== src/EmployeeTest/Completion.antt =====
-- An open attempt can be submitted: `submit_attempt` of src/app/services/employee_test.py.
use smenka_back.Prelude.{
  ℕ, ◌+◌, ◌≡◌, refl, sym, subst, Bool, true, false, some, List, [], ◌∷◌, map, arith, ◌==◌, find,
  any, All, All-In, In, find-In, find-passes, All-mono, ◌&&◌, Bool-cases, inl, inr, ok, ensured,
  or_raise-some, test_attempt_not_found,
}
use smenka_back.EmployeeTest.{
  TestAttemptQuestion, TestAttempt, TestAssignment, TestTemplate, Tables,
}
use smenka_back.EmployeeTest.Attempts.{is_own, subset, is_open, template_of, save_assignment}
use smenka_back.EmployeeTest.Submission.{
  Answer, compute_awarded, collect_answers, answer_to, answered, grade, percent_of, submitted,
  counted, save_attempt, get_my_attempt, assignment_of, grade_answers, submit_attempt,
}
use smenka_back.EmployeeTest.Graded.{last_answer, collect_answers-last}
use smenka_back.EmployeeTest.Valid.{HasPoints, AllValid}

-- The answers name questions of the attempt, and choose options of them.
pub record Answerable (r : TestAttempt) (answers : List Answer) : Type 0 where
  pub asked : All (λ (answer : Answer). any (λ q. q.id == answer.0) r.questions ≡ true) answers
  pub offered :
      All
        (λ (q : TestAttemptQuestion).
          subset (last_answer answers q.id []) (map (λ o. o.id) q.options) ≡ true)
        r.questions

collected :
    (questions : List TestAttemptQuestion) (answers before : List Answer)
    → All (λ (answer : Answer). any (λ q. q.id == answer.0) questions ≡ true) answers
    → (c : List Answer) × (collect_answers questions answers before ≡ ok c)
unfolding collect_answers
collected questions [] before h = (before, refl)
collected questions (answer ∷ answers) before h =
    let rest = collected questions answers (answer ∷ before) h.1 in (rest.0, rw h.0 rest.1)

gradable_questions :
    (c : List Answer) (questions : List TestAttemptQuestion) (score : ℕ)
    → All
        (λ (q : TestAttemptQuestion). subset (answer_to c q.id) (map (λ o. o.id) q.options) ≡ true)
        questions
    → (result : List TestAttemptQuestion × ℕ) × (grade c questions score ≡ ok result)
unfolding grade
gradable_questions c [] score h = (([], score), refl)
gradable_questions c (q ∷ questions) score h =
    let first = answered (answer_to c q.id) q in
    let rest = gradable_questions c questions (score + compute_awarded first) h.1 in
    ((first ∷ rest.0.0, rest.0.1), rw (h.0, rest.1) refl)

any-find :
    (p q : TestAssignment → Bool) (rows : List TestAssignment)
    → ((a : TestAssignment) → q a ≡ true → p a ≡ true)
    → any q rows ≡ true
    → (a : TestAssignment) × (find p rows ≡ some a)
any-find p q [] h e = cc
any-find p q (a ∷ rows) h e = elim (Bool-cases (p a)) [
  | inl hit ↦ (a, rw hit refl)
  | inr miss ↦ let rest = any-find p q rows h (ground (arith, h a)) in (rest.0, rw miss rest.1)
]

taken-assignment :
    (t : Tables) (user_id attempt_id : ℕ) (r : TestAttempt)
    → get_my_attempt t user_id attempt_id ≡ ok r
    → (a : TestAssignment) × (find (λ b. b.id == r.assignment_id) t.assignments ≡ some a)
unfolding get_my_attempt
taken-assignment t user_id attempt_id r e =
    let own = find-passes _ r t.attempts (or_raise-some _ r test_attempt_not_found e) in
    any-find _ (λ a. a.id == r.assignment_id && is_own t user_id a) t.assignments
      (λ a h. ground arith) (ground arith)

gradable :
    (r : TestAttempt) (answers : List Answer)
    → is_open r.status ≡ true
    → HasPoints r
    → Answerable r answers
    → (result : List TestAttemptQuestion × ℕ) × (grade_answers r answers ≡ ok result)
unfolding grade_answers answer_to
gradable r answers opened points x =
    let c = collected r.questions answers [] x.asked in
    let last = ensured c.0 (collect_answers-last r.questions answers []) c.1 in
    let g = gradable_questions c.0 r.questions 0 (
      All-mono _ _
        (λ q h. subst (λ ids. subset ids (map (λ o. o.id) q.options) ≡ true) (sym (last q.id)) h)
        r.questions x.offered) in
    let some_points : (r.max_score == 0) ≡ false = let k = points.some_points in ground arith in
    (g.0, rw (opened, c.1, g.1, some_points) refl)

found_attempt :
    (t : Tables) (user_id attempt_id : ℕ) (r : TestAttempt)
    → get_my_attempt t user_id attempt_id ≡ ok r
    → In r t.attempts
unfolding get_my_attempt
found_attempt t user_id attempt_id r e =
    find-In _ r t.attempts (or_raise-some _ r test_attempt_not_found e)

-- An open attempt of the user can be submitted with any answers that name its questions and their
-- options, the empty ones too: no valid table leaves it without points to divide by. The template of
-- each assignment is there, by the foreign key.
pub submit_attempt_total :
    (t : Tables) (user_id attempt_id : ℕ) (answers : List Answer) (now : ℕ) (r : TestAttempt)
    → AllValid t
    → ((a : TestAssignment)
        → In a t.assignments
        → (template : TestTemplate) × (template_of t a ≡ ok template))
    → get_my_attempt t user_id attempt_id ≡ ok r
    → is_open r.status ≡ true
    → Answerable r answers
    → (result : Tables × TestAttempt) × (submit_attempt t user_id attempt_id answers now
        ≡ ok result)
unfolding submit_attempt assignment_of
submit_attempt_total t user_id attempt_id answers now r x kept found opened able =
    let stored = found_attempt t user_id attempt_id r found in
    let g = gradable r answers opened (All-In HasPoints x.attempts_in stored) able in
    let a = taken-assignment t user_id attempt_id r found in
    let template = kept a.0 (find-In _ a.0 t.assignments a.1) in
    let percent = percent_of g.0.1 r.max_score in
    let r' = submitted r g.0.0 g.0.1 percent now in
    (
      (save_assignment (counted a.0 template.0 r' now) (save_attempt r' t), r'),
      rw (found, g.1, a.1, template.1) refl,
    )
