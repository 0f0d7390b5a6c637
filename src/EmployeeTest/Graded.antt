-- ===== src/EmployeeTest/Graded.antt =====
-- The result of a submitted attempt, by `submit_attempt` of src/app/services/employee_test.py.
use smenka_back.Prelude.{
  ℕ, ◌+◌, ◌*◌, ◌≤◌, ◌≡◌, ◌↔◌, refl, ap, ◌∙◌, subst, Bool, true, false, not, ◌&&◌, Option, some,
  List, [], ◌∷◌, map, arith, leb, ◌==◌, if◌then◌else◌, inl, inr, any, count, All, All-In, In,
  find-In, find-passes, raise_if, crash, >>=-Ensures, Ensures, Ensures-mono, returns, ensured,
  allowed, not_raised, or_raise-some, validation_error, test_attempt_already_submitted,
  test_attempt_not_found,
}
use smenka_back.EmployeeTest.{
  TestAttemptStatus, TestAttemptOption, TestAttemptQuestion, TestAttempt, Tables,
}
use smenka_back.EmployeeTest.Attempts.{subset, template_of, is_open}
use smenka_back.EmployeeTest.Submission.{
  Answer, compute_awarded, collect_answers, chosen_of, answer_to, mark, answered, grade, percent_of,
  submitted, get_my_attempt, assignment_of, grade_answers, submit_attempt, is_taken_by,
}
use smenka_back.EmployeeTest.Grading.{Distinct, Score, compute_awarded_cases}
use smenka_back.EmployeeTest.Rounding.{IsNearest, percent_of-IsNearest, percent_le, percent_full}

-- What the last answer to a question chooses, else what was chosen before.
abbrev pub last_answer : List Answer → ℕ → List ℕ → List ℕ
last_answer [] question_id chosen = chosen
last_answer (answer ∷ answers) question_id chosen =
    last_answer answers question_id (if answer.0 == question_id then answer.1 else chosen)

abbrev pub points_total : List TestAttemptQuestion → ℕ
points_total [] = 0
points_total (q ∷ questions) = q.points + points_total questions

chosen_of-if :
    (b : Bool) (answer : Answer) (found : Option Answer)
    → chosen_of (if b then some answer else found) ≡ (if b then answer.1 else chosen_of found)
chosen_of-if true answer found = refl
chosen_of-if false answer found = refl

pub collect_answers-last :
    (questions : List TestAttemptQuestion) (answers collected : List Answer)
    → Ensures
        (λ (c : List Answer).
          (k : ℕ) → answer_to c k ≡ last_answer answers k (answer_to collected k))
        (collect_answers questions answers collected)
unfolding collect_answers answer_to
collect_answers-last questions [] collected = returns collected (λ k. refl)
collect_answers-last questions (answer ∷ answers) collected =
    >>=-Ensures (raise_if (not (any (λ q. q.id == answer.0) questions)) validation_error) _ λ _ _.
      Ensures-mono (collect_answers-last questions answers (answer ∷ collected))
        λ c h k. h k ∙ ap (last_answer answers k) (chosen_of-if (answer.0 == k) answer _)

pub mark-ids :
    (k : ℕ) (chosen : List ℕ) (options : List TestAttemptOption)
    → count (λ o. o.id == k) (mark chosen options) ≡ count (λ o. o.id == k) options
unfolding mark
mark-ids k chosen [] = refl
mark-ids k chosen (o ∷ options) = ground (arith, mark-ids k chosen options)

-- The score of the questions with the answers.
pub record Grades (collected : List Answer) (questions : List TestAttemptQuestion) (score : ℕ)
    (result : List TestAttemptQuestion × ℕ) : Type 0 where
  pub marked : result.0 ≡ map (λ q. answered (answer_to collected q.id) q) questions
  pub sum : ℕ
  pub scored : Score result.0 sum
  pub added : result.1 ≡ score + sum
  pub bounded : sum ≤ points_total questions

first_question :
    (collected : List Answer) (q : TestAttemptQuestion) (questions : List TestAttemptQuestion)
    (score : ℕ) (rest : List TestAttemptQuestion × ℕ)
    → Distinct q.options
    → Grades collected questions
        (score + compute_awarded (answered (answer_to collected q.id) q))
        rest
    → Grades collected
        (q ∷ questions)
        score
        (answered (answer_to collected q.id) q ∷ rest.0, rest.1)
first_question collected q questions score rest distinct x =
    let first = answered (answer_to collected q.id) q in
    let cases =
      compute_awarded_cases first
        (λ k. rw (mark-ids k (answer_to collected q.id) q.options) (distinct k)) in
    elim cases [
      | inl (right, full) ↦ record {
        marked = ap (λ rows. first ∷ rows) x.marked;
        sum = q.points + x.sum;
        scored = Score.right_one first rest.0 x.sum right x.scored;
        added = omega (arith, x.added, full);
        bounded = omega (arith, x.bounded);
      }
      | inr (wrong, zero_points) ↦ record {
        marked = ap (λ rows. first ∷ rows) x.marked;
        sum = x.sum;
        scored = Score.wrong_one first rest.0 x.sum wrong x.scored;
        added = omega (arith, x.added, zero_points);
        bounded = omega (arith, x.bounded);
      }
    ]

grade-Grades :
    (collected : List Answer) (questions : List TestAttemptQuestion) (score : ℕ)
    → All (λ (q : TestAttemptQuestion). Distinct q.options) questions
    → Ensures (Grades collected questions score) (grade collected questions score)
unfolding grade
grade-Grades collected [] score h = returns _ (record {
  marked = refl;
  sum = 0;
  scored = Score.no_questions;
  added = omega arith;
  bounded = omega arith;
})
grade-Grades collected (q ∷ questions) score h =
    >>=-Ensures
      (raise_if (not (subset (answer_to collected q.id) (map (λ o. o.id) q.options)))
        validation_error)
      _
      λ _ _. >>=-Ensures (grade collected questions _) _ λ rest e.
        let x = ensured rest (grade-Grades collected questions _ h.1) e in
        returns _ (first_question collected q questions score rest h.0 x)

-- What the attempt and its assignment are after a submission.
pub record Submitted (t : Tables) (user_id attempt_id : ℕ) (answers : List Answer) (now : ℕ)
    (result : Tables × TestAttempt) : Type 0 where
  pub before : TestAttempt
  pub stored : In before t.attempts
  pub own : before.id ≡ attempt_id
  pub taken : is_taken_by t user_id before ≡ true
  pub was_open : is_open before.status ≡ true
  pub is_done : result.1.status ≡ TestAttemptStatus.submitted
  pub dated : result.1.submitted_at ≡ some now
  pub marked :
      result.1.questions ≡ map (λ q. answered (last_answer answers q.id []) q) before.questions
  pub scored : Score result.1.questions result.1.score
  pub score_le : result.1.score ≤ before.max_score
  pub nearest : IsNearest (result.1.score * 100) before.max_score result.1.percent
  pub percent_bound : result.1.percent ≤ 100
  pub full : result.1.score ≡ before.max_score → result.1.percent ≡ 100
  pub by_threshold : (result.1.passed ≡ true) ↔ (before.pass_threshold_percent ≤ result.1.percent)

-- A stored attempt: its maximum is the sum of its points, and ids of options are a primary key.
pub record IsSnapshot (r : TestAttempt) : Type 0 where
  pub max_is_total : r.max_score ≡ points_total r.questions
  pub distinct : All (λ (q : TestAttemptQuestion). Distinct q.options) r.questions

-- The grades of an open attempt whose maximum is not zero.
pub record Graded (r : TestAttempt) (answers : List Answer) (graded : List TestAttemptQuestion × ℕ)
    : Type 0 where
  pub was_open : is_open r.status ≡ true
  pub marked : graded.0 ≡ map (λ q. answered (last_answer answers q.id []) q) r.questions
  pub scored : Score graded.0 graded.1
  pub score_le : graded.1 ≤ r.max_score
  pub some_points : 1 ≤ r.max_score

map-same {ℓ κ} :
    {A : Type ℓ} {B : Type κ} (f g : A → B) (rows : List A)
    → ((a : A) → f a ≡ g a)
    → map f rows ≡ map g rows
map-same f g [] h = refl
map-same f g (a ∷ rows) h = rw (h a, map-same f g rows h) refl

pub grade_answers-Graded :
    (r : TestAttempt) (answers : List Answer)
    → IsSnapshot r
    → Ensures (Graded r answers) (grade_answers r answers)
unfolding grade_answers answer_to
grade_answers-Graded r answers x =
    >>=-Ensures (raise_if (not (is_open r.status)) test_attempt_already_submitted) _ λ _ opened.
      >>=-Ensures (collect_answers r.questions answers []) _ λ collected c.
        >>=-Ensures (grade collected r.questions 0) _ λ graded e.
          >>=-Ensures (raise_if (r.max_score == 0) crash) _ λ _ positive.
            let last = ensured collected (collect_answers-last r.questions answers []) c in
            let g = ensured graded (grade-Grades collected r.questions 0 x.distinct) e in
            let added : graded.1 ≡ g.sum = omega (arith, g.added) in
            returns graded (record {
              was_open = allowed (is_open r.status) test_attempt_already_submitted opened;
              marked =
                  g.marked ∙ map-same _ _ r.questions (λ q. ap (λ ids. answered ids q) (last q.id));
              scored = rw added g.scored;
              score_le = omega (arith, added, g.bounded, x.max_is_total);
              some_points = let k = not_raised _ crash positive in ground arith;
            })

threshold_passed : (threshold percent : ℕ) → (leb threshold percent ≡ true) ↔ (threshold ≤ percent)
threshold_passed threshold percent = (λ h. ground arith, λ h. ground arith)

submitted-Submitted :
    (t t' : Tables) (user_id attempt_id : ℕ) (answers : List Answer) (now : ℕ) (r : TestAttempt)
    (graded : List TestAttemptQuestion × ℕ)
    → In r t.attempts
    → (r.id == attempt_id && is_taken_by t user_id r) ≡ true
    → Graded r answers graded
    → Submitted t user_id attempt_id answers now
        (t', submitted r graded.0 graded.1 (percent_of graded.1 r.max_score) now)
submitted-Submitted t t' user_id attempt_id answers now r graded i own g =
    let near = percent_of-IsNearest graded.1 r.max_score g.some_points in
    let percent = percent_of graded.1 r.max_score in
    let bound = percent_le graded.1 r.max_score percent g.some_points g.score_le near in
    record {
      before = r;
      stored = i;
      own = ground arith;
      taken = ground arith;
      was_open = g.was_open;
      is_done = refl;
      dated = refl;
      marked = g.marked;
      scored = g.scored;
      score_le = g.score_le;
      nearest = near;
      percent_bound = bound;
      full = λ all.
          let n : IsNearest (r.max_score * 100) r.max_score percent =
            subst (λ k. IsNearest (k * 100) r.max_score percent) all near in
          omega (arith, percent_full r.max_score percent g.some_points n, bound);
      by_threshold = threshold_passed r.pass_threshold_percent percent;
    }

-- A submission that succeeds is of an open attempt, whose answers count as the last one to each
-- question says; a question gives its points when all its correct options and no others are chosen,
-- and none otherwise. The score is at most the maximum, the percentage is the nearest whole number, at
-- most 100 and 100 for the maximum, and the attempt is passed when it reaches the threshold.
pub submit_attempt-Submitted :
    (t : Tables) (user_id attempt_id : ℕ) (answers : List Answer) (now : ℕ)
    → All IsSnapshot t.attempts
    → Ensures
        (Submitted t user_id attempt_id answers now)
        (submit_attempt t user_id attempt_id answers now)
unfolding submit_attempt get_my_attempt
submit_attempt-Submitted t user_id attempt_id answers now h =
    >>=-Ensures (get_my_attempt t user_id attempt_id) _ λ r found.
      let e = or_raise-some _ r test_attempt_not_found found in
      let i = find-In _ r t.attempts e in
      >>=-Ensures (grade_answers r answers) _ λ graded k.
        let g = ensured graded (grade_answers-Graded r answers (All-In IsSnapshot h i)) k in
        >>=-Ensures (assignment_of t r) _ λ a _. >>=-Ensures (template_of t a) _ λ template _.
          returns _ (
            submitted-Submitted t _ user_id attempt_id answers now r graded i
              (find-passes _ r t.attempts e) g)
