-- ===== src/EmployeeTest/Payload.antt =====
-- What `validate_template_payload` of src/app/services/employee_test.py lets through.
use smenka_back.Prelude.{
  ℕ, ◌+◌, ◌≤◌, ◌≡◌, refl, sym, ◌∙◌, subst, false, some, List, [], ◌∷◌, arith, ltb, ◌==◌, length,
  count, All, raise_if, or_raise, >>=-Ensures, Ensures, Ensures-mono, raise_if-Ensures,
  some-injective, returns, ensured, not_raised, or_raise-some, crash, test_template_invalid,
}
use smenka_back.EmployeeTest.{TestQuestionType, TestQuestion, QuestionOptionInput, QuestionInput}
use smenka_back.EmployeeTest.Templates.{
  is_blank, wrong_count, correct_count, validate_question, validate_questions,
  validate_template_payload, build_options, build_template_questions,
}

-- The number of correct options that a type of question asks for.
pub data RightNumber : TestQuestionType → ℕ → Type 0 where
  just_one : RightNumber TestQuestionType.single_choice 1
  some_one : (k : ℕ) → 1 ≤ k → RightNumber TestQuestionType.multiple_choice k

pub record ValidInput (q : QuestionInput) : Type 0 where
  pub q_type : TestQuestionType
  pub is_type : q.type ≡ some q_type
  pub points_in : 1 ≤ q.points
  pub options_in : 2 ≤ length q.options
  pub correct_in : RightNumber q_type (count (λ o. o.is_correct) q.options)

-- A stored question that can be answered right, for a point at least.
pub record ValidQuestion (q : TestQuestion) : Type 0 where
  pub points_in : 1 ≤ q.points
  pub options_in : 2 ≤ length q.options
  pub correct_in : RightNumber q.type (count (λ o. o.is_correct) q.options)

correct_count-count :
    (options : List QuestionOptionInput)
    → Ensures (λ (k : ℕ). k ≡ count (λ o. o.is_correct) options) (correct_count options)
unfolding correct_count
correct_count-count [] = returns 0 refl
correct_count-count (opt ∷ options) =
    >>=-Ensures (raise_if (is_blank opt.text) test_template_invalid) _ λ _ _.
      >>=-Ensures (correct_count options) _ λ k e.
        let same = ensured k (correct_count-count options) e in returns _ (ground (arith, same))

right_number :
    (q_type : TestQuestionType) (k : ℕ) → wrong_count q_type k ≡ false → RightNumber q_type k
right_number TestQuestionType.single_choice k h =
    let one : k ≡ 1 = ground arith in subst (RightNumber _) (sym one) RightNumber.just_one
right_number TestQuestionType.multiple_choice k h = RightNumber.some_one k (ground arith)

validate_question-ValidInput :
    (q : QuestionInput) → Ensures (λ _. ValidInput q) (validate_question q)
unfolding validate_question
validate_question-ValidInput q =
    >>=-Ensures (raise_if (is_blank q.text) test_template_invalid) _ λ _ _.
      >>=-Ensures (or_raise q.type test_template_invalid) _ λ q_type known.
        >>=-Ensures (raise_if (ltb q.points 1) test_template_invalid) _ λ _ some_points.
          >>=-Ensures (raise_if (ltb (length q.options) 2) test_template_invalid) _ λ _ two.
            >>=-Ensures (correct_count q.options) _ λ k e.
              let same = ensured k (correct_count-count q.options) e in
              raise_if-Ensures (wrong_count q_type k) test_template_invalid λ right. record {
                q_type = q_type;
                is_type = or_raise-some q.type q_type test_template_invalid known;
                points_in = ground (arith, not_raised _ _ some_points);
                options_in = ground (arith, not_raised _ _ two);
                correct_in = subst (RightNumber q_type) same (right_number q_type k right);
              }

validate_questions-ValidInput :
    (questions : List QuestionInput) (total_points : ℕ)
    → Ensures (λ _. All ValidInput questions) (validate_questions questions total_points)
unfolding validate_questions
validate_questions-ValidInput [] total_points = returns _ tt
validate_questions-ValidInput (q ∷ questions) total_points =
    >>=-Ensures (validate_question q) _ λ checked e.
      let first = ensured checked (validate_question-ValidInput q) e in
      Ensures-mono (validate_questions-ValidInput questions (total_points + q.points))
        (λ k rest. (first, rest))

pub validate_template_payload-ValidInput :
    (threshold max_attempts : ℕ) (questions : List QuestionInput)
    → Ensures
        (λ _.
          (threshold ≤ 100)
          × (1 ≤ max_attempts)
          × (1 ≤ length questions)
          × All ValidInput questions)
        (validate_template_payload threshold max_attempts questions)
unfolding validate_template_payload
validate_template_payload-ValidInput threshold max_attempts questions =
    >>=-Ensures (raise_if (ltb 100 threshold) test_template_invalid) _ λ _ low.
      >>=-Ensures (raise_if (ltb max_attempts 1) test_template_invalid) _ λ _ tries.
        >>=-Ensures (raise_if (length questions == 0) test_template_invalid) _ λ _ some_question.
          >>=-Ensures (validate_questions questions 0) _ λ total e. returns _ (
            ground (arith, not_raised _ _ low),
            ground (arith, not_raised _ _ tries),
            ground (arith, not_raised _ _ some_question),
            ensured total (validate_questions-ValidInput questions 0) e,
          )

options-length :
    (option_id : ℕ → ℕ) (oidx : ℕ) (options : List QuestionOptionInput)
    → length (build_options option_id oidx options) ≡ length options
unfolding build_options
options-length option_id oidx [] = refl
options-length option_id oidx (o ∷ options) =
    ground (arith, options-length option_id (oidx + 1) options)

options-count :
    (option_id : ℕ → ℕ) (oidx : ℕ) (options : List QuestionOptionInput)
    → count (λ o. o.is_correct) (build_options option_id oidx options)
      ≡ count (λ o. o.is_correct) options
unfolding build_options
options-count option_id oidx [] = refl
options-count option_id oidx (o ∷ options) =
    ground (arith, options-count option_id (oidx + 1) options)

-- The questions that are built from a validated payload.
pub build-ValidQuestion :
    (question_id : ℕ → ℕ) (option_id : ℕ → ℕ → ℕ) (idx : ℕ) (questions : List QuestionInput)
    → All ValidInput questions
    → Ensures
        (λ (built : List TestQuestion). All ValidQuestion built × (length built ≡ length questions))
        (build_template_questions question_id option_id idx questions)
unfolding build_template_questions
build-ValidQuestion question_id option_id idx [] h = returns _ (tt, refl)
build-ValidQuestion question_id option_id idx (q ∷ questions) h =
    >>=-Ensures (or_raise q.type crash) _ λ q_type known.
      >>=-Ensures (build_template_questions question_id option_id (idx + 1) questions) _ λ built e.
        let rest =
          ensured built (build-ValidQuestion question_id option_id (idx + 1) questions h.1) e in
        let v = h.0 in
        let same : v.q_type ≡ q_type =
          some-injective _ _ (sym v.is_type ∙ or_raise-some _ _ crash known) in
        returns _ (
          (
            record {
              points_in = v.points_in;
              options_in = rw (options-length (option_id idx) 0 q.options) v.options_in;
              correct_in = rw (options-count (option_id idx) 0 q.options) (
                  subst (λ k. RightNumber k (count (λ o. o.is_correct) q.options)) same
                    v.correct_in);
            },
            rest.0,
          ),
          omega (arith, rest.1),
        )
