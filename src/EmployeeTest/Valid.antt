-- ===== src/EmployeeTest/Valid.antt =====
-- The stored templates and attempts stay valid in the operations of src/app/services/employee_test.py.
use smenka_back.Prelude.{
  ℕ, ◌≤◌, ◌≡◌, Bool, true, false, not, Option, none, some, List, arith, ltb, length, All,
  All-append, All-update, All-In, In, find-In, ok, ◌>>◌, raise_if, >>=-Ensures, Ensures,
  Ensures-mono, returns, ensured, not_raised, or_raise-some, test_template_invalid,
  test_template_not_found, test_template_deleted, test_template_not_deleted,
}
use smenka_back.EmployeeTest.{TestQuestion, TestAttempt, TestTemplate, Tables, QuestionInput}
use smenka_back.EmployeeTest.Templates.{
  TemplateFields, is_blank, validate_template_payload, build_template_questions, check_admin,
  get_template, number_of, check_title, check_questions, questions_or, save_template,
  create_template, update_template, delete_template, restore_template,
}
use smenka_back.EmployeeTest.Payload.{
  ValidInput, ValidQuestion, validate_template_payload-ValidInput, build-ValidQuestion,
}

pub record ValidTemplate (r : TestTemplate) : Type 0 where
  pub threshold_in : r.pass_threshold_percent ≤ 100
  pub attempts_in : 1 ≤ r.max_attempts
  pub questions_in : 1 ≤ length r.questions
  pub each : All ValidQuestion r.questions

-- An attempt has points to give and can be passed.
pub record HasPoints (r : TestAttempt) : Type 0 where
  pub some_points : 1 ≤ r.max_score
  pub in_reach : r.pass_threshold_percent ≤ 100

pub record AllValid (t : Tables) : Type 0 where
  pub templates_in : All ValidTemplate t.templates
  pub attempts_in : All HasPoints t.attempts

found_template :
    (t : Tables) (org_id template_id : ℕ) (r : TestTemplate)
    → get_template t org_id template_id ≡ ok r
    → In r t.templates
unfolding get_template
found_template t org_id template_id r e =
    find-In _ r t.templates (or_raise-some _ r test_template_not_found e)

pub create_template-AllValid :
    (t : Tables) (org_id requester_id : ℕ) (title : List ℕ) (threshold max_attempts : ℕ)
    (questions : List QuestionInput) (f : ℕ → ℕ) (g : ℕ → ℕ → ℕ) (template_id now : ℕ)
    → AllValid t
    → Ensures
        (λ (r : Tables × TestTemplate). AllValid r.0)
        (create_template t org_id requester_id title threshold max_attempts questions f g
          template_id now)
unfolding create_template
create_template-AllValid t org_id requester_id title threshold max_attempts questions f g k now x =
    >>=-Ensures (check_admin t.billing org_id requester_id now) _ λ _ _.
      >>=-Ensures (raise_if (is_blank title) test_template_invalid) _ λ _ _.
        >>=-Ensures (validate_template_payload threshold max_attempts questions) _ λ counts e.
          let v =
            ensured counts (validate_template_payload-ValidInput threshold max_attempts questions)
              e in
          >>=-Ensures (build_template_questions f g 0 questions) _ λ built made.
            let b = ensured built (build-ValidQuestion f g 0 questions v.3) made in
            returns _ (record {
              templates_in = All-append ValidTemplate t.templates _ x.templates_in (
                record {
                  threshold_in = v.0;
                  attempts_in = v.1;
                  questions_in = rw b.1 v.2;
                  each = b.0;
                },
                tt,
              );
              attempts_in = x.attempts_in;
            })

abbrev ValidGiven : Option (List QuestionInput) → Type 0
ValidGiven none = Unit
ValidGiven (some questions) = (1 ≤ length questions) × All ValidInput questions

checked_number :
    (threshold max_attempts : ℕ)
    → Ensures
        (λ given. (1 ≤ max_attempts) × ValidGiven given)
        (do
          raise_if (ltb 100 threshold) test_template_invalid
          raise_if (ltb max_attempts 1) test_template_invalid
          ok none)
checked_number threshold max_attempts =
    >>=-Ensures (raise_if (ltb 100 threshold) test_template_invalid) _ λ _ _.
      >>=-Ensures (raise_if (ltb max_attempts 1) test_template_invalid) _
        λ _ tries. returns none (ground (arith, not_raised _ _ tries), tt)

check_questions-ValidGiven :
    (body : Option (Option (List QuestionInput))) (threshold max_attempts : ℕ)
    → Ensures
        (λ given. (1 ≤ max_attempts) × ValidGiven given)
        (check_questions body threshold max_attempts)
unfolding check_questions
check_questions-ValidGiven none threshold max_attempts = checked_number threshold max_attempts
check_questions-ValidGiven (some none) threshold max_attempts =
    checked_number threshold max_attempts
check_questions-ValidGiven (some (some questions)) threshold max_attempts =
    >>=-Ensures (validate_template_payload threshold max_attempts questions) _ λ counts e.
      let v =
        ensured counts (validate_template_payload-ValidInput threshold max_attempts questions) e in
      returns _ (v.1, (v.2, v.3))

questions_or-ValidQuestion :
    (f : ℕ → ℕ) (g : ℕ → ℕ → ℕ) (given : Option (List QuestionInput)) (old : List TestQuestion)
    → ValidGiven given
    → (1 ≤ length old) × All ValidQuestion old
    → Ensures
        (λ (qs : List TestQuestion). (1 ≤ length qs) × All ValidQuestion qs)
        (questions_or f g given old)
questions_or-ValidQuestion f g none old v h = returns old h
questions_or-ValidQuestion f g (some questions) old v h =
    Ensures-mono (build-ValidQuestion f g 0 questions v.1) (λ built b. (rw b.1 v.0, b.0))

save-AllValid :
    (t : Tables) (r : TestTemplate) → ValidTemplate r → AllValid t → AllValid (save_template r t)
unfolding save_template
save-AllValid t r v x = record {
  templates_in = All-update ValidTemplate _ r t.templates x.templates_in v;
  attempts_in = x.attempts_in;
}

pub update_template-AllValid :
    (t : Tables) (org_id template_id requester_id : ℕ) (fields : TemplateFields) (f : ℕ → ℕ)
    (g : ℕ → ℕ → ℕ) (now : ℕ)
    → AllValid t
    → Ensures
        (λ (r : Tables × TestTemplate). AllValid r.0)
        (update_template t org_id template_id requester_id fields f g now)
unfolding update_template
update_template-AllValid t org_id template_id requester_id fields f g now x =
    >>=-Ensures (check_admin t.billing org_id requester_id now) _ λ _ _.
      >>=-Ensures (get_template t org_id template_id) _ λ r found.
        let old =
          All-In ValidTemplate x.templates_in (found_template t org_id template_id r found) in
        >>=-Ensures (raise_if r.is_deleted test_template_deleted) _ λ _ _.
          >>=-Ensures (number_of fields.pass_threshold_percent r.pass_threshold_percent) _
            λ threshold _.
              >>=-Ensures (raise_if (ltb 100 threshold) test_template_invalid) _ λ _ low.
                >>=-Ensures (number_of fields.max_attempts r.max_attempts) _ λ most _.
                  >>=-Ensures (check_questions fields.questions threshold most) _ λ given e.
                    let v =
                      ensured given (check_questions-ValidGiven fields.questions threshold most)
                        e in
                    >>=-Ensures (check_title fields.title) _ λ _ _.
                      >>=-Ensures (questions_or f g given r.questions) _ λ built made.
                        let b =
                          ensured built
                            (questions_or-ValidQuestion f g given r.questions v.1
                              (old.questions_in, old.each))
                            made in
                        returns _ (
                          save-AllValid t _
                            (record {
                              threshold_in = ground (arith, not_raised _ _ low);
                              attempts_in = v.0;
                              questions_in = b.0;
                              each = b.1;
                            })
                            x)

flag_saved :
    (t : Tables) (org_id template_id : ℕ) (r : TestTemplate) (flag : Bool)
    → get_template t org_id template_id ≡ ok r
    → AllValid t
    → AllValid (save_template (record r { is_deleted = flag }) t)
flag_saved t org_id template_id r flag found x =
    let old = All-In ValidTemplate x.templates_in (found_template t org_id template_id r found) in
    save-AllValid t (record r { is_deleted = flag })
      (record {
        threshold_in = old.threshold_in;
        attempts_in = old.attempts_in;
        questions_in = old.questions_in;
        each = old.each;
      })
      x

pub delete_template-AllValid :
    (t : Tables) (org_id template_id requester_id now : ℕ)
    → AllValid t
    → Ensures
        (λ (r : Tables × TestTemplate). AllValid r.0)
        (delete_template t org_id template_id requester_id now)
unfolding delete_template
delete_template-AllValid t org_id template_id requester_id now x =
    >>=-Ensures (check_admin t.billing org_id requester_id now) _ λ _ _.
      >>=-Ensures (get_template t org_id template_id) _ λ r found.
        >>=-Ensures (raise_if r.is_deleted test_template_not_found) _
          λ _ _. returns _ (flag_saved t org_id template_id r true found x)

pub restore_template-AllValid :
    (t : Tables) (org_id template_id requester_id now : ℕ)
    → AllValid t
    → Ensures
        (λ (r : Tables × TestTemplate). AllValid r.0)
        (restore_template t org_id template_id requester_id now)
unfolding restore_template
restore_template-AllValid t org_id template_id requester_id now x =
    >>=-Ensures (check_admin t.billing org_id requester_id now) _ λ _ _.
      >>=-Ensures (get_template t org_id template_id) _ λ r found.
        >>=-Ensures (raise_if (not r.is_deleted) test_template_not_deleted) _
          λ _ _. returns _ (flag_saved t org_id template_id r false found x)
