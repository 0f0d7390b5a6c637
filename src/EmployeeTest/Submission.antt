-- ===== src/EmployeeTest/Submission.antt =====
-- The submission of an attempt and its score: src/app/services/employee_test.py.
use smenka_back.Prelude.{
  ℕ, zero, suc, ◌+◌, ◌*◌, ◌/◌, ◌%◌, ◌^◌, max, Bool, true, false, not, ◌||◌, ◌&&◌, Option, none,
  some, List, [], ◌∷◌, map, leb, ltb, ◌==◌, if◌then◌else◌, find, update, any, Result, ok, ◌>>=◌,
  ◌>>◌, raise_if, or_raise, crash, validation_error, test_attempt_not_found,
  test_attempt_already_submitted,
}
use smenka_back.EmployeeTest.{
  TestAssignmentStatus, TestAttemptStatus, TestTemplate, TestAssignment, TestAttemptOption,
  TestAttemptQuestion, TestAttempt, Tables,
}
use smenka_back.EmployeeTest.Attempts.{mem, subset, save_assignment, is_own, template_of, is_open}

-- The joins with the assignment and the member.
abbrev pub is_taken_by : Tables → ℕ → TestAttempt → Bool
is_taken_by t user_id r = any (λ a. a.id == r.assignment_id && is_own t user_id a) t.assignments

unfoldable pub get_my_attempt : Tables → ℕ → ℕ → Result TestAttempt
get_my_attempt t user_id attempt_id =
    or_raise (find (λ r. r.id == attempt_id && is_taken_by t user_id r) t.attempts)
      test_attempt_not_found

unfoldable pub ids_where : (TestAttemptOption → Bool) → List TestAttemptOption → List ℕ
ids_where p [] = []
ids_where p (o ∷ options) = let rest = ids_where p options in if p o then o.id ∷ rest else rest

-- The equality of two sets.
abbrev pub same_set : List ℕ → List ℕ → Bool
same_set ks js = subset ks js && subset js ks

unfoldable pub compute_awarded : TestAttemptQuestion → ℕ
compute_awarded q =
    if same_set (ids_where (λ o. o.is_selected) q.options) (ids_where (λ o. o.is_correct) q.options)
    then q.points
    else 0

abbrev pub Answer : Type 0
Answer = ℕ × List ℕ

-- The dictionary of the answers, the newest first: a later answer to a question replaces an earlier one.
unfoldable pub collect_answers :
    List TestAttemptQuestion → List Answer → List Answer → Result (List Answer)
collect_answers questions [] collected = ok collected
collect_answers questions (answer ∷ answers) collected = do
  raise_if (not (any (λ q. q.id == answer.0) questions)) validation_error
  collect_answers questions answers (answer ∷ collected)

abbrev pub chosen_of : Option Answer → List ℕ
chosen_of none = []
chosen_of (some answer) = answer.1

unfoldable pub answer_to : List Answer → ℕ → List ℕ
answer_to collected question_id = chosen_of (find (λ answer. answer.0 == question_id) collected)

unfoldable pub mark : List ℕ → List TestAttemptOption → List TestAttemptOption
mark chosen [] = []
mark chosen (o ∷ options) = record o { is_selected = mem o.id chosen } ∷ mark chosen options

abbrev pub answered : List ℕ → TestAttemptQuestion → TestAttemptQuestion
answered chosen q = record q { options = mark chosen q.options }

-- The loop over the questions: the questions with the options chosen, and the score.
unfoldable pub grade :
    List Answer → List TestAttemptQuestion → ℕ → Result (List TestAttemptQuestion × ℕ)
grade collected [] score = ok ([], score)
grade collected (q ∷ questions) score = do
  let chosen = answer_to collected q.id
  raise_if (not (subset chosen (map (λ o. o.id) q.options))) validation_error
  rest ← grade collected questions (score + compute_awarded (answered chosen q))
  ok (answered chosen q ∷ rest.0, rest.1)

-- n / d, to the even number at a half.
unfoldable pub round_half_even : ℕ → ℕ → ℕ
round_half_even n d =
    let q = n / d in
    let r = n % d in if ltb (2 * r) d then q else if ltb d (2 * r) then q + 1 else q + q % 2

-- How often n is doubled until it is at least d.
unfoldable pub doublings : ℕ → ℕ → ℕ → ℕ
doublings zero n d = 0
doublings (suc fuel) n d = let rest = doublings fuel (2 * n) d in if leb d n then 0 else suc rest

-- `round(score / max_score * 100)` in floats of 53 bits: the quotient is m / 2 ^ e, the product
-- product * 2 ^ k / 2 ^ e, for a score that is at most the maximum. The maximum is fuel enough.
unfoldable pub float_percent : ℕ → ℕ → ℕ
float_percent score max_score =
    let e = 52 + doublings max_score score max_score in
    let m = round_half_even (score * 2 ^ e) max_score in
    let k = if ltb (m * 100) (2 ^ 59) then 6 else 7 in
    let product = round_half_even (m * 100) (2 ^ k) in round_half_even (product * 2 ^ k) (2 ^ e)

-- `percent`. Away from a half the floats, wrong by less than 2 ^ -44, give the nearest number, if
-- the maximum is below 2 ^ 43; at a half they decide.
unfoldable pub percent_of : ℕ → ℕ → ℕ
percent_of score max_score =
    let q = score * 100 / max_score in
    let r = score * 100 % max_score in
    if ltb (2 * r) max_score
    then q
    else if ltb max_score (2 * r)
    then q + 1
    else if leb (float_percent score max_score) q
    then q
    else q + 1

abbrev pub submitted : TestAttempt → List TestAttemptQuestion → ℕ → ℕ → ℕ → TestAttempt
submitted r questions score percent now = record r {
  score = score;
  percent = percent;
  passed = leb r.pass_threshold_percent percent;
  status = TestAttemptStatus.submitted;
  submitted_at = some now;
  questions = questions;
}

abbrev pub best_of : Option ℕ → ℕ → ℕ
best_of none percent = percent
best_of (some best) percent = max best percent

abbrev pub status_after : Bool → Bool → TestAssignmentStatus
status_after true exhausted = TestAssignmentStatus.passed
status_after false true = TestAssignmentStatus.failed
status_after false false = TestAssignmentStatus.in_progress

abbrev pub counted : TestAssignment → TestTemplate → TestAttempt → ℕ → TestAssignment
counted a template r now = record a {
  attempts_used = a.attempts_used + 1;
  best_percent = some (best_of a.best_percent r.percent);
  passed = a.passed || r.passed;
  last_attempt_at = some now;
  status = status_after (a.passed || r.passed) (leb template.max_attempts (a.attempts_used + 1));
}

unfoldable pub save_attempt : TestAttempt → Tables → Tables
save_attempt r t = record t { attempts = update (λ q. q.id == r.id) (λ _. r) t.attempts }

-- The assignment of an attempt is there by its foreign key.
unfoldable pub assignment_of : Tables → TestAttempt → Result TestAssignment
assignment_of t r = or_raise (find (λ a. a.id == r.assignment_id) t.assignments) crash

-- The questions of the attempt with the answers, and its score.
unfoldable pub grade_answers : TestAttempt → List Answer → Result (List TestAttemptQuestion × ℕ)
grade_answers r answers = do
  raise_if (not (is_open r.status)) test_attempt_already_submitted
  collected ← collect_answers r.questions answers []
  graded ← grade collected r.questions 0
  raise_if (r.max_score == 0) crash
  ok graded

unfoldable pub submit_attempt : Tables → ℕ → ℕ → List Answer → ℕ → Result (Tables × TestAttempt)
submit_attempt t user_id attempt_id answers now = do
  r ← get_my_attempt t user_id attempt_id
  graded ← grade_answers r answers
  let percent = percent_of graded.1 r.max_score
  let changed = submitted r graded.0 graded.1 percent now
  a ← assignment_of t r
  template ← template_of t a
  ok (save_assignment (counted a template changed now) (save_attempt changed t), changed)
