-- ===== src/EmployeeTest/Tally.antt =====
-- What an assignment says of its attempts, in the operations of src/app/services/employee_test.py.
use smenka_back.Prelude.{
  ℕ, ◌+◌, ◌≤◌, ◌≡◌, refl, sym, ap, ◌∙◌, subst, Bool, true, false, not, ◌&&◌, ◌||◌, some, List, [],
  ◌∷◌, ◌++◌, arith, leb, ◌==◌, if◌then◌else◌, Bool-cases, inl, inr, find, update, count,
  count-append, count-update, update-keys, leq_trans, insert-one, All, All-append, All-update,
  All-In, In, In-count,
}
use smenka_back.EmployeeTest.{TestAssignmentStatus, TestAttempt, TestAssignment}
use smenka_back.EmployeeTest.Attempts.{is_open, is_open_of, started}
use smenka_back.EmployeeTest.Graded.{IsSnapshot}

abbrev pub has_id : ℕ → TestAttempt → Bool
has_id k r = r.id == k

abbrev pub is_assignment : ℕ → TestAssignment → Bool
is_assignment k a = a.id == k

abbrev pub is_of : ℕ → TestAttempt → Bool
is_of k r = r.assignment_id == k

abbrev pub is_done_of : ℕ → TestAttempt → Bool
is_done_of k r = r.assignment_id == k && not (is_open r.status)

abbrev pub is_passed_of : ℕ → TestAttempt → Bool
is_passed_of k r = is_done_of k r && r.passed

abbrev pub is_passed : TestAssignmentStatus → Bool
is_passed TestAssignmentStatus.passed = true
is_passed _ = false

-- An assignment counts its submitted attempts and is passed when one of them is.
pub record Fits (attempts : List TestAttempt) (a : TestAssignment) : Type 0 where
  pub used : a.attempts_used ≡ count (is_done_of a.id) attempts
  pub any_passed : a.passed ≡ leb 1 (count (is_passed_of a.id) attempts)
  pub in_status : is_passed a.status ≡ a.passed

pub record Tallied (assignments : List TestAssignment) (attempts : List TestAttempt) : Type 0 where
  pub unique_ids : (k : ℕ) → count (has_id k) attempts ≤ 1
  pub unique_assignments : (k : ℕ) → count (is_assignment k) assignments ≤ 1
  pub one_open : (k : ℕ) → count (is_open_of k) attempts ≤ 1
  pub referenced : (k : ℕ) → count (is_assignment k) assignments ≡ 0 → count (is_of k) attempts ≡ 0
  pub fits : All (Fits attempts) assignments
  pub snapshots : All IsSnapshot attempts

pub All-write {κ} :
    (P Q : TestAssignment → Type κ) (a : TestAssignment) (rows : List TestAssignment)
    → All P rows
    → Q a
    → ((b : TestAssignment) → (b.id == a.id) ≡ false → P b → Q b)
    → All Q (update (is_assignment a.id) (λ _. a) rows)
All-write P Q a [] h own other = tt
All-write P Q a (b ∷ rows) h own other = (
  elim (Bool-cases (b.id == a.id)) [ inl hit ↦ rw hit own | inr miss ↦ rw miss (other b miss h.0) ],
  All-write P Q a rows h.1 own other,
)

-- A new attempt is open, so that no tally moves.
start-Fits :
    (attempts : List TestAttempt) (r : TestAttempt) (a : TestAssignment)
    → is_open r.status ≡ true
    → Fits attempts a
    → Fits (attempts ++ r ∷ []) a
start-Fits attempts r a opened x =
    let done : count (is_done_of a.id) (attempts ++ r ∷ []) ≡ count (is_done_of a.id) attempts =
      ground (arith, count-append (is_done_of a.id) attempts (r ∷ [])) in
    let passing : count (is_passed_of a.id) (attempts ++ r ∷ [])
        ≡ count (is_passed_of a.id) attempts =
      ground (arith, count-append (is_passed_of a.id) attempts (r ∷ [])) in
    record {
      used = x.used ∙ sym done;
      any_passed = rw passing x.any_passed;
      in_status = x.in_status;
    }

started-is_passed : (status : TestAssignmentStatus) → is_passed (started status) ≡ is_passed status
started-is_passed TestAssignmentStatus.assigned = refl
started-is_passed TestAssignmentStatus.in_progress = refl
started-is_passed TestAssignmentStatus.passed = refl
started-is_passed TestAssignmentStatus.failed = refl

pub start-Tallied :
    (assignments : List TestAssignment) (attempts : List TestAttempt) (a : TestAssignment)
    (r : TestAttempt)
    → In a assignments
    → r.assignment_id ≡ a.id
    → is_open r.status ≡ true
    → count (is_open_of a.id) attempts ≡ 0
    → count (has_id r.id) attempts ≡ 0
    → IsSnapshot r
    → Tallied assignments attempts
    → Tallied
        (update (is_assignment a.id) (λ _. record a { status = started a.status }) assignments)
        (attempts ++ r ∷ [])
start-Tallied assignments attempts a r i own opened none_open fresh snapshot x =
    let a' : TestAssignment = record a { status = started a.status } in
    let fit = start-Fits attempts r a opened (All-In (Fits attempts) x.fits i) in
    record {
      unique_ids = λ k. insert-one (has_id k) r attempts (x.unique_ids k) (λ t. fresh_at k t);
      unique_assignments = λ k.
          rw (update-keys (λ (b : TestAssignment). b.id) k a' assignments) (x.unique_assignments k);
      one_open = λ k. insert-one (is_open_of k) r attempts (x.one_open k) (λ t. idle_at k t);
      referenced = λ k absent.
          unused_at k (update-keys (λ (b : TestAssignment). b.id) k a' assignments) absent;
      fits =
          All-write (Fits attempts) (Fits (attempts ++ r ∷ [])) a' assignments x.fits
            (record {
              used = fit.used;
              any_passed = fit.any_passed;
              in_status = started-is_passed a.status ∙ fit.in_status;
            })
            (λ b other f. start-Fits attempts r b opened f);
      snapshots = All-append IsSnapshot attempts (r ∷ []) x.snapshots (snapshot, tt);
    }
  where
    fresh_at : (k : ℕ) → has_id k r ≡ true → count (has_id k) attempts ≡ 0
    fresh_at k t =
        let same : r.id ≡ k = ground arith in subst (λ j. count (has_id j) attempts ≡ 0) same fresh

    idle_at : (k : ℕ) → is_open_of k r ≡ true → count (is_open_of k) attempts ≡ 0
    idle_at k t =
        let same : a.id ≡ k = ground arith in
        subst (λ j. count (is_open_of j) attempts ≡ 0) same none_open

    unused_at :
        (k : ℕ) {n : ℕ}
        → n ≡ count (is_assignment k) assignments
        → n ≡ 0
        → count (is_of k) (attempts ++ r ∷ []) ≡ 0
    unused_at k e absent = elim (Bool-cases (r.assignment_id == k)) [
      | inl hit ↦
          let same : a.id ≡ k = ground arith in
          let there : 1 ≤ count (is_assignment k) assignments =
            subst (λ j. 1 ≤ count (is_assignment j) assignments) same
              (In-count (λ (b : TestAssignment). b.id) i) in
          absurd (omega (arith, e, absent, there))
      | inr miss ↦
          let none_before = x.referenced k (omega (arith, e, absent)) in
          ground (arith, count-append (is_of k) attempts (r ∷ []), none_before)
    ]

one_more : (n : ℕ) (b : Bool) → (leb 1 n || b) ≡ leb 1 (n + (if b then 1 else 0))
one_more n true = ground arith
one_more n false = ground arith

-- The submission of an open attempt moves the tally of its assignment alone.
module _ (attempts : List TestAttempt) (f : TestAttempt → Bool) (r : TestAttempt) (r' : TestAttempt)
    (found : find f attempts ≡ some r) (same : r'.id ≡ r.id)
    (kept : r'.assignment_id ≡ r.assignment_id) (opened : is_open r.status ≡ true)
    (closed : is_open r'.status ≡ false) (one : count (has_id r'.id) attempts ≤ 1) where
  abbrev after : List TestAttempt
  after = update (has_id r'.id) (λ _. r') attempts

  moved :
      (q : TestAttempt → Bool)
      → count q after + (if q r then 1 else 0) ≡ count q attempts + (if q r' then 1 else 0)
  moved q = count-update (λ (b : TestAttempt). b.id) q f r r' attempts found same one

  other-Fits :
      (b : TestAssignment) → (b.id == r.assignment_id) ≡ false → Fits attempts b → Fits after b
  other-Fits b other x =
      let done : count (is_done_of b.id) after ≡ count (is_done_of b.id) attempts =
        ground (arith, moved (is_done_of b.id)) in
      let passing : count (is_passed_of b.id) after ≡ count (is_passed_of b.id) attempts =
        ground (arith, moved (is_passed_of b.id)) in
      record {
        used = x.used ∙ sym done;
        any_passed = rw passing x.any_passed;
        in_status = x.in_status;
      }

  own-Fits :
      (a a' : TestAssignment)
      → a'.id ≡ a.id
      → a.id ≡ r.assignment_id
      → a'.attempts_used ≡ a.attempts_used + 1
      → a'.passed ≡ (a.passed || r'.passed)
      → is_passed a'.status ≡ a'.passed
      → Fits attempts a
      → Fits after a'
  own-Fits a a' id own used passed in_status x =
      let done : count (is_done_of a'.id) after ≡ count (is_done_of a'.id) attempts + 1 =
        ground (arith, moved (is_done_of a'.id)) in
      let passing : count (is_passed_of a'.id) after
          ≡ count (is_passed_of a'.id) attempts + (if r'.passed then 1 else 0) =
        ground (arith, moved (is_passed_of a'.id)) in
      let old_done = ap (λ k. count (is_done_of k) attempts) id in
      let old_passing = ap (λ k. count (is_passed_of k) attempts) id in
      record {
        used = omega (arith, used, x.used, old_done, done);
        any_passed =
            passed
            ∙ ap (λ b. b || r'.passed) x.any_passed
            ∙ one_more (count (is_passed_of a.id) attempts) r'.passed
            ∙ ap (leb 1) (omega (arith, old_passing, passing));
        in_status = in_status;
      }

  open_le : (k : ℕ) → count (is_open_of k) after ≤ count (is_open_of k) attempts
  open_le k = ground (arith, moved (is_open_of k))

  of_same : (k : ℕ) → count (is_of k) after ≡ count (is_of k) attempts
  of_same k = ground (arith, moved (is_of k))

  pub submit-Tallied :
      (assignments : List TestAssignment) (a a' : TestAssignment)
      → In a assignments
      → a'.id ≡ a.id
      → a.id ≡ r.assignment_id
      → a'.attempts_used ≡ a.attempts_used + 1
      → a'.passed ≡ (a.passed || r'.passed)
      → is_passed a'.status ≡ a'.passed
      → IsSnapshot r'
      → Tallied assignments attempts
      → Tallied (update (is_assignment a'.id) (λ _. a') assignments) after
  submit-Tallied assignments a a' i id own used passed in_status snapshot x = record {
    unique_ids = λ k. rw (update-keys (λ (b : TestAttempt). b.id) k r' attempts) (x.unique_ids k);
    unique_assignments = λ k.
        rw (update-keys (λ (b : TestAssignment). b.id) k a' assignments) (x.unique_assignments k);
    one_open = λ k. leq_trans (open_le k) (x.one_open k);
    referenced = λ k absent.
        of_same k
        ∙ x.referenced k
            (sym (update-keys (λ (b : TestAssignment). b.id) k a' assignments) ∙ absent);
    fits =
        All-write (Fits attempts) (Fits after) a' assignments x.fits
          (own-Fits a a' id own used passed in_status (All-In (Fits attempts) x.fits i))
          (λ b other f. other-Fits b (ground arith) f);
    snapshots = All-update IsSnapshot (has_id r'.id) r' attempts x.snapshots snapshot;
  }
