-- ===== src/EmployeeTest/Roster.antt =====
-- The tallies when assignments are given and taken away: `assign_template` and `delete_assignment` of
-- src/app/services/employee_test.py.
use smenka_back.Prelude.{
  ℕ, ◌≡◌, ◌≢◌, refl, sym, ◌∙◌, subst, Bool, true, not, Option, none, some, List, [], ◌∷◌, arith,
  ◌==◌, Bool-cases, inl, inr, find, select, count, count-append, count_mono, count-select_le,
  count-select_all, count-select_none, update-keys, leq_trans, insert-one, All, All-append,
  All-select, All-In, find-In,
}
use smenka_back.EmployeeTest.{TestAttempt, TestAssignment, Tables}
use smenka_back.EmployeeTest.Attempts.{
  is_open_of, is_assigned, save_assignment, new_assignment, upsert, upsert_all, remove_assignment,
}
use smenka_back.EmployeeTest.Graded.{IsSnapshot}
use smenka_back.EmployeeTest.Tally.{
  has_id, is_assignment, is_of, is_done_of, is_passed_of, Fits, Tallied, All-write,
}

All-rest {κ} :
    (P Q : TestAssignment → Type κ) (f : TestAssignment → Bool) (rows : List TestAssignment)
    → All P rows
    → ((b : TestAssignment) → f b ≡ true → P b → Q b)
    → All Q (select f rows)
All-rest P Q f [] h keep = tt
All-rest P Q f (b ∷ rows) h keep = elim (Bool-cases (f b)) [
  | inl hit ↦ rw hit (keep b hit h.0, All-rest P Q f rows h.1 keep)
  | inr miss ↦ rw miss (All-rest P Q f rows h.1 keep)
]

remove-Fits :
    (attempts : List TestAttempt) (a b : TestAssignment)
    → not (b.id == a.id) ≡ true
    → Fits attempts b
    → Fits (select (λ q. not (q.assignment_id == a.id)) attempts) b
remove-Fits attempts a b other x =
    let others = λ (q : TestAttempt). not (q.assignment_id == a.id) in
    let same = count-select_all (is_done_of b.id) others attempts (λ s t. ground arith) in
    let same_passed = count-select_all (is_passed_of b.id) others attempts (λ s t. ground arith) in
    record {
      used = x.used ∙ sym same;
      any_passed = rw same_passed x.any_passed;
      in_status = x.in_status;
    }

pub remove-Tallied :
    (t : Tables) (a : TestAssignment)
    → Tallied t.assignments t.attempts
    → let t' = remove_assignment a t in Tallied t'.assignments t'.attempts
unfolding remove_assignment
remove-Tallied t a x = record {
  unique_ids = λ k. leq_trans (count-select_le (has_id k) _ t.attempts) (x.unique_ids k);
  unique_assignments =
      λ k. leq_trans (count-select_le (is_assignment k) _ t.assignments) (x.unique_assignments k);
  one_open = λ k. leq_trans (count-select_le (is_open_of k) _ t.attempts) (x.one_open k);
  referenced = λ k absent.
      let others = λ (q : TestAttempt). not (q.assignment_id == a.id) in
      elim (Bool-cases (k == a.id)) [
        | inl hit ↦ count-select_none (is_of k) others t.attempts (λ s own. ground arith)
        | inr miss ↦
            let before : count (is_assignment k) t.assignments ≡ 0 =
              sym (
                count-select_all (is_assignment k) (λ q. not (q.id == a.id)) t.assignments
                  (λ s own. ground arith))
              ∙ absent in
            omega (arith, count-select_le (is_of k) others t.attempts, x.referenced k before)
      ];
  fits =
      All-rest (Fits t.attempts) _ _ t.assignments x.fits
        (λ b other f. remove-Fits t.attempts a b other f);
  snapshots = All-select IsSnapshot _ t.attempts x.snapshots;
}

-- A row without attempts fits with no attempt counted.
new-Fits :
    (attempts : List TestAttempt) (assignment_id template_id member_id requester_id : ℕ)
    (due_at : Option ℕ)
    → count (is_of assignment_id) attempts ≡ 0
    → Fits attempts (new_assignment assignment_id template_id member_id requester_id due_at)
new-Fits attempts k template_id member_id requester_id due_at absent =
    let done = count_mono (is_done_of k) (is_of k) attempts (λ s t. ground arith) in
    let passing = count_mono (is_passed_of k) (is_of k) attempts (λ s t. ground arith) in
    record { used = omega (arith, done, absent); any_passed = ground arith; in_status = refl }

pub upsert-Tallied :
    (t : Tables) (template_id member_id requester_id : ℕ) (due_at : Option ℕ) (assignment_id : ℕ)
    (existing : Option TestAssignment)
    → find (is_assigned template_id member_id) t.assignments ≡ existing
    → count (is_assignment assignment_id) t.assignments ≡ 0
    → Tallied t.assignments t.attempts
    → let t' = (upsert t template_id member_id requester_id due_at assignment_id existing).0 in
      Tallied t'.assignments t'.attempts
unfolding save_assignment
upsert-Tallied t template_id member_id requester_id due_at k (some a) e fresh x =
    let a' : TestAssignment = record a {
      due_at = due_at;
      assigned_by_user_id = some requester_id;
    } in
    let f = All-In (Fits t.attempts) x.fits (find-In _ a t.assignments e) in
    record {
      unique_ids = x.unique_ids;
      unique_assignments = λ j.
          rw (update-keys (λ (b : TestAssignment). b.id) j a' t.assignments)
            (x.unique_assignments j);
      one_open = x.one_open;
      referenced = λ j absent.
          x.referenced j
            (sym (update-keys (λ (b : TestAssignment). b.id) j a' t.assignments) ∙ absent);
      fits =
          All-write (Fits t.attempts) (Fits t.attempts) a' t.assignments x.fits
            (record { used = f.used; any_passed = f.any_passed; in_status = f.in_status })
            (λ b other g. g);
      snapshots = x.snapshots;
    }
upsert-Tallied t template_id member_id requester_id due_at k none e fresh x =
    let a = new_assignment k template_id member_id requester_id due_at in
    record {
      unique_ids = x.unique_ids;
      unique_assignments = λ j.
          insert-one (is_assignment j) a t.assignments (x.unique_assignments j) (λ own.
            let same : k ≡ j = ground arith in
            subst (λ i. count (is_assignment i) t.assignments ≡ 0) same fresh);
      one_open = x.one_open;
      referenced = λ j absent.
          x.referenced j (ground (arith, count-append (is_assignment j) t.assignments (a ∷ [])));
      fits = All-append (Fits t.attempts) t.assignments (a ∷ []) x.fits (
        new-Fits t.attempts k template_id member_id requester_id due_at (x.referenced k fresh),
        tt,
      );
      snapshots = x.snapshots;
    }

-- The new rows have ids that are not taken and differ.
pub data Fresh (t : Tables) (assignment_id : ℕ → ℕ) : List ℕ → Type 0 where
  no_member : Fresh t assignment_id []
  one_member :
      (member_id : ℕ) (members : List ℕ)
      → count (is_assignment (assignment_id member_id)) t.assignments ≡ 0
      → All (λ m. assignment_id m ≢ assignment_id member_id) members
      → Fresh t assignment_id members
      → Fresh t assignment_id (member_id ∷ members)

-- A row that is written has one of the old ids or the new one.
upsert-ids :
    (t : Tables) (template_id member_id requester_id : ℕ) (due_at : Option ℕ) (assignment_id k : ℕ)
    (existing : Option TestAssignment)
    → k ≢ assignment_id
    → count
        (is_assignment k)
        (upsert t template_id member_id requester_id due_at assignment_id existing).0.assignments
      ≡ count (is_assignment k) t.assignments
unfolding save_assignment
upsert-ids t template_id member_id requester_id due_at assignment_id k (some a) other =
    update-keys (λ (b : TestAssignment). b.id) k
      (record a { due_at = due_at; assigned_by_user_id = some requester_id }) t.assignments
upsert-ids t template_id member_id requester_id due_at assignment_id k none other =
    let a = new_assignment assignment_id template_id member_id requester_id due_at in
    ground (arith, count-append (is_assignment k) t.assignments (a ∷ []))

still-Fresh :
    (t t' : Tables) (assignment_id : ℕ → ℕ) (member_id : ℕ) (members : List ℕ)
    → ((k : ℕ)
        → k ≢ assignment_id member_id
        → count (is_assignment k) t'.assignments ≡ count (is_assignment k) t.assignments)
    → All (λ m. assignment_id m ≢ assignment_id member_id) members
    → Fresh t assignment_id members
    → Fresh t' assignment_id members
still-Fresh t t' assignment_id member_id [] same apart fresh = Fresh.no_member
still-Fresh t t' assignment_id member_id (m ∷ members) same apart (one_member _ _ new others rest) =
    Fresh.one_member m members (same (assignment_id m) apart.0 ∙ new) others
      (still-Fresh t t' assignment_id member_id members same apart.1 rest)

pub upsert_all-Tallied :
    (t : Tables) (template_id requester_id : ℕ) (due_at : Option ℕ) (assignment_id : ℕ → ℕ)
    (members : List ℕ)
    → Fresh t assignment_id members
    → Tallied t.assignments t.attempts
    → let t' = upsert_all t template_id requester_id due_at assignment_id members in
      Tallied t'.assignments t'.attempts
unfolding upsert_all
upsert_all-Tallied t template_id requester_id due_at assignment_id [] fresh x = x
upsert_all-Tallied t template_id requester_id due_at assignment_id (m ∷ members)
      (one_member _ _ new others rest) x =
    let existing = find (is_assigned template_id m) t.assignments in
    let written = (upsert t template_id m requester_id due_at (assignment_id m) existing).0 in
    upsert_all-Tallied written template_id requester_id due_at assignment_id members
      (still-Fresh t written assignment_id m members
        (λ k other.
          upsert-ids t template_id m requester_id due_at (assignment_id m) k existing other)
        others rest)
      (upsert-Tallied t template_id m requester_id due_at (assignment_id m) existing refl new x)
