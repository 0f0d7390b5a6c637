-- ===== src/EmployeeTest/Grading.antt =====
-- What the score of an attempt is, of `compute_awarded` and `submit_attempt` in
-- src/app/services/employee_test.py.
use smenka_back.Prelude.{
  ℕ, ◌+◌, ◌≤◌, ◌≡◌, refl, sym, ◌∙◌, subst, Bool, true, false, ◌||◌, List, [], ◌∷◌, arith, ◌==◌,
  Bool-cases, inl, inr, ◌⊎◌, count, All, All-In, In, here, there, same_row,
}
use smenka_back.EmployeeTest.{TestAttemptOption, TestAttemptQuestion}
use smenka_back.EmployeeTest.Attempts.{mem, subset}
use smenka_back.EmployeeTest.Submission.{ids_where, same_set, compute_awarded}

-- Every correct option of a question is chosen, and no other.
abbrev pub IsRight : TestAttemptQuestion → Type 0
IsRight q = All (λ (o : TestAttemptOption). o.is_selected ≡ o.is_correct) q.options

-- A question gives all its points or none.
pub data Score : List TestAttemptQuestion → ℕ → Type 0 where
  no_questions : Score [] 0
  right_one :
      (q : TestAttemptQuestion) (questions : List TestAttemptQuestion) (k : ℕ)
      → IsRight q
      → Score questions k
      → Score (q ∷ questions) (q.points + k)
  wrong_one :
      (q : TestAttemptQuestion) (questions : List TestAttemptQuestion) (k : ℕ)
      → ¬ IsRight q
      → Score questions k
      → Score (q ∷ questions) k

-- Ids are a primary key.
abbrev pub Distinct : List TestAttemptOption → Type 0
Distinct options = (k : ℕ) → count (λ o. o.id == k) options ≤ 1

subset-mem : (ks js : List ℕ) (k : ℕ) → subset ks js ≡ true → mem k ks ≡ true → mem k js ≡ true
subset-mem [] js k h m = cc
subset-mem (j ∷ ks) js k h m = elim (Bool-cases (k == j)) [
  | inl hit ↦
      let same : k ≡ j = ground arith in subst (λ i. mem i js ≡ true) (sym same) (ground arith)
  | inr miss ↦ subset-mem ks js k (ground arith) (ground arith)
]

mem-subset : (ks js : List ℕ) → ((k : ℕ) → mem k ks ≡ true → mem k js ≡ true) → subset ks js ≡ true
mem-subset [] js h = refl
mem-subset (k ∷ ks) js h =
    let own : mem k js ≡ true = h k (ground arith) in
    let rest : subset ks js ≡ true = mem-subset ks js (λ i m. h i (ground arith)) in rw own rest

module _ (p : TestAttemptOption → Bool) where
  In-mem :
      {o : TestAttemptOption} {options : List TestAttemptOption}
      → In o options
      → p o ≡ true
      → mem o.id (ids_where p options) ≡ true
  unfolding ids_where
  In-mem {o} (here rest) h = rw h (ground arith)
  In-mem {o} (there b {rows} i) h =
      let later = In-mem i h in
      elim (Bool-cases (p b)) [ inl hit ↦ rw hit (ground arith) | inr miss ↦ rw miss later ]

  mem-In :
      (k : ℕ) (options : List TestAttemptOption)
      → mem k (ids_where p options) ≡ true
      → (o : TestAttemptOption) × In o options × (p o ≡ true) × (o.id ≡ k)
  unfolding ids_where
  mem-In k [] m = cc
  mem-In k (b ∷ options) m = elim (Bool-cases (p b)) [
    | inl hit ↦
        let split : (k == b.id || mem k (ids_where p options)) ≡ true = rw hit at m in
        elim (Bool-cases (k == b.id)) [
          | inl own ↦ (b, here options, hit, ground arith)
          | inr other ↦ let x = mem-In k options (rw other at split) in (x.0, there b x.1, x.2, x.3)
        ]
    | inr miss ↦ let x = mem-In k options (rw miss at m) in (x.0, there b x.1, x.2, x.3)
  ]

-- Rows with distinct ids: what is in one set of ids and not in the other shows at its row.
module _ (p q : TestAttemptOption → Bool) (options : List TestAttemptOption) where
  subset-holds :
      Distinct options
      → subset (ids_where p options) (ids_where q options) ≡ true
      → (o : TestAttemptOption) → In o options
      → p o ≡ true
      → q o ≡ true
  subset-holds distinct h o i t =
      let x = mem-In q o.id options (subset-mem _ _ o.id h (In-mem p i t)) in
      let row : o ≡ x.0 =
        same_row (λ (r : TestAttemptOption). r.id) i x.1 (sym x.3) (distinct o.id) in
      subst (λ r. q r ≡ true) (sym row) x.2

  holds-subset :
      ((o : TestAttemptOption) → In o options → p o ≡ true → q o ≡ true)
      → subset (ids_where p options) (ids_where q options) ≡ true
  holds-subset h = mem-subset _ _ λ k m.
      let x = mem-In p k options m in
      subst (λ j. mem j (ids_where q options) ≡ true) x.3 (In-mem q x.1 (h x.0 x.1 x.2))

All-of {ℓ κ} :
    {A : Type ℓ} (P : A → Type κ) (rows : List A) → ((a : A) → In a rows → P a) → All P rows
All-of P [] h = tt
All-of P (a ∷ rows) h = (h a (here rows), All-of P rows (λ b i. h b (there a i)))

same_bool : (a b : Bool) → (a ≡ true → b ≡ true) → (b ≡ true → a ≡ true) → a ≡ b
same_bool true b h k = sym (h refl)
same_bool false true h k = k refl
same_bool false false h k = refl

same_set-IsRight :
    (q : TestAttemptQuestion)
    → Distinct q.options
    → same_set (ids_where (λ o. o.is_selected) q.options) (ids_where (λ o. o.is_correct) q.options)
      ≡ true
    → IsRight q
same_set-IsRight q distinct h = All-of _ q.options λ o i.
    same_bool o.is_selected o.is_correct
      (subset-holds (λ r. r.is_selected) (λ r. r.is_correct) q.options distinct (ground arith) o i)
      (subset-holds (λ r. r.is_correct) (λ r. r.is_selected) q.options distinct (ground arith) o i)

IsRight-same_set :
    (q : TestAttemptQuestion)
    → IsRight q
    → same_set (ids_where (λ o. o.is_selected) q.options) (ids_where (λ o. o.is_correct) q.options)
      ≡ true
IsRight-same_set q right =
    let there_to =
      holds-subset (λ r. r.is_selected) (λ r. r.is_correct) q.options
        (λ o i t. sym (All-In (λ r. r.is_selected ≡ r.is_correct) right i) ∙ t) in
    let back =
      holds-subset (λ r. r.is_correct) (λ r. r.is_selected) q.options
        (λ o i t. All-In (λ r. r.is_selected ≡ r.is_correct) right i ∙ t) in
    rw there_to back

pub compute_awarded_cases :
    (q : TestAttemptQuestion)
    → Distinct q.options
    → (IsRight q × (compute_awarded q ≡ q.points)) ⊎ ((¬ IsRight q) × (compute_awarded q ≡ 0))
unfolding compute_awarded
compute_awarded_cases q distinct =
    elim (Bool-cases (
      same_set (ids_where (λ o. o.is_selected) q.options)
        (ids_where (λ o. o.is_correct) q.options))) [
          | inl hit ↦ inl (same_set-IsRight q distinct hit, rw hit refl)
          | inr miss ↦ inr ((λ right. let k = IsRight-same_set q right in cc), rw miss refl)
        ]
