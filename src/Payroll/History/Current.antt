-- ===== src/Payroll/History/Current.antt =====
-- The rate in force, by `get_current_rates` and by `_rate_for_moment` of src/app/services/payroll.py.
use smenka_back.Prelude.{
  ℕ, ◌≤◌, ◌<◌, ◌≡◌, refl, ap, subst, Bool, true, false, Option, none, some, List, [], ◌∷◌, arith,
  ltb, leb, ◌==◌, if◌then◌else◌, Bool-cases, inl, inr, count, All, All-mono, All-In, In, here,
  there, same_row, leq_trans, any, ◌∙◌, ◌||◌,
}
use smenka_back.Payroll.{MemberRate, rate_for_moment}
use smenka_back.Payroll.Rates.{IsSorted, InForce, Answers, rate_for_moment-Answers}
use smenka_back.Payroll.History.{
  at_date, insert_by_date, order_by_date, rates_of, load_rates_asc, later_row, latest, current_rate,
  entry_of, add_entry, get_current_rates,
}
use smenka_back.Payroll.History.Unique.{Unique}

abbrev by_date : MemberRate → ℕ
by_date r = r.effective_from

module _ {κ} (P : MemberRate → Type κ) where
  insert-All :
      (r : MemberRate) (rates : List MemberRate)
      → P r
      → All P rates
      → All P (insert_by_date r rates)
  unfolding insert_by_date
  insert-All r [] h all = (h, tt)
  insert-All r (q ∷ rest) h all = elim (Bool-cases (leb r.effective_from q.effective_from)) [
    | inl before ↦ rw before (h, all)
    | inr after ↦ rw after (all.0, insert-All r rest h all.1)
  ]

  order-All : (rates : List MemberRate) → All P rates → All P (order_by_date rates)
  unfolding order_by_date
  order-All [] all = tt
  order-All (r ∷ rates) all = insert-All r (order_by_date rates) all.0 (order-All rates all.1)

  All-insert :
      (r : MemberRate) (rates : List MemberRate)
      → All P (insert_by_date r rates)
      → P r × All P rates
  unfolding insert_by_date
  All-insert r [] all = all
  All-insert r (q ∷ rest) all = elim (Bool-cases (leb r.effective_from q.effective_from)) [
    | inl before ↦ let both : All P (r ∷ q ∷ rest) = rw before at all in both
    | inr after ↦
        let both : All P (q ∷ insert_by_date r rest) = rw after at all in
        let later = All-insert r rest both.1 in (later.0, (both.0, later.1))
  ]

  All-order : (rates : List MemberRate) → All P (order_by_date rates) → All P rates
  unfolding order_by_date
  All-order [] all = tt
  All-order (r ∷ rates) all =
      let both = All-insert r (order_by_date rates) all in (both.0, All-order rates both.1)

after_first :
    (r q : MemberRate) (rest : List MemberRate)
    → r.effective_from ≤ q.effective_from
    → All (λ s. q.effective_from ≤ s.effective_from) rest
    → All (λ s. r.effective_from ≤ s.effective_from) rest
after_first r q [] h all = tt
after_first r q (s ∷ rest) h all = (leq_trans h all.0, after_first r q rest h all.1)

insert-IsSorted :
    (r : MemberRate) (rates : List MemberRate) → IsSorted rates → IsSorted (insert_by_date r rates)
unfolding insert_by_date
insert-IsSorted r [] sorted = (tt, tt)
insert-IsSorted r (q ∷ rest) sorted = elim (Bool-cases (leb r.effective_from q.effective_from)) [
  | inl before ↦ rw before ((ground arith, after_first r q rest (ground arith) sorted.0), sorted)
  | inr after ↦ rw after (
    insert-All (λ s. q.effective_from ≤ s.effective_from) r rest (ground arith) sorted.0,
    insert-IsSorted r rest sorted.1,
  )
]

order-IsSorted : (rates : List MemberRate) → IsSorted (order_by_date rates)
unfolding order_by_date
order-IsSorted [] = tt
order-IsSorted (r ∷ rates) = insert-IsSorted r (order_by_date rates) (order-IsSorted rates)

self_In : (rates : List MemberRate) → All (λ r. In r rates) rates
self_In [] = tt
self_In (r ∷ rates) = (
  here rates,
  All-mono (λ q. In q rates) (λ q. In q (r ∷ rates)) (λ q i. there r i) rates (self_In rates),
)

Answers-order :
    (rates : List MemberRate) (moment : ℕ) (answer : Option MemberRate)
    → Answers (order_by_date rates) moment answer
    → Answers rates moment answer
Answers-order rates moment none later = All-order (λ q. moment < q.effective_from) rates later
Answers-order rates moment (some r) (stored, le, newest) = (
  All-In (λ q. In q rates) (order-All (λ q. In q rates) rates (self_In rates)) stored,
  le,
  All-order (λ q. q.effective_from ≤ moment → q.effective_from ≤ r.effective_from) rates newest,
)

-- The rate of two that is later, before the rest.
later_row-Answers :
    (r : MemberRate) (rest : List MemberRate) (moment : ℕ) (answer : Option MemberRate)
    → r.effective_from ≤ moment
    → Answers rest moment answer
    → InForce (r ∷ rest) moment (later_row r answer)
later_row-Answers r rest moment none le later = (
  here rest,
  le,
  (
    λ _. omega arith,
    All-mono (λ q. moment < q.effective_from)
        (λ q. q.effective_from ≤ moment → q.effective_from ≤ r.effective_from)
        (λ q h k. omega (arith, h, k)) rest later,
  ),
)
later_row-Answers r rest moment (some q) le (stored, before, newest) =
    elim (Bool-cases (ltb r.effective_from q.effective_from)) [
      | inl older ↦
          let e : q ≡ later_row r (some q) = rw older in
          subst (λ s. InForce (r ∷ rest) moment s) e
            (there r stored, before, (λ _. ground arith, newest))
      | inr newer ↦
          let e : r ≡ later_row r (some q) = rw newer in
          subst (λ s. InForce (r ∷ rest) moment s) e
            (
              here rest,
              le,
              (
                λ _. omega arith,
                All-mono (λ s. s.effective_from ≤ moment → s.effective_from ≤ q.effective_from)
                    (λ s. s.effective_from ≤ moment → s.effective_from ≤ r.effective_from)
                    (λ s h k. not_after s.effective_from (h k) newer) rest newest,
              ),
            )
    ]
  where
    not_after :
        (date : ℕ)
        → date ≤ q.effective_from
        → ltb r.effective_from q.effective_from ≡ false
        → date ≤ r.effective_from
    not_after date h newer = ground arith

skip_later :
    (r : MemberRate) (rest : List MemberRate) (moment : ℕ) (answer : Option MemberRate)
    → leb r.effective_from moment ≡ false
    → Answers rest moment answer
    → Answers (r ∷ rest) moment answer
skip_later r rest moment none after later = (ground arith, later)
skip_later r rest moment (some q) after (stored, before, newest) =
    (there r stored, before, (λ h. ground arith, newest))

latest-Answers : (moment : ℕ) (rates : List MemberRate) → Answers rates moment (latest moment rates)
unfolding latest
latest-Answers moment [] = tt
latest-Answers moment (r ∷ rest) = elim (Bool-cases (leb r.effective_from moment)) [
  | inl before ↦ rw before (
      later_row-Answers r rest moment (latest moment rest) (ground arith)
        (latest-Answers moment rest))
  | inr after ↦
      rw after (skip_later r rest moment (latest moment rest) after (latest-Answers moment rest))
]

nothing_applies :
    (rates : List MemberRate) (moment : ℕ) (r : MemberRate)
    → All (λ q. moment < q.effective_from) rates
    → In r rates
    → r.effective_from ≤ moment
    → ⊥
nothing_applies rates moment r later stored le =
    let after = All-In (λ q. moment < q.effective_from) later stored in omega (arith, le, after)

-- Different dates leave one answer.
one_answer :
    (rates : List MemberRate) (moment : ℕ) (a b : Option MemberRate)
    → ((date : ℕ) → count (λ q. q.effective_from == date) rates ≤ 1)
    → Answers rates moment a
    → Answers rates moment b
    → a ≡ b
one_answer rates moment none none unique x y = refl
one_answer rates moment none (some q) unique x y = absurd (nothing_applies rates moment q x y.0 y.1)
one_answer rates moment (some r) none unique x y = absurd (nothing_applies rates moment r y x.0 x.1)
one_answer rates moment (some r) (some q) unique (i, r_le, r_last) (j, q_le, q_last) =
    let r_newest =
      All-In (λ s. s.effective_from ≤ moment → s.effective_from ≤ r.effective_from) r_last j in
    let q_newest =
      All-In (λ s. s.effective_from ≤ moment → s.effective_from ≤ q.effective_from) q_last i in
    ap some
      (same_row by_date i j (omega (arith, r_newest q_le, q_newest r_le)) (unique r.effective_from))

rates_of-dates :
    (member_id date : ℕ) (rates : List MemberRate)
    → count (λ q. q.effective_from == date) (rates_of member_id rates)
      ≤ count (at_date member_id date) rates
rates_of-dates member_id date [] = omega arith
rates_of-dates member_id date (r ∷ rates) = ground (arith, rates_of-dates member_id date rates)

current_rate-rate_for_moment :
    (rates : List MemberRate) (member_id moment : ℕ)
    → Unique rates
    → current_rate rates member_id moment ≡ rate_for_moment (load_rates_asc rates member_id) moment
unfolding current_rate load_rates_asc
current_rate-rate_for_moment rates member_id moment x =
    let own = rates_of member_id rates in
    one_answer own moment _ _
      (λ date. leq_trans (rates_of-dates member_id date rates) (x.unique_dates member_id date))
      (latest-Answers moment own)
      (Answers-order own moment _
        (rate_for_moment-Answers (order_by_date own) moment (order-IsSorted own)))

add-entry :
    (k member_id : ℕ) (mine own : Option MemberRate) (entries : List (ℕ × MemberRate))
    (asked : Bool)
    → (k ≡ member_id → mine ≡ own)
    → entry_of entries member_id ≡ (if asked then own else none)
    → entry_of (add_entry k mine entries) member_id
      ≡ (if k == member_id || asked then own else none)
unfolding entry_of
add-entry k member_id none none entries asked same rest = ground arith
add-entry k member_id none (some r) entries asked same rest = ground arith
add-entry k member_id (some q) none entries asked same rest = ground arith
add-entry k member_id (some q) (some r) entries asked same rest = ground arith

-- A member that is asked for has its current rate, and any other member has none.
entry-current :
    (rates : List MemberRate) (ids : List ℕ) (member_id moment : ℕ)
    → entry_of (get_current_rates rates ids moment) member_id
      ≡ (if any (λ k. k == member_id) ids then current_rate rates member_id moment else none)
unfolding get_current_rates entry_of
entry-current rates [] member_id moment = refl
entry-current rates (k ∷ ids) member_id moment =
    add-entry k member_id (current_rate rates k moment) (current_rate rates member_id moment)
      (get_current_rates rates ids moment) (any (λ j. j == member_id) ids)
      (λ e. ap (λ j. current_rate rates j moment) e) (entry-current rates ids member_id moment)

-- In a history where a member has no two rates from one date, the rate that the dict of current rates has
-- for a member that is asked for is the one by which the report pays a shift that starts at that moment;
-- it has none exactly where that shift is unpaid.
pub get_current_rates-rate_for_moment :
    (rates : List MemberRate) (ids : List ℕ) (member_id moment : ℕ)
    → Unique rates
    → any (λ k. k == member_id) ids ≡ true
    → entry_of (get_current_rates rates ids moment) member_id
      ≡ rate_for_moment (load_rates_asc rates member_id) moment
get_current_rates-rate_for_moment rates ids member_id moment x asked =
    entry-current rates ids member_id moment
    ∙ rw asked (current_rate-rate_for_moment rates member_id moment x)
