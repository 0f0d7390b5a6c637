-- ===== src/Payroll/Rates.antt =====
-- `_rate_for_moment` of src/app/services/payroll.py and the rate that is in force.
use smenka_back.Prelude.{
  ℕ, zero, suc, ◌≤◌, ◌<◌, ◌≡◌, refl, Option, none, some, List, [], ◌∷◌, arith, leb, All, All-In, In,
  here, there, Bool-cases, inl, inr,
}
use smenka_back.Payroll.{MemberRate, bisect_right, get_elem?, before_index, rate_for_moment}

-- `ORDER BY effective_from`
abbrev pub IsSorted : List MemberRate → Type 0
IsSorted [] = Unit
IsSorted (r ∷ rates) = All (λ q. r.effective_from ≤ q.effective_from) rates × IsSorted rates

abbrev pub InForce : List MemberRate → ℕ → MemberRate → Type 0
InForce rates moment r =
    In r rates
    × (r.effective_from ≤ moment)
    × All (λ q. q.effective_from ≤ moment → q.effective_from ≤ r.effective_from) rates

-- What the search returns.
abbrev pub Answers : List MemberRate → ℕ → Option MemberRate → Type 0
Answers rates moment none = All (λ q. moment < q.effective_from) rates
Answers rates moment (some r) = InForce rates moment r

later_than :
    (from moment : ℕ) (rates : List MemberRate)
    → moment < from
    → All (λ q. from ≤ q.effective_from) rates
    → All (λ q. moment < q.effective_from) rates
later_than from moment [] h all = tt
later_than from moment (q ∷ rates) h all =
    (omega (arith, h, all.0), later_than from moment rates h all.1)

none_before :
    (from moment : ℕ) (rates : List MemberRate)
    → All (λ q. moment < q.effective_from) rates
    → All (λ q. q.effective_from ≤ moment → q.effective_from ≤ from) rates
none_before from moment [] all = tt
none_before from moment (q ∷ rates) all =
    (λ h. omega (arith, h, all.0), none_before from moment rates all.1)

-- What an index of the search stands for.
abbrev Found : List MemberRate → ℕ → ℕ → Type 0
Found rates moment zero = All (λ q. moment < q.effective_from) rates
Found rates moment (suc i) =
    (r : MemberRate) × (get_elem? rates i ≡ some r) × InForce rates moment r

-- A first rate that is not later is in force itself, or gives way to one of the rest.
step-Found :
    (r : MemberRate) (rates : List MemberRate) (moment i : ℕ)
    → r.effective_from ≤ moment
    → All (λ q. r.effective_from ≤ q.effective_from) rates
    → Found rates moment i
    → Found (r ∷ rates) moment (suc i)
step-Found r rates moment zero h all later =
    (r, refl, (here rates, h, (λ _. omega arith, none_before r.effective_from moment rates later)))
step-Found r rates moment (suc i) h all (q, e, (stored, le, latest)) =
    let first = All-In (λ x. r.effective_from ≤ x.effective_from) all stored in
    (q, e, (there r stored, le, (λ _. first, latest)))

bisect_right-Found :
    (rates : List MemberRate) (moment : ℕ)
    → IsSorted rates
    → Found rates moment (bisect_right rates moment)
unfolding bisect_right
bisect_right-Found [] moment sorted = tt
bisect_right-Found (r ∷ rates) moment sorted = elim (Bool-cases (leb r.effective_from moment)) [
  | inl before ↦ rw before (
      step-Found r rates moment (bisect_right rates moment) (ground arith) sorted.0
        (bisect_right-Found rates moment sorted.1))
  | inr after ↦
      rw after (ground arith, later_than r.effective_from moment rates (ground arith) sorted.0)
]

answer :
    (rates : List MemberRate) (moment i : ℕ)
    → Found rates moment i
    → Answers rates moment (before_index rates i)
answer rates moment zero later = later
answer rates moment (suc i) (r, e, found) = rw e found

-- In a history that is sorted by the date, the search answers with the rate whose date is the latest of
-- those that are not after the moment, and with none exactly if all the dates are after it.
pub rate_for_moment-Answers :
    (rates : List MemberRate) (moment : ℕ)
    → IsSorted rates
    → Answers rates moment (rate_for_moment rates moment)
unfolding rate_for_moment
rate_for_moment-Answers rates moment sorted =
    answer rates moment (bisect_right rates moment) (bisect_right-Found rates moment sorted)
