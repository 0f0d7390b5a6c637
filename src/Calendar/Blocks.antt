-- ===== src/Calendar/Blocks.antt =====
-- Months in a year and years in the calendar, as consecutive blocks of days.
use native.Mathlib.Nat.{le_refl, le_trans}
use native.Mathlib.Decide.{le_ind}
use smenka_back.Prelude.{ℕ, zero, suc, ◌+◌, ◌≤◌, ◌≡◌, refl, arith, if◌then◌else◌}
use smenka_back.Calendar.{is_leap, days_in_month, days_before_year, days_before_month}

abbrev pub days_in_year : ℕ → ℕ
days_in_year y = if is_leap y then 366 else 365

pub days_before_month-suc :
    (year k : ℕ)
    → 1 ≤ k
    → days_before_month year (suc k) ≡ days_before_month year k + days_in_month year k
days_before_month-suc year (suc k) later = refl
days_before_month-suc year zero later = absurd (omega (arith, later))

-- The closed formula of `days_before_year` agrees with the leap rule.
pub days_before_year-suc :
    (y : ℕ) → 1 ≤ y → days_before_year (suc y) ≡ days_before_year y + days_in_year y
unfolding days_before_year is_leap
days_before_year-suc y h = ground arith

pub twelve_months : (y : ℕ) → days_before_month y 13 ≡ days_in_year y
unfolding days_in_month is_leap
twelve_months y = ground arith

pub days_before_month_mono :
    (y m k : ℕ) → 1 ≤ m → m ≤ k → days_before_month y m ≤ days_before_month y k
days_before_month_mono y m k h =
    le_ind (λ j. days_before_month y m ≤ days_before_month y j) (le_refl _)
      (λ j le ih. omega (arith, days_before_month-suc y j (le_trans h le))) k

pub days_before_year_mono : (y z : ℕ) → 1 ≤ y → y ≤ z → days_before_year y ≤ days_before_year z
days_before_year_mono y z h =
    le_ind (λ j. days_before_year y ≤ days_before_year j) (le_refl _)
      (λ j le ih. omega (arith, days_before_year-suc j (le_trans h le))) z

pub days_in_month_pos : (y m : ℕ) → 28 ≤ days_in_month y m
unfolding days_in_month
days_in_month_pos y m = ground arith
