-- ===== src/Calendar/Months.antt =====
-- `add_months` of src/app/services/entitlements.py: where the shifted datetime lies.
use smenka_back.Prelude.{ℕ, ◌+◌, ◌-◌, ◌*◌, ◌/◌, ◌%◌, ◌≤◌, ◌<◌, min, ◌≡◌, refl, arith, ok}
use smenka_back.Calendar.{Date, day, days_in_month, ordinal, date_of, add_months}
use smenka_back.Calendar.Blocks.{days_in_month_pos}
use smenka_back.Calendar.Civil.{IsValid, civil-IsValid, ordinal-civil, ordinal-lt, civil-ordinal}

-- The months since year 0 of a date.
abbrev pub month_index : Date → ℕ
month_index t = t.year * 12 + (t.month - 1)

-- The date that the source computes.
abbrev pub shifted : Date → ℕ → Date
shifted d months =
    let y = d.year + (d.month - 1 + months) / 12 in
    let m = (d.month - 1 + months) % 12 + 1 in
    record { year = y; month = m; day_of_month = min d.day_of_month (days_in_month y m) }

shifted-IsValid : (d : Date) (months : ℕ) → IsValid d → IsValid (shifted d months)
shifted-IsValid d months v =
    let y = d.year + (d.month - 1 + months) / 12 in
    let m = (d.month - 1 + months) % 12 + 1 in omega (arith, days_in_month_pos y m)

add_months-eq :
    (dt months r : ℕ)
    → add_months dt months ≡ ok r
    → r ≡ ordinal (shifted (date_of dt) months) * day + dt % day
unfolding add_months
add_months-eq dt months r e = ground arith

-- The date of the shifted datetime is `months` months on, on the same day of the month or on the
-- last day of a shorter month, and the time of day is kept.
pub date_of-add_months :
    (dt months r : ℕ)
    → add_months dt months ≡ ok r
    → (month_index (date_of r) ≡ month_index (date_of dt) + months)
      × ((date_of r).day_of_month
          ≡ min (date_of dt).day_of_month (days_in_month (date_of r).year (date_of r).month))
      × (r % day ≡ dt % day)
date_of-add_months dt months r e =
    let v = civil-IsValid (dt / day) in
    let s = shifted (date_of dt) months in
    let at_day : r / day ≡ ordinal s = omega (arith, add_months-eq dt months r e) in
    let same : date_of r ≡ s =
      rw at_day (civil-ordinal s (shifted-IsValid (date_of dt) months v)) in
    (rw same (omega arith), rw same refl, omega (arith, add_months-eq dt months r e))

-- A shift by at least one month moves a datetime forward.
pub add_months-lt : (dt months r : ℕ) → 1 ≤ months → add_months dt months ≡ ok r → dt < r
add_months-lt dt months r h e =
    let d = date_of dt in
    let v = civil-IsValid (dt / day) in
    let later : ordinal d < ordinal (shifted d months) =
      ordinal-lt d (shifted d months) v (shifted-IsValid d months v) (omega arith) in
    omega (arith, add_months-eq dt months r e, ordinal-civil (dt / day))
