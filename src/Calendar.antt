-- ===== src/Calendar.antt =====
-- Python's `datetime`, as far as src/app/services uses it: an aware UTC datetime is the number of
-- microseconds since 0001-01-01T00:00:00, and its civil fields are computed by the proleptic
-- Gregorian calendar. `add_months` is src/app/services/entitlements.py's.
pub mod Blocks
pub mod Civil
pub mod Months
use smenka_back.Prelude.{
  ℕ, zero, suc, ◌+◌, ◌-◌, ◌*◌, ◌/◌, ◌%◌, min, Bool, ◌&&◌, ◌||◌, not, ltb, ◌==◌, if◌then◌else◌,
  Result, ok, err, crash,
}

abbrev pub second : ℕ
second = 1000000

abbrev pub minute : ℕ
minute = 60000000

abbrev pub day : ℕ
day = 86400000000

abbrev pub max_year : ℕ
max_year = 9999

unfoldable pub is_leap : ℕ → Bool
is_leap y = y % 4 == 0 && (not (y % 100 == 0) || y % 400 == 0)

abbrev pub february : ℕ → ℕ
february y = if is_leap y then 29 else 28

abbrev pub has_thirty : ℕ → Bool
has_thirty m = (m == 4) || (m == 6) || (m == 9) || (m == 11)

-- `calendar.monthrange(year, month)[1]`
unfoldable pub days_in_month : ℕ → ℕ → ℕ
days_in_month y m = if m == 2 then february y else if has_thirty m then 30 else 31

unfoldable pub days_before_year : ℕ → ℕ
days_before_year y = let p = y - 1 in p * 365 + p / 4 - p / 100 + p / 400

abbrev pub days_before_month : ℕ → ℕ → ℕ
days_before_month year zero = 0
days_before_month year (suc zero) = 0
days_before_month year (suc (suc k)) =
    let january_on = days_before_month year (suc k) in january_on + days_in_month year (suc k)

-- A calendar date.
pub record Date : Type 0 where
  pub year : ℕ
  pub month : ℕ
  pub day_of_month : ℕ

-- Days since 0001-01-01.
unfoldable pub ordinal : Date → ℕ
ordinal t = days_before_year t.year + days_before_month t.year t.month + (t.day_of_month - 1)

-- The month of day `n` of a year from month `m` on, with `left` months to go.
unfoldable pub find_month : ℕ → ℕ → ℕ → ℕ → Date
find_month y zero m n = record { year = y; month = m; day_of_month = n + 1 }
find_month y (suc left) m n =
    let later = find_month y left (m + 1) (n - days_in_month y m) in
    if ltb n (days_in_month y m)
    then record { year = y; month = m; day_of_month = n + 1 }
    else later

-- The year of a day, less 1, and the day's index in that year: by cycles of 400, 100, 4 and 1.
unfoldable pub year_split : ℕ → ℕ × ℕ
year_split n =
    let a = n % 146097 in
    let b = a % 36524 in
    let c = b % 1461 in
    let base = n / 146097 * 400 + a / 36524 * 100 + b / 1461 * 4 + c / 365 in
    if (c / 365 == 4) || (a / 36524 == 4) then (base - 1, 365) else (base, c % 365)

-- The date of a day.
unfoldable pub civil : ℕ → Date
civil n = find_month ((year_split n).0 + 1) 11 1 (year_split n).1

-- The day and the time in the day of a datetime.
abbrev pub date_of : ℕ → Date
date_of t = civil (t / day)

abbrev pub datetime : Date → ℕ → ℕ
datetime d time = ordinal d * day + time

-- `add_months(dt, months)`: the day is clamped to the length of the target month. `replace`
-- raises ValueError past the year 9999.
unfoldable pub add_months : ℕ → ℕ → Result ℕ
add_months dt months =
    let d = date_of dt in
    let month_index = d.month - 1 + months in
    let y = d.year + month_index / 12 in
    let m = month_index % 12 + 1 in
    let target : Date = record {
      year = y;
      month = m;
      day_of_month = min d.day_of_month (days_in_month y m);
    } in
    if ltb max_year y then err crash else ok (datetime target (dt % day))

-- Everything that a test of the calendar computes with.
unfoldable pub calendar : Unit {0}
unfolding is_leap days_in_month days_before_year ordinal find_month year_split civil add_months
calendar = tt
