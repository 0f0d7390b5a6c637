-- ===== src/Payroll.antt =====
-- The earnings report of src/app/services/payroll.py, over shifts (`Shifts`) and the history of rates.
-- `Decimal`'s 28 digits are enough for its quotients, which are exact here.
pub mod Breakdown
pub mod Adjustments
pub mod Rates
pub mod Rounding
pub mod Adding
pub mod Totals
pub mod Balance
pub mod Merged
pub mod History
use smenka_back.Prelude.{
  truncate_div, ℕ, zero, suc, ◌+◌, ◌*◌, ◌/◌, ◌-◌, ◌%◌, Bool, true, false, not, ◌&&◌, ◌||◌, Option,
  none, some, List, [], ◌∷◌, ◌++◌, String, ℤ, pos, negsuc, sub_ℕ, ◌+ℤ◌, ◌-ℤ◌, ltb, leb, ◌==◌,
  if◌then◌else◌, length, ltb_ℤ,
}
use smenka_back.Calendar.{Date, second, day, ordinal, civil}
use smenka_back.Shifts.{Shift}
use smenka_back.Shifts.Clock.{calculate_worked_seconds, compute_late_seconds}

pub data RateType : Type 0 where
  hourly per_shift : RateType

-- The API takes positive amounts only.
pub record MemberRate : Type 0 where
  pub id : ℕ
  pub member_id : ℕ
  pub rate_amount_minor : ℕ
  pub rate_type : RateType
  pub currency : String
  pub effective_from : ℕ
  pub note : Option String

-- `bisect.bisect_right` on a sorted list: how many keys are at most the moment.
unfoldable pub bisect_right : List MemberRate → ℕ → ℕ
bisect_right [] moment = 0
bisect_right (r ∷ rates) moment =
    let rest = bisect_right rates moment in if leb r.effective_from moment then suc rest else 0

abbrev pub get_elem? {ℓ} : {A : Type ℓ} → List A → ℕ → Option A
get_elem? [] i = none
get_elem? (x ∷ xs) zero = some x
get_elem? (x ∷ xs) (suc i) = get_elem? xs i

-- `rates_asc[idx - 1] if idx else None`
abbrev pub before_index : List MemberRate → ℕ → Option MemberRate
before_index rates zero = none
before_index rates (suc i) = get_elem? rates i

unfoldable pub rate_for_moment : List MemberRate → ℕ → Option MemberRate
rate_for_moment rates_asc moment = before_index rates_asc (bisect_right rates_asc moment)

abbrev pub seconds_per_hour : ℕ
seconds_per_hour = 3600

-- A quotient by 3600, rounded half up: away from zero at a half.
unfoldable pub half_up : ℤ → ℤ
half_up (pos n) = pos ((2 * n + seconds_per_hour) / (2 * seconds_per_hour))
half_up (negsuc n) = sub_ℕ 0 ((2 * suc n + seconds_per_hour) / (2 * seconds_per_hour))

abbrev pub times : ℤ → ℕ → ℤ
times (pos n) k = pos (n * k)
times (negsuc n) k = sub_ℕ 0 (suc n * k)

abbrev pub amount_for : RateType → ℕ → ℤ → ℤ
amount_for RateType.hourly amount seconds = half_up (times seconds amount)
amount_for RateType.per_shift amount seconds = pos amount

unfoldable pub shift_amount_minor : MemberRate → ℤ → ℤ
shift_amount_minor rate seconds = amount_for rate.rate_type rate.rate_amount_minor seconds

-- The fields that the loop of `_calc_earnings` adds up.
pub record Sums : Type 0 where
  pub worked_seconds : ℕ
  pub overtime_seconds : ℕ
  pub shifts_count : ℕ
  pub gross_amount_minor : ℤ
  pub base_amount_minor : ℤ
  pub overtime_amount_minor : ℤ
  pub unpaid_seconds : ℕ
  pub unpaid_shifts_count : ℕ
  pub planned_seconds : ℤ
  pub planned_amount_minor : ℤ
  pub late_count : ℕ
  pub late_seconds_total : ℕ

abbrev pub no_sums : Sums
no_sums = record {
  worked_seconds = 0;
  overtime_seconds = 0;
  shifts_count = 0;
  gross_amount_minor = pos 0;
  base_amount_minor = pos 0;
  overtime_amount_minor = pos 0;
  unpaid_seconds = 0;
  unpaid_shifts_count = 0;
  planned_seconds = pos 0;
  planned_amount_minor = pos 0;
  late_count = 0;
  late_seconds_total = 0;
}

abbrev pub plus : Sums → Sums → Sums
plus a b = record {
  worked_seconds = a.worked_seconds + b.worked_seconds;
  overtime_seconds = a.overtime_seconds + b.overtime_seconds;
  shifts_count = a.shifts_count + b.shifts_count;
  gross_amount_minor = a.gross_amount_minor +ℤ b.gross_amount_minor;
  base_amount_minor = a.base_amount_minor +ℤ b.base_amount_minor;
  overtime_amount_minor = a.overtime_amount_minor +ℤ b.overtime_amount_minor;
  unpaid_seconds = a.unpaid_seconds + b.unpaid_seconds;
  unpaid_shifts_count = a.unpaid_shifts_count + b.unpaid_shifts_count;
  planned_seconds = a.planned_seconds +ℤ b.planned_seconds;
  planned_amount_minor = a.planned_amount_minor +ℤ b.planned_amount_minor;
  late_count = a.late_count + b.late_count;
  late_seconds_total = a.late_seconds_total + b.late_seconds_total;
}

-- The result of `_calc_earnings`.
pub record Earnings : Type 0 where
  pub sums : Sums
  pub has_missing_rate : Bool
  pub delta_amount_minor : ℤ

-- `overtime_map.get(shift.id, 0)`
unfoldable pub overtime_minutes : List (ℕ × ℕ) → ℕ → ℕ
overtime_minutes [] shift_id = 0
overtime_minutes ((k, minutes) ∷ rest) shift_id =
    if k == shift_id then minutes else overtime_minutes rest shift_id

-- The planned window in seconds; the time that was worked, if there is no window.
abbrev pub planned_of : Option ℕ → Option ℕ → ℕ → ℤ
planned_of (some from) (some until) seconds = truncate_div (sub_ℕ until from) second
planned_of _ _ seconds = pos seconds

-- What is paid of a shift: with a rate, or without.
pub record Paid : Type 0 where
  pub gross : ℤ
  pub base : ℤ
  pub planned : ℤ
  pub unpaid_seconds : ℕ
  pub unpaid_count : ℕ

abbrev pub paid_at : Option MemberRate → ℕ → ℕ → ℤ → Paid
paid_at none seconds overtime planned = record {
  gross = pos 0;
  base = pos 0;
  planned = pos 0;
  unpaid_seconds = seconds;
  unpaid_count = 1;
}
paid_at (some rate) seconds overtime planned = record {
  gross = shift_amount_minor rate (pos (seconds + overtime));
  base = shift_amount_minor rate (pos seconds);
  planned = shift_amount_minor rate planned;
  unpaid_seconds = 0;
  unpaid_count = 0;
}

abbrev pub late_of : Option ℕ → ℕ
late_of none = 0
late_of (some late) = late

-- What one turn of the loop adds.
unfoldable pub of_shift : List MemberRate → List (ℕ × ℕ) → ℕ → ℕ → Shift → Sums
of_shift rates overtime_map tolerance now s =
    let seconds = calculate_worked_seconds s now in
    let overtime = overtime_minutes overtime_map s.id * 60 in
    let planned = planned_of s.scheduled_start_at s.scheduled_end_at seconds in
    let late = late_of (compute_late_seconds s tolerance) in
    let paid = paid_at (rate_for_moment rates s.started_at) seconds overtime planned in
    record {
      worked_seconds = seconds;
      overtime_seconds = overtime;
      shifts_count = 1;
      gross_amount_minor = paid.gross;
      base_amount_minor = paid.base;
      overtime_amount_minor = paid.gross -ℤ paid.base;
      unpaid_seconds = paid.unpaid_seconds;
      unpaid_shifts_count = paid.unpaid_count;
      planned_seconds = planned;
      planned_amount_minor = paid.planned;
      late_count = if ltb 0 late then 1 else 0;
      late_seconds_total = late;
    }

module _ (rates : List MemberRate) (overtime_map : List (ℕ × ℕ)) (tolerance now : ℕ) where
  unfoldable pub add_shifts : Sums → List Shift → Sums
  add_shifts acc [] = acc
  add_shifts acc (s ∷ shifts) =
      add_shifts (plus acc (of_shift rates overtime_map tolerance now s)) shifts

  unfoldable pub calc_earnings : List Shift → Earnings
  calc_earnings shifts =
      let sums = add_shifts no_sums shifts in
      record {
        sums = sums;
        has_missing_rate = ltb 0 sums.unpaid_shifts_count;
        delta_amount_minor = sums.gross_amount_minor -ℤ sums.planned_amount_minor;
      }
