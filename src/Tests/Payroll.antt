-- ===== src/Tests/Payroll.antt =====
-- The earnings report at concrete inputs.
use smenka_back.Prelude.{
  truncate_div, ℕ, ◌*◌, ◌+◌, ◌≤◌, ◌<◌, ◌≡◌, refl, false, none, some, List, [], ◌∷◌, pos, negsuc,
  ◌+ℤ◌, ◌-ℤ◌, arith,
}
use smenka_back.Calendar.{day, minute, calendar}
use smenka_back.Shifts.{ShiftStatus, Shift}
use smenka_back.Shifts.Clock.{calculate_worked_seconds, minus_pauses, compute_late_seconds}
use smenka_back.Payroll.{
  RateType, MemberRate, bisect_right, rate_for_moment, half_up, seconds_per_hour,
  shift_amount_minor, overtime_minutes, of_shift, add_shifts, calc_earnings,
}
use smenka_back.Payroll.Breakdown.{by_week, total, build_breakdown}
use smenka_back.Payroll.Rates.{IsSorted, Answers, rate_for_moment-Answers}
use smenka_back.Payroll.Rounding.{shift_amount_minor-hourly, IsSplit, calc_earnings-IsSplit}
use smenka_back.Payroll.Totals.{build_breakdown-calc_earnings}
use smenka_back.Access.{is_some}
use smenka_back.Payroll.Adjustments.{
  AdjustmentRow, CategoryEntry, adjustment_fields, by_category, merge_category_amounts,
}
use smenka_back.Payroll.Balance.{amount_of, operations_of, adjustment_fields_lem}
use smenka_back.Payroll.Merged.{all_amounts, all_operations, merge_category_amounts_lem}

abbrev hour_rate : ℕ → ℕ → MemberRate
hour_rate amount from = record {
  id = from;
  member_id = 5;
  rate_amount_minor = amount;
  rate_type = RateType.hourly;
  currency = "RUB";
  effective_from = from;
  note = none;
}

abbrev history : List MemberRate
history = hour_rate 20000 0 ∷ hour_rate 30000 (2 * day) ∷ []

-- A shift of `minutes` from noon of day `d`.
abbrev worked : ℕ → ℕ → ℕ → Shift
worked id d minutes = record {
  id = id;
  user_id = 11;
  organization_id = some 1;
  work_location_id = none;
  started_at = d * day + 720 * minute;
  finished_at = some (d * day + (720 + minutes) * minute);
  status = ShiftStatus.finished;
  has_incomplete_required_checklists = false;
  is_deleted = false;
  work_schedule_id = none;
  schedule_name = none;
  scheduled_start_at = none;
  scheduled_end_at = none;
  finish_reason = none;
  created_by_user_id = none;
  edited_by_user_id = none;
  edited_at = none;
  deleted_by_user_id = none;
  deleted_at = none;
  manual_note = none;
  pauses = [];
}

abbrev week : List Shift
week = worked 1 0 90 ∷ worked 2 3 60 ∷ worked 3 8 61 ∷ []

unfoldable run : Unit {0}
unfolding calendar minus_pauses calculate_worked_seconds compute_late_seconds truncate_div
    bisect_right rate_for_moment half_up shift_amount_minor overtime_minutes of_shift add_shifts
    calc_earnings ◌+ℤ◌ ◌-ℤ◌
run = tt

-- 1.5 hours at 200, an hour at 300 with half an hour of overtime, and 61 minutes at 300.
week_gross : (calc_earnings history ((2, 30) ∷ []) 0 0 week).sums.gross_amount_minor ≡ pos 105500
unfolding run
week_gross = refl

build_breakdown-calc_earnings_example :
    ((build_breakdown history ((2, 30) ∷ []) 0 0 (λ t. t + 180 * minute) by_week week).1
      ≡ calc_earnings history ((2, 30) ∷ []) 0 0 week)
    × (total (build_breakdown history ((2, 30) ∷ []) 0 0 (λ t. t + 180 * minute) by_week week).0
        ≡ (calc_earnings history ((2, 30) ∷ []) 0 0 week).sums)
build_breakdown-calc_earnings_example =
    build_breakdown-calc_earnings history ((2, 30) ∷ []) 0 0 (λ t. t + 180 * minute) by_week week

calc_earnings-IsSplit_example : IsSplit (calc_earnings history ((2, 30) ∷ []) 0 0 week).sums
calc_earnings-IsSplit_example = calc_earnings-IsSplit history ((2, 30) ∷ []) 0 0 week

history-IsSorted : IsSorted history
history-IsSorted = ((omega arith, tt), (tt, tt))

rate_for_moment-Answers_example : Answers history (3 * day) (rate_for_moment history (3 * day))
rate_for_moment-Answers_example = rate_for_moment-Answers history (3 * day) history-IsSorted

shift_amount_minor-hourly_example :
    (k : ℕ) × (shift_amount_minor (hour_rate 20000 0) (pos 61) ≡ pos k)
    × (2 * (k * seconds_per_hour) ≤ 2 * (61 * 20000) + seconds_per_hour)
    × (2 * (61 * 20000) < 2 * (k * seconds_per_hour) + seconds_per_hour)
shift_amount_minor-hourly_example = shift_amount_minor-hourly (hour_rate 20000 0) 61 refl

-- A bonus of 500 and a deduction of 200 without a category, and a bonus of 300 in category 8.
abbrev operations : List AdjustmentRow
operations =
    record {
      category_id = none;
      category_name = none;
      category_is_deleted = false;
      amount_minor = pos 50000;
    }
    ∷ record {
      category_id = some 8;
      category_name = some "Tips";
      category_is_deleted = false;
      amount_minor = pos 30000;
    }
    ∷ record {
      category_id = none;
      category_name = none;
      category_is_deleted = false;
      amount_minor = negsuc 19999;
    }
    ∷ []

adjustment_fields_lem_example :
    let f = adjustment_fields (λ a b. is_some b.category_id) operations in
    (f.adjustment_accrual_minor -ℤ f.adjustment_deduction_minor ≡ f.adjustment_amount_minor)
    × (amount_of f.adjustments_by_category ≡ f.adjustment_amount_minor)
    × (operations_of f.adjustments_by_category ≡ f.adjustments_count)
adjustment_fields_lem_example = adjustment_fields_lem (λ a b. is_some b.category_id) operations

abbrev both : List (List CategoryEntry)
both = by_category [] operations ∷ by_category [] operations ∷ []

merge_category_amounts_lem_example :
    (amount_of (merge_category_amounts (λ a b. is_some b.category_id) both) ≡ all_amounts both)
    × (operations_of (merge_category_amounts (λ a b. is_some b.category_id) both)
        ≡ all_operations both)
merge_category_amounts_lem_example = merge_category_amounts_lem (λ a b. is_some b.category_id) both
