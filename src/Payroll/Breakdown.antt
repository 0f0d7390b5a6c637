-- ===== src/Payroll/Breakdown.antt =====
-- `_bucket_start` and `_build_breakdown` of src/app/services/payroll.py.
use smenka_back.Prelude.{
  ℕ, ◌/◌, ◌-◌, ◌%◌, Bool, false, ◌||◌, List, [], ◌∷◌, ◌++◌, ◌-ℤ◌, leb, ◌==◌, if◌then◌else◌,
}
use smenka_back.Calendar.{day, ordinal, civil}
use smenka_back.Shifts.{Shift}
use smenka_back.Payroll.{no_sums, plus, calc_earnings, MemberRate, Sums, Earnings}

pub data Granularity : Type 0 where
  by_day by_week by_month : Granularity

-- The first day of a bucket; day 0 is a Monday.
unfoldable pub bucket_start : Granularity → ℕ → ℕ
bucket_start by_day d = d
bucket_start by_week d = d - d % 7
bucket_start by_month d = ordinal (record (civil d) { day_of_month = 1 })

-- `shifts_by_day[day].append(shift)`, a dict in the order of insertion.
unfoldable pub append_to : ℕ → Shift → List (ℕ × List Shift) → List (ℕ × List Shift)
append_to d s [] = (d, s ∷ []) ∷ []
append_to d s ((k, group) ∷ rest) =
    let later = append_to d s rest in
    if k == d then (k, group ++ s ∷ []) ∷ rest else (k, group) ∷ later

-- `local` is the conversion to the time of the zone.
unfoldable pub group_by_day : (ℕ → ℕ) → List (ℕ × List Shift) → List Shift → List (ℕ × List Shift)
group_by_day local days [] = days
group_by_day local days (s ∷ shifts) =
    group_by_day local (append_to (local s.started_at / day) s days) shifts

pub record Bucket : Type 0 where
  pub start : ℕ
  pub sums : Sums
  pub has_missing_rate : Bool

-- `buckets.setdefault(start, zeros)`, and the sums of a day added.
unfoldable pub add_day : ℕ → Earnings → List Bucket → List Bucket
add_day start daily [] =
    record {
      start = start;
      sums = plus no_sums daily.sums;
      has_missing_rate = daily.has_missing_rate;
    }
    ∷ []
add_day start daily (b ∷ rest) =
    let later = add_day start daily rest in
    if b.start == start
    then record {
      start = b.start;
      sums = plus b.sums daily.sums;
      has_missing_rate = b.has_missing_rate || daily.has_missing_rate;
    }
      ∷ rest
    else b ∷ later

-- `sorted(buckets.items())`
unfoldable pub insert_bucket : Bucket → List Bucket → List Bucket
insert_bucket b [] = b ∷ []
insert_bucket b (c ∷ rest) =
    let later = insert_bucket b rest in if leb b.start c.start then b ∷ c ∷ rest else c ∷ later

unfoldable pub sort_buckets : List Bucket → List Bucket
sort_buckets [] = []
sort_buckets (b ∷ rest) = insert_bucket b (sort_buckets rest)

unfoldable pub total : List Bucket → Sums
total [] = no_sums
total (b ∷ rest) = plus b.sums (total rest)

unfoldable pub any_missing : List Bucket → Bool
any_missing [] = false
any_missing (b ∷ rest) = b.has_missing_rate || any_missing rest

module _ (rates : List MemberRate) (overtime_map : List (ℕ × ℕ)) (tolerance now : ℕ) where
  unfoldable pub add_days : Granularity → List Bucket → List (ℕ × List Shift) → List Bucket
  add_days granularity buckets [] = buckets
  add_days granularity buckets ((d, group) ∷ days) =
      add_days granularity
        (add_day (bucket_start granularity d) (calc_earnings rates overtime_map tolerance now group)
          buckets)
        days

  -- The sorted buckets, and the aggregate of the employee.
  unfoldable pub build_breakdown : (ℕ → ℕ) → Granularity → List Shift → List Bucket × Earnings
  build_breakdown local granularity shifts =
      let buckets = add_days granularity [] (group_by_day local [] shifts) in
      let sums = total buckets in
      (
        sort_buckets buckets,
        record {
          sums = sums;
          has_missing_rate = any_missing buckets;
          delta_amount_minor = sums.gross_amount_minor -ℤ sums.planned_amount_minor;
        },
      )
