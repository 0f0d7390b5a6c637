-- ===== src/Calendar/Civil.antt =====
-- Civil dates and days of the calendar: how `civil` and `ordinal` are related.
use native.Mathlib.Decide.{dec_lt}
use smenka_back.Prelude.{ℕ, zero, suc, ◌+◌, ◌-◌, ◌*◌, ◌≤◌, ◌<◌, ◌≡◌, refl, ap, arith}
use smenka_back.Calendar.{
  Date, is_leap, days_in_month, days_before_year, days_before_month, ordinal, find_month,
  year_split, civil,
}
use smenka_back.Calendar.Blocks.{
  days_in_year, days_before_month-suc, days_before_year-suc, twelve_months, days_before_month_mono,
  days_before_year_mono,
}

pub record IsValid (t : Date) : Type 0 where
  pub year_in : 1 ≤ t.year
  pub month_in : (1 ≤ t.month) × (t.month ≤ 12)
  pub day_in : (1 ≤ t.day_of_month) × (t.day_of_month ≤ days_in_month t.year t.month)

-- Day `n` lies in the year that `year_split` finds, at the index that it finds.
year_split_lem :
    (n : ℕ)
    → (days_before_year ((year_split n).0 + 1) + (year_split n).1 ≡ n)
      × ((year_split n).1 < days_in_year ((year_split n).0 + 1))
unfolding year_split days_before_year is_leap
year_split_lem n = ground arith

-- The month that `find_month` reaches holds the day.
record Found (y base n : ℕ) (t : Date) : Type 0 where
  valid : IsValid t
  year_is : t.year ≡ y
  day_is : days_before_month y t.month + (t.day_of_month - 1) ≡ base + n

find_month_lem :
    (y left m n : ℕ)
    → 1 ≤ y
    → m + left ≡ 12
    → 1 ≤ m
    → days_before_month y m + n < days_in_year y
    → Found y (days_before_month y m) n (find_month y left m n)
unfolding find_month
find_month_lem y zero m n hy hm h1 fits =
    let e : m ≡ 12 = omega arith in ground (arith, twelve_months y, days_before_month-suc y m h1)
find_month_lem y (suc left) m n hy hm h1 fits =
    ground (
      arith,
      days_before_month-suc y m h1,
      find_month_lem y left (m + 1) (n - days_in_month y m) hy,
    )

civil-Found : (n : ℕ) → Found ((year_split n).0 + 1) 0 (year_split n).1 (civil n)
unfolding civil
civil-Found n =
    find_month_lem ((year_split n).0 + 1) 11 1 (year_split n).1 (omega arith) refl (omega arith)
      (omega (arith, year_split_lem n))

pub civil-IsValid : (n : ℕ) → IsValid (civil n)
civil-IsValid n = (civil-Found n).valid

-- The day of the civil date of a day is that day.
pub ordinal-civil : (n : ℕ) → ordinal (civil n) ≡ n
unfolding ordinal
ordinal-civil n = let c = civil-Found n in rw c.year_is (omega (arith, c.day_is, year_split_lem n))

-- A valid date lies before the first day of the next month, and months do not overlap.
pub ordinal_in_month :
    (t : Date)
    → IsValid t
    → (days_before_year t.year + days_before_month t.year t.month ≤ ordinal t)
      × (ordinal t < days_before_year t.year + days_before_month t.year (suc t.month))
unfolding ordinal
ordinal_in_month t v = omega (arith, days_before_month-suc t.year t.month v.month_in.0)

-- A date in an earlier month has a smaller ordinal.
pub ordinal-lt :
    (t u : Date)
    → IsValid t
    → IsValid u
    → t.year * 12 + t.month < u.year * 12 + u.month
    → ordinal t < ordinal u
ordinal-lt t u v w h = elim (dec_lt t.year u.year) [
  | yes lt ↦ omega (
    arith,
    ordinal_in_month t v,
    ordinal_in_month u w,
    days_before_month_mono t.year (suc t.month) 13 (omega arith) (omega arith),
    twelve_months t.year,
    days_before_year-suc t.year v.year_in,
    days_before_year_mono (suc t.year) u.year (omega arith) lt,
  )
  | no ge ↦
      let e : t.year ≡ u.year = omega arith in
      omega (
        arith,
        ordinal_in_month t v,
        ordinal_in_month u w,
        ap days_before_year e,
        ap (λ y. days_before_month y u.month) e,
        days_before_month_mono t.year (suc t.month) u.month (omega arith) (omega arith),
      )
]

abbrev date : ℕ → ℕ → ℕ → Date
date y m d = record { year = y; month = m; day_of_month = d }

same_month :
    (t u : Date)
    → IsValid t
    → IsValid u
    → ordinal t ≡ ordinal u
    → (t.year ≡ u.year) × (t.month ≡ u.month)
same_month t u v w e = elim (dec_lt (t.year * 12 + t.month) (u.year * 12 + u.month)) [
  | yes lt ↦ absurd (omega (arith, ordinal-lt t u v w lt))
  | no ge ↦ elim (dec_lt (u.year * 12 + u.month) (t.year * 12 + t.month)) [
    | yes lt ↦ absurd (omega (arith, ordinal-lt u t w v lt))
    | no le ↦ omega arith
  ]
]

same_day :
    (t u : Date)
    → IsValid t
    → IsValid u
    → t.year ≡ u.year
    → t.month ≡ u.month
    → ordinal t ≡ ordinal u
    → t.day_of_month ≡ u.day_of_month
unfolding ordinal
same_day t u v w ey em e = omega (
  arith,
  ap days_before_year ey,
  ap (λ y. days_before_month y t.month) ey,
  ap (days_before_month u.year) em,
)

-- Two valid dates with one ordinal are equal.
pub ordinal_inj : (t u : Date) → IsValid t → IsValid u → ordinal t ≡ ordinal u → t ≡ u
ordinal_inj t u v w e =
    let (ey, em) = same_month t u v w e in
    let ed = same_day t u v w ey em e in
    λ i. record { year = ey i; month = em i; day_of_month = ed i }

-- The civil date of the day of a valid date is that date.
pub civil-ordinal : (t : Date) → IsValid t → civil (ordinal t) ≡ t
civil-ordinal t v =
    ordinal_inj (civil (ordinal t)) t (civil-IsValid (ordinal t)) v (ordinal-civil (ordinal t))
