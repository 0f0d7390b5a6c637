-- ===== src/Tests/Calendar.antt =====
-- The calendar at concrete dates.
use smenka_back.Prelude.{◌*◌, ◌+◌, ◌%◌, ◌≡◌, refl, min, ok}
use smenka_back.Calendar.{day, days_in_month, date_of, add_months, calendar}
use smenka_back.Calendar.Months.{month_index, date_of-add_months}

-- The last of January, one month on, in a common year.
january_end : add_months (30 * day + 5) 1 ≡ ok (58 * day + 5)
unfolding calendar
january_end = refl

date_of-add_months_example :
    (month_index (date_of (58 * day + 5)) ≡ month_index (date_of (30 * day + 5)) + 1)
    × ((date_of (58 * day + 5)).day_of_month
        ≡ min
            (date_of (30 * day + 5)).day_of_month
            (days_in_month (date_of (58 * day + 5)).year (date_of (58 * day + 5)).month))
    × ((58 * day + 5) % day ≡ (30 * day + 5) % day)
date_of-add_months_example = date_of-add_months (30 * day + 5) 1 (58 * day + 5) january_end
