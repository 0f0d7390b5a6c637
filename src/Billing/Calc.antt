-- ===== src/Billing/Calc.antt =====
-- src/app/services/billing_calc.py: the price of a period and the surcharge of an upgrade. The
-- quotient of seconds, a float in the source, is exact here.
use smenka_back.Prelude.{
  ℕ, ◌+◌, ◌-◌, ◌*◌, ◌/◌, max, ℤ, pos, ◌-ℤ◌, scale, floor_div, leb, ◌==◌, if◌then◌else◌, Result, ok,
  err, crash,
}
use smenka_back.Calendar.{day}

abbrev pub upgrade_month_days : ℕ
upgrade_month_days = 30

pub record ExtendAmount : Type 0 where
  pub base_amount_minor : ℕ
  pub discount_percent : ℕ
  pub discount_minor : ℕ
  pub amount_minor : ℤ
  pub monthly_minor : ℤ

-- A period of no months is a division by zero.
unfoldable pub compute_extend_amount : ℕ → ℕ → ℕ → Result ExtendAmount
compute_extend_amount price_minor months discount_percent =
    let base_amount_minor = price_minor * months in
    let raw_discount_minor = base_amount_minor * discount_percent / 100 in
    let discount_minor = raw_discount_minor / 100 * 100 in
    let amount_minor = pos base_amount_minor -ℤ pos discount_minor in
    if months == 0
    then err crash
    else ok (record {
      base_amount_minor = base_amount_minor;
      discount_percent = discount_percent;
      discount_minor = discount_minor;
      amount_minor = amount_minor;
      monthly_minor = floor_div amount_minor months;
    })

unfoldable pub compute_upgrade_months_remaining : ℕ → ℕ → ℕ
compute_upgrade_months_remaining current_period_end now =
    if leb current_period_end now
    then 1
    else max 1
        ((current_period_end - now + (upgrade_month_days * day - 1)) / (upgrade_month_days * day))

unfoldable pub compute_upgrade_amount : ℕ → ℕ → ℕ → ℤ
compute_upgrade_amount standard_price_minor premium_price_minor months_remaining =
    scale (pos premium_price_minor -ℤ pos standard_price_minor) months_remaining
