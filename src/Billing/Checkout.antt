-- ===== src/Billing/Checkout.antt =====
-- src/app/services/billing.py: the upgrade option and the price of a purchase.
pub mod Request
pub mod Creation
pub mod Prices
pub mod Quoted
use smenka_back.Prelude.{
  ℕ, ◌+◌, ◌*◌, Bool, true, false, not, ◌&&◌, ◌||◌, Option, none, some, List, [], ◌∷◌, ◌++◌, String,
  ℤ, pos, ltb_ℤ, leb, ltb, ◌==◌, str_eq, if◌then◌else◌, find, select, Result, ok, err, ◌>>=◌, ◌>>◌,
  raise_if, or_raise, crash, validation_error, billing_disabled, payment_amount_limit,
  payment_provider_error, upgrade_not_applicable,
}
use smenka_back.Calendar.{minute}
use smenka_back.Access.{is_some}
use smenka_back.Billing.Tables.{
  Plan, BillingPeriod, Subscription, Payment, PaymentKind, PaymentStatus, Db, save_payment,
}
use smenka_back.Billing.Entitlements.{
  EffectiveStatus, premium_plan_code, compute_effective_status, get_plan, get_active_plan,
  get_subscription,
}
use smenka_back.Billing.Calc.{
  ExtendAmount, compute_extend_amount, compute_upgrade_months_remaining, compute_upgrade_amount,
}
use smenka_back.Billing.Answers.{ProviderCreated}
use smenka_back.Billing.Payments.{is_pending}

abbrev pub pending_reuse_minutes : ℕ
pending_reuse_minutes = 15

abbrev pub standard_plan_code : String
standard_plan_code = "standard"

-- The settings that the module reads.
pub record Settings : Type 0 where
  pub yookassa_enabled : Bool
  pub is_live : Bool
  pub billing_max_payment_minor : ℕ

pub data UpgradeReason : Type 0 where
  already_premium not_applicable no_paid_period : UpgradeReason

abbrev pub is_paying : EffectiveStatus → Bool
is_paying EffectiveStatus.active = true
is_paying EffectiveStatus.past_due = true
is_paying _ = false

unfoldable pub upgrade_unavailable_reason : Subscription → EffectiveStatus → Option UpgradeReason
upgrade_unavailable_reason sub status =
    if str_eq sub.plan_code premium_plan_code
    then some already_premium
    else if not (is_paying status)
    then some not_applicable
    else if not (is_some sub.current_period_end)
    then some no_paid_period
    else none

pub record UpgradeOption : Type 0 where
  pub available : Bool
  pub reason : Option UpgradeReason
  pub to_plan_code : Option String
  pub months_remaining : Option ℕ
  pub amount_minor : Option ℤ

abbrev pub unavailable : UpgradeReason → UpgradeOption
unavailable reason = record {
  available = false;
  reason = some reason;
  to_plan_code = none;
  months_remaining = none;
  amount_minor = none;
}

unfoldable pub price_upgrade : Db → Option ℕ → ℕ → Result UpgradeOption
price_upgrade db none now = ok (unavailable no_paid_period)
price_upgrade db (some current_period_end) now = do
  standard_plan ← get_plan db standard_plan_code
  premium_plan ← get_plan db premium_plan_code
  let months_remaining = compute_upgrade_months_remaining current_period_end now
  let amount_minor =
      compute_upgrade_amount standard_plan.price_minor premium_plan.price_minor months_remaining
  ok (record {
    available = true;
    reason = none;
    to_plan_code = some premium_plan.code;
    months_remaining = some months_remaining;
    amount_minor = some amount_minor;
  })

abbrev pub upgrade_or : Option UpgradeReason → Db → Subscription → ℕ → Result UpgradeOption
upgrade_or (some reason) db sub now = ok (unavailable reason)
upgrade_or none db sub now = price_upgrade db sub.current_period_end now

unfoldable pub build_upgrade_option : Db → Subscription → ℕ → Result UpgradeOption
build_upgrade_option db sub now =
    upgrade_or (upgrade_unavailable_reason sub (compute_effective_status sub now)) db sub now

abbrev pub active_period : Option BillingPeriod → Result BillingPeriod
active_period none = err validation_error
active_period (some period) = if period.is_active then ok period else err validation_error

-- `_get_active_billing_period`
unfoldable pub get_active_billing_period : Db → Option ℕ → Result BillingPeriod
get_active_billing_period db none = err validation_error
get_active_billing_period db (some months) =
    active_period (find (λ p. p.months == months) db.periods)

-- What a payment is for and what it costs.
pub record Quote : Type 0 where
  pub final_months : ℕ
  pub base_amount_minor : ℤ
  pub discount_percent : ℕ
  pub amount_minor : ℤ
  pub target_plan_code : String

unfoldable pub quote_extend : Db → String → Option ℕ → Result Quote
quote_extend db plan_code months = do
  plan ← get_active_plan db plan_code
  period ← get_active_billing_period db months
  calc ← compute_extend_amount plan.price_minor period.months period.discount_percent
  ok (record {
    final_months = period.months;
    base_amount_minor = pos calc.base_amount_minor;
    discount_percent = calc.discount_percent;
    amount_minor = calc.amount_minor;
    target_plan_code = plan.code;
  })

abbrev pub quote_option : UpgradeOption → Result Quote
quote_option option = do
  raise_if (not option.available) upgrade_not_applicable
  months ← or_raise option.months_remaining upgrade_not_applicable
  amount ← or_raise option.amount_minor upgrade_not_applicable
  code ← or_raise option.to_plan_code upgrade_not_applicable
  ok (record {
    final_months = months;
    base_amount_minor = amount;
    discount_percent = 0;
    amount_minor = amount;
    target_plan_code = code;
  })

unfoldable pub quote_upgrade : Db → Subscription → String → ℕ → Result Quote
quote_upgrade db sub plan_code now = do
  raise_if (not (str_eq plan_code premium_plan_code)) validation_error
  option ← build_upgrade_option db sub now
  quote_option option

unfoldable pub quote : PaymentKind → Db → Subscription → String → Option ℕ → ℕ → Result Quote
quote PaymentKind.extend db sub plan_code months now = quote_extend db plan_code months
quote PaymentKind.upgrade db sub plan_code months now = quote_upgrade db sub plan_code now
