-- ===== src/Billing/Checkout/Prices.antt =====
-- What `create_checkout` of src/app/services/billing.py asks for each kind of purchase.
use smenka_back.Prelude.{
  ℕ, ◌+◌, ◌*◌, ◌/◌, ◌≤◌, ◌≡◌, ◌⊎◌, true, false, Option, some, String, pos, scale, ◌-ℤ◌, ◌==◌,
  str_eq, find,
}
use smenka_back.Calendar.{day}
use smenka_back.Billing.Tables.{Plan, BillingPeriod, Subscription, PaymentKind, Db}
use smenka_back.Billing.Entitlements.{EffectiveStatus, premium_plan_code, compute_effective_status}
use smenka_back.Billing.Checkout.{Quote, standard_plan_code}

-- The price of an extension: an active plan and an active period of the catalog, those that were
-- asked for, and the price of the months less the discount of the period in whole hundreds.
pub data ExtendPrice (db : Db) (code : String) (months : Option ℕ) : Quote → Type 0 where
  extend_price :
      (plan : Plan) (period : BillingPeriod)
      → find (λ p. str_eq p.code code) db.plans ≡ some plan
      → plan.is_active ≡ true
      → months ≡ some period.months
      → find (λ p. p.months == period.months) db.periods ≡ some period
      → period.is_active ≡ true
      → ExtendPrice db code months (record {
        final_months = period.months;
        base_amount_minor = pos (plan.price_minor * period.months);
        discount_percent = period.discount_percent;
        amount_minor =
            pos (plan.price_minor * period.months)
            -ℤ pos (plan.price_minor * period.months * period.discount_percent / 100 / 100 * 100);
        target_plan_code = plan.code;
      })

-- The months of an upgrade: thirty days each, the last one begun, and one at least.
abbrev pub Begun : ℕ → ℕ → ℕ → Type 0
Begun current_period_end now months =
    (1 ≤ months)
    × (current_period_end ≤ now + months * (30 * day))
    × ((k : ℕ) → 1 ≤ k → current_period_end ≤ now + k * (30 * day) → months ≤ k)

-- The price of an upgrade of a subscription to the plan "standard" that is active or past due and
-- paid up to some moment: the difference of the two plans' prices for the months begun until then.
pub data UpgradePrice (db : Db) (sub : Subscription) (code : String) (now : ℕ)
    : Quote → Type 0 where
  upgrade_price :
      (standard premium : Plan) (current_period_end months : ℕ)
      → str_eq code premium_plan_code ≡ true
      → str_eq sub.plan_code premium_plan_code ≡ false
      → (compute_effective_status sub now ≡ EffectiveStatus.active)
        ⊎ (compute_effective_status sub now ≡ EffectiveStatus.past_due)
      → sub.current_period_end ≡ some current_period_end
      → find (λ p. str_eq p.code standard_plan_code) db.plans ≡ some standard
      → find (λ p. str_eq p.code premium_plan_code) db.plans ≡ some premium
      → Begun current_period_end now months
      → UpgradePrice db sub code now (record {
        final_months = months;
        base_amount_minor = scale (pos premium.price_minor -ℤ pos standard.price_minor) months;
        discount_percent = 0;
        amount_minor = scale (pos premium.price_minor -ℤ pos standard.price_minor) months;
        target_plan_code = premium.code;
      })

abbrev pub Priced : PaymentKind → Db → Subscription → String → Option ℕ → ℕ → Quote → Type 0
Priced PaymentKind.extend db sub code months now q = ExtendPrice db code months q
Priced PaymentKind.upgrade db sub code months now q = UpgradePrice db sub code now q
