-- ===== src/Billing/Checkout/Quoted.antt =====
-- The quotes of src/app/services/billing.py have the catalog's prices.
use smenka_back.Prelude.{
  ℕ, ◌*◌, ◌/◌, ◌≡◌, ◌⊎◌, refl, inl, inr, true, false, not, Option, none, some, String, pos, ◌-ℤ◌,
  arith, leb, ◌==◌, str_eq, find, raise_if, or_raise, >>=-Ensures, Ensures, returns, raises,
  ensured, or_raise-some, validation_error, plan_not_found, Bool-cases, if-Ensures, Ensures-mono,
  find-passes, ap, sym, subst, ◌>>=◌,
}
use smenka_back.Billing.Tables.{Plan, BillingPeriod, Subscription, PaymentKind, Db}
use smenka_back.Billing.Entitlements.{
  EffectiveStatus, premium_plan_code, compute_effective_status, get_plan, get_active_plan,
}
use smenka_back.Billing.Calc.{
  ExtendAmount, compute_extend_amount, compute_upgrade_months_remaining, compute_upgrade_amount,
}
use smenka_back.Billing.Checkout.{
  Quote, UpgradeReason, UpgradeOption, standard_plan_code, is_paying, upgrade_unavailable_reason,
  price_upgrade, upgrade_or, build_upgrade_option, active_period, get_active_billing_period,
  quote_extend, quote_option, quote_upgrade, quote,
}
use smenka_back.Billing.Checkout.Prices.{
  ExtendPrice, extend_price, Begun, UpgradePrice, upgrade_price, Priced,
}

months-Begun :
    (current_period_end now : ℕ)
    → Begun current_period_end now (compute_upgrade_months_remaining current_period_end now)
unfolding compute_upgrade_months_remaining
months-Begun current_period_end now = elim (Bool-cases (leb current_period_end now)) [
  | inl over ↦ rw over (ground arith, ground arith, λ k one enough. one)
  | inr later ↦ rw later (ground arith, ground arith, λ k one enough. ground arith)
]

active_period-Ensures :
    (o : Option BillingPeriod)
    → Ensures (λ (p : BillingPeriod). (o ≡ some p) × (p.is_active ≡ true)) (active_period o)
active_period-Ensures none = raises _
active_period-Ensures (some found) =
    if-Ensures found.is_active _ _ (λ on. returns found (refl, on)) (λ off. raises _)

get_active_plan-Ensures :
    (db : Db) (code : String)
    → Ensures
        (λ (p : Plan). (find (λ x. str_eq x.code code) db.plans ≡ some p) × (p.is_active ≡ true))
        (get_active_plan db code)
unfolding get_active_plan get_plan
get_active_plan-Ensures db code =
    >>=-Ensures (or_raise (find (λ p. str_eq p.code code) db.plans) plan_not_found) _ λ plan e.
      let found = or_raise-some (find (λ p. str_eq p.code code) db.plans) plan plan_not_found e in
      >>=-Ensures (raise_if (not plan.is_active) plan_not_found) _
        λ _ on. returns plan (found, ground arith)

Offered : Db → Option ℕ → BillingPeriod → Type 0
Offered db months period =
    (months ≡ some period.months)
    × (find (λ p. p.months == period.months) db.periods ≡ some period)
    × (period.is_active ≡ true)

get_active_billing_period-Ensures :
    (db : Db) (months : Option ℕ)
    → Ensures (Offered db months) (get_active_billing_period db months)
unfolding get_active_billing_period Offered
get_active_billing_period-Ensures db none = raises _
get_active_billing_period-Ensures db (some m) =
    Ensures-mono (active_period-Ensures (find (λ p. p.months == m) db.periods)) λ period h.
      let hit = find-passes (λ p. p.months == m) period db.periods h.0 in
      let same : m ≡ period.months = ground arith in
      (ap some same, subst (λ k. find (λ p. p.months == k) db.periods ≡ some period) same h.0, h.1)

abbrev quote_of : ℕ → ExtendAmount → String → Quote
quote_of months calc code = record {
  final_months = months;
  base_amount_minor = pos calc.base_amount_minor;
  discount_percent = calc.discount_percent;
  amount_minor = calc.amount_minor;
  target_plan_code = code;
}

-- The quote that is made of an extension's amounts.
compute_extend_amount-Quote :
    (price months discount : ℕ) (code : String)
    → Ensures
        (λ (c : ExtendAmount). quote_of months c code ≡ record {
          final_months = months;
          base_amount_minor = pos (price * months);
          discount_percent = discount;
          amount_minor = pos (price * months) -ℤ pos (price * months * discount / 100 / 100 * 100);
          target_plan_code = code;
        })
        (compute_extend_amount price months discount)
unfolding compute_extend_amount
compute_extend_amount-Quote price months discount code =
    if-Ensures (months == 0) _ _ (λ no_months. raises _) (λ some_months. returns _ refl)

quote_extend-Ensures :
    (db : Db) (code : String) (months : Option ℕ)
    → Ensures (ExtendPrice db code months) (quote_extend db code months)
unfolding quote_extend compute_extend_amount Offered
quote_extend-Ensures db code months = >>=-Ensures (get_active_plan db code) _ λ plan h.
    let active = ensured plan (get_active_plan-Ensures db code) h in
    >>=-Ensures (get_active_billing_period db months) _ λ period g.
      let offered = ensured period (get_active_billing_period-Ensures db months) g in
      >>=-Ensures (compute_extend_amount plan.price_minor period.months period.discount_percent) _
        λ calc c.
          let priced =
            ensured calc
              (compute_extend_amount-Quote plan.price_minor period.months period.discount_percent
                plan.code)
              c in
          returns _ (
            subst (ExtendPrice db code months) (sym priced)
              (extend_price plan period active.0 active.1 offered.0 offered.1 offered.2))

-- What an available upgrade rests on.
Upgradable : Subscription → ℕ → Type 0
Upgradable sub now =
    (str_eq sub.plan_code premium_plan_code ≡ false)
    × ((compute_effective_status sub now ≡ EffectiveStatus.active)
        ⊎ (compute_effective_status sub now ≡ EffectiveStatus.past_due))

paying_statuses :
    (s : EffectiveStatus)
    → is_paying s ≡ true
    → (s ≡ EffectiveStatus.active) ⊎ (s ≡ EffectiveStatus.past_due)
paying_statuses EffectiveStatus.trialing h = cc
paying_statuses EffectiveStatus.active h = inl refl
paying_statuses EffectiveStatus.past_due h = inr refl
paying_statuses EffectiveStatus.suspended h = cc
paying_statuses EffectiveStatus.canceled h = cc

no_reason-Upgradable :
    (sub : Subscription) (now : ℕ)
    → upgrade_unavailable_reason sub (compute_effective_status sub now) ≡ none
    → Upgradable sub now
unfolding upgrade_unavailable_reason Upgradable
no_reason-Upgradable sub now h =
    (ground arith, paying_statuses (compute_effective_status sub now) (ground arith))

-- The option that is priced, and the quote that is made of it.
price_upgrade-quoted :
    (db : Db) (sub : Subscription) (code : String) (now current_period_end : ℕ)
    → str_eq code premium_plan_code ≡ true
    → Upgradable sub now
    → sub.current_period_end ≡ some current_period_end
    → Ensures
        (λ (o : UpgradeOption). Ensures (UpgradePrice db sub code now) (quote_option o))
        (price_upgrade db (some current_period_end) now)
unfolding price_upgrade compute_upgrade_amount get_plan Upgradable
price_upgrade-quoted db sub code now current_period_end named may e =
    >>=-Ensures (get_plan db standard_plan_code) _ λ standard h.
      >>=-Ensures (get_plan db premium_plan_code) _ λ premium g. returns _ (
        returns _ (
          upgrade_price standard premium current_period_end
            (compute_upgrade_months_remaining current_period_end now) named may.0 may.1 e
            (or_raise-some (find (λ p. str_eq p.code standard_plan_code) db.plans) standard
              plan_not_found h)
            (or_raise-some (find (λ p. str_eq p.code premium_plan_code) db.plans) premium
              plan_not_found g)
            (months-Begun current_period_end now)))

price_upgrade-Ensures :
    (db : Db) (sub : Subscription) (code : String) (now : ℕ)
    → str_eq code premium_plan_code ≡ true
    → Upgradable sub now
    → (o : Option ℕ) → sub.current_period_end ≡ o
    → Ensures (UpgradePrice db sub code now) (price_upgrade db o now >>= quote_option)
unfolding price_upgrade
price_upgrade-Ensures db sub code now named may none e = raises _
price_upgrade-Ensures db sub code now named may (some current_period_end) e =
    >>=-Ensures (price_upgrade db (some current_period_end) now) quote_option λ option h.
      ensured option (price_upgrade-quoted db sub code now current_period_end named may e) h

upgrade_or-Ensures :
    (db : Db) (sub : Subscription) (code : String) (now : ℕ)
    → str_eq code premium_plan_code ≡ true
    → (o : Option UpgradeReason)
    → upgrade_unavailable_reason sub (compute_effective_status sub now) ≡ o
    → Ensures (UpgradePrice db sub code now) (upgrade_or o db sub now >>= quote_option)
upgrade_or-Ensures db sub code now named (some reason) e = raises _
upgrade_or-Ensures db sub code now named none e =
    price_upgrade-Ensures db sub code now named (no_reason-Upgradable sub now e)
      sub.current_period_end refl

quote_upgrade-Ensures :
    (db : Db) (sub : Subscription) (code : String) (now : ℕ)
    → Ensures (UpgradePrice db sub code now) (quote_upgrade db sub code now)
unfolding quote_upgrade build_upgrade_option
quote_upgrade-Ensures db sub code now =
    >>=-Ensures (raise_if (not (str_eq code premium_plan_code)) validation_error) _ λ _ named.
      upgrade_or-Ensures db sub code now (ground arith)
        (upgrade_unavailable_reason sub (compute_effective_status sub now)) refl

pub quote-Priced :
    (kind : PaymentKind) (db : Db) (sub : Subscription) (code : String) (months : Option ℕ)
    (now : ℕ)
    → Ensures (Priced kind db sub code months now) (quote kind db sub code months now)
unfolding quote
quote-Priced PaymentKind.extend db sub code months now = quote_extend-Ensures db code months
quote-Priced PaymentKind.upgrade db sub code months now = quote_upgrade-Ensures db sub code now
