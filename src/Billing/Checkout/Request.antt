-- ===== src/Billing/Checkout/Request.antt =====
-- `create_checkout` of src/app/services/billing.py and the pending payment that it reuses.
-- The answer of the provider (`none` for a failed call), the time and the new id are arguments.
use smenka_back.Prelude.{
  ℕ, ◌+◌, ◌*◌, Bool, true, false, not, ◌&&◌, Option, none, some, List, [], ◌∷◌, ◌++◌, String, pos,
  ltb_ℤ, leb, ltb, ◌==◌, str_eq, if◌then◌else◌, select, Result, ok, ◌>>=◌, ◌>>◌, raise_if, or_raise,
  validation_error, billing_disabled, payment_amount_limit, payment_provider_error,
}
use smenka_back.Calendar.{minute}
use smenka_back.Billing.Tables.{Payment, PaymentKind, PaymentStatus, Db}
use smenka_back.Billing.Entitlements.{get_subscription}
use smenka_back.Billing.Answers.{ProviderCreated}
use smenka_back.Billing.Payments.{is_pending}
use smenka_back.Billing.Checkout.{pending_reuse_minutes, quote, Settings, Quote}

abbrev pub same_kind : PaymentKind → PaymentKind → Bool
same_kind PaymentKind.extend PaymentKind.extend = true
same_kind PaymentKind.upgrade PaymentKind.upgrade = true
same_kind _ _ = false

abbrev pub is_months : Option ℕ → ℕ → Bool
is_months none k = false
is_months (some m) k = m == k

-- The WHERE clause of `_find_reusable_pending_payment`: `created_at >= now - 15 minutes`.
abbrev pub is_reusable : ℕ → PaymentKind → String → ℕ → ℕ → Payment → Bool
is_reusable org_id kind plan_code months now p =
    p.organization_id == org_id
    && is_pending p.status
    && same_kind p.kind kind
    && str_eq p.plan_code plan_code
    && is_months p.months months
    && leb now (p.created_at + pending_reuse_minutes * minute)

abbrev pub newer : Payment → Option Payment → Option Payment
newer p none = some p
newer p (some q) = if ltb p.created_at q.created_at then some q else some p

-- `ORDER BY created_at DESC LIMIT 1`
unfoldable pub newest : List Payment → Option Payment
newest [] = none
newest (p ∷ ps) = newer p (newest ps)

unfoldable pub find_reusable_pending_payment :
    Db → ℕ → PaymentKind → String → ℕ → ℕ → Option Payment
find_reusable_pending_payment db org_id kind plan_code months now =
    newest (select (is_reusable org_id kind plan_code months now) db.payments)

-- The row that is inserted, with what the provider answered.
abbrev pub new_payment : ℕ → ℕ → ℕ → PaymentKind → Quote → Bool → ProviderCreated → ℕ → Payment
new_payment payment_id org_id actor_id kind q is_live created now = record {
  id = payment_id;
  organization_id = org_id;
  kind = kind;
  plan_code = q.target_plan_code;
  months = some q.final_months;
  base_amount_minor = q.base_amount_minor;
  discount_percent = q.discount_percent;
  amount_minor = q.amount_minor;
  status = PaymentStatus.pending;
  provider_payment_id = created.id;
  confirmation_url = created.confirmation_url;
  provider_payload = some created.described;
  is_test = not is_live;
  paid_at = none;
  applied_at = none;
  subscription_event_id = none;
  cancellation_reason = none;
  created_by_user_id = some actor_id;
  created_at = now;
}

abbrev pub insert_payment : Payment → Db → Db
insert_payment p db = record db { payments = db.payments ++ p ∷ [] }

-- A pending payment is reused; otherwise one is created, if the provider accepts it.
unfoldable pub reuse_or_create :
    Option Payment
    → Settings
    → Db
    → ℕ
    → ℕ
    → PaymentKind
    → Quote
    → Option ProviderCreated
    → ℕ
    → ℕ
    → Result (Db × Payment)
reuse_or_create (some p) settings db org_id actor_id kind q answered now payment_id = ok (db, p)
reuse_or_create none settings db org_id actor_id kind q answered now payment_id = do
  created ← or_raise answered payment_provider_error
  let p = new_payment payment_id org_id actor_id kind q settings.is_live created now
  ok (insert_payment p db, p)

-- `kind` is `none` for any other text.
unfoldable pub create_checkout :
    Settings
    → Db
    → ℕ
    → ℕ
    → Option PaymentKind
    → String
    → Option ℕ
    → Option ProviderCreated
    → ℕ
    → ℕ
    → Result (Db × Payment)
create_checkout settings db org_id actor_id kind_text plan_code months answered now payment_id = do
  raise_if (not settings.yookassa_enabled) billing_disabled
  kind ← or_raise kind_text validation_error
  sub ← get_subscription db org_id
  q ← quote kind db sub plan_code months now
  raise_if (ltb_ℤ (pos settings.billing_max_payment_minor) q.amount_minor) payment_amount_limit
  let reusable = find_reusable_pending_payment db org_id kind q.target_plan_code q.final_months now
  reuse_or_create reusable settings db org_id actor_id kind q answered now payment_id
