-- ===== src/Tests/Fixtures.antt =====
-- Small tables that the tests share.
use smenka_back.Prelude.{◌*◌, ◌+◌, true, false, none, some, List, [], ◌∷◌, pos}
use smenka_back.Calendar.{day}
use smenka_back.Access.{Directory, Organization, admin, super_admin}
use smenka_back.Billing.Tables.{
  Plan, Subscription, SubscriptionStatus, Payment, PaymentKind, PaymentStatus, Db,
}
use smenka_back.Billing.Answers.{ProviderData, ProviderStatus, AmountValue, Stamp, ProviderCreated}
use smenka_back.Billing.Payments.{Stamps}
use smenka_back.Billing.Payments.Webhook.{WebhookObject}
use smenka_back.Billing.Checkout.{Settings}

abbrev pub shop : Organization
shop = record { id = 1; owner_id = 10; is_deleted = false }

abbrev pub people : Directory
people = record {
  users = record { id = 99; role = super_admin } ∷ [];
  organizations = shop ∷ [];
  members = record { id = 5; organization_id = 1; user_id = 11; role = admin } ∷ [];
  work_locations = [];
}

abbrev pub standard : Plan
standard = record {
  code = "standard";
  price_minor = 100000;
  max_employees = some 2;
  max_locations = none;
  feature_fines = false;
  feature_test_import = false;
  is_active = true;
}

abbrev pub premium : Plan
premium = record {
  code = "premium";
  price_minor = 200000;
  max_employees = none;
  max_locations = none;
  feature_fines = true;
  feature_test_import = true;
  is_active = true;
}

-- The trial of the shop ends on day 10.
abbrev pub trial : Subscription
trial = record {
  id = 20;
  organization_id = 1;
  plan_code = "premium";
  status = SubscriptionStatus.trialing;
  trial_ends_at = some (10 * day);
  current_period_start = none;
  current_period_end = none;
  note = none;
  last_expiry_notice_days = none;
  updated_by_user_id = none;
}

-- Three months of the standard plan, ten percent off.
abbrev pub quarter : Payment
quarter = record {
  id = 7;
  organization_id = 1;
  kind = PaymentKind.extend;
  plan_code = "standard";
  months = some 3;
  base_amount_minor = pos 300000;
  discount_percent = 10;
  amount_minor = pos 270000;
  status = PaymentStatus.pending;
  provider_payment_id = some 70;
  confirmation_url = none;
  provider_payload = none;
  is_test = true;
  paid_at = none;
  applied_at = none;
  subscription_event_id = none;
  cancellation_reason = none;
  created_by_user_id = some 10;
  created_at = 4 * day;
}

abbrev pub tables : List Payment → Db
tables payments = record {
  directory = people;
  plans = standard ∷ premium ∷ [];
  periods = record { months = 3; discount_percent = 10; is_active = true } ∷ [];
  subscriptions = trial ∷ [];
  events = [];
  payments = payments;
}

abbrev pub db : Db
db = tables (quarter ∷ [])

-- 2700.00
abbrev pub amount_text : AmountValue
amount_text = 50 ∷ 55 ∷ 48 ∷ 48 ∷ 46 ∷ 48 ∷ 48 ∷ []

abbrev pub answer : ProviderData
answer = record {
  payment_id = some 7;
  organization_id = some 1;
  amount = some amount_text;
  status = ProviderStatus.succeeded;
  captured_at = some (Stamp.at (5 * day));
  created_at = none;
  cancellation_reason = none;
}

abbrev pub object : WebhookObject
object = record { id = some 70; payment_id = some 70; refund = answer }

abbrev pub stamps : Stamps
stamps = record { now = 5 * day; applied_now = 5 * day + 1; event_id = 50 }

abbrev pub settings : Settings
settings = record { yookassa_enabled = true; is_live = false; billing_max_payment_minor = 1000000 }

abbrev pub accepted : ProviderCreated
accepted = record {
  id = some 71;
  confirmation_url = some "https://pay";
  described = record {
    payment_id = some 8;
    organization_id = some 1;
    amount = some amount_text;
    status = ProviderStatus.other;
    captured_at = none;
    created_at = some (Stamp.at (5 * day));
    cancellation_reason = none;
  };
}
