-- ===== src/Billing/Tables.antt =====
-- The tables of src/app/models/{plan, billing_period, subscription, payment}.py. A datetime is a
-- number of microseconds (`Calendar`), a UUID is a number, and the columns `created_at` and
-- `updated_at` that no service reads are left out.
use smenka_back.Prelude.{ℕ, Bool, true, false, Option, List, String, ℤ, ◌==◌, find, update}
use smenka_back.Access.{Directory}
use smenka_back.Billing.Answers.{ProviderData}

pub record Plan : Type 0 where
  pub code : String
  pub price_minor : ℕ
  pub max_employees : Option ℕ
  pub max_locations : Option ℕ
  pub feature_fines : Bool
  pub feature_test_import : Bool
  pub is_active : Bool

pub record BillingPeriod : Type 0 where
  pub months : ℕ
  pub discount_percent : ℕ
  pub is_active : Bool

-- The column is a VARCHAR with no CHECK: `other` is any text that is no member of the enum.
pub data SubscriptionStatus : Type 0 where
  trialing active canceled : SubscriptionStatus
  other : String → SubscriptionStatus

pub record Subscription : Type 0 where
  pub id : ℕ
  pub organization_id : ℕ
  pub plan_code : String
  pub status : SubscriptionStatus
  pub trial_ends_at : Option ℕ
  pub current_period_start : Option ℕ
  pub current_period_end : Option ℕ
  pub note : Option String
  pub last_expiry_notice_days : Option ℕ
  pub updated_by_user_id : Option ℕ

pub data SubscriptionEventType : Type 0 where
  created extended plan_changed status_changed auto_suspended paid_online payment_refunded :
      SubscriptionEventType

-- The text of an event: as it was given, or one of the three that src/app/services/billing.py
-- formats, with the values that stand in it.
pub data EventNote : Type 0 where
  no_note : EventNote
  given : String → EventNote
  extended_online : ℕ → ℕ → EventNote
  upgraded_online : Option ℕ → EventNote
  refund_of : ℕ → ℤ → EventNote

pub record SubscriptionEvent : Type 0 where
  pub id : ℕ
  pub organization_id : ℕ
  pub event_type : SubscriptionEventType
  pub from_plan_code : Option String
  pub to_plan_code : Option String
  pub from_status : Option SubscriptionStatus
  pub to_status : Option SubscriptionStatus
  pub period_end_before : Option ℕ
  pub period_end_after : Option ℕ
  pub months : Option ℕ
  pub amount_minor : Option ℤ
  pub note : EventNote
  pub actor_user_id : Option ℕ
  pub payment_id : Option ℕ

pub data PaymentKind : Type 0 where
  extend upgrade : PaymentKind

pub data PaymentStatus : Type 0 where
  pending succeeded canceled refunded : PaymentStatus

pub record Payment : Type 0 where
  pub id : ℕ
  pub organization_id : ℕ
  pub kind : PaymentKind
  pub plan_code : String
  pub months : Option ℕ
  pub base_amount_minor : ℤ
  pub discount_percent : ℕ
  pub amount_minor : ℤ
  pub status : PaymentStatus
  pub provider_payment_id : Option ℕ
  pub confirmation_url : Option String
  pub provider_payload : Option ProviderData
  pub is_test : Bool
  pub paid_at : Option ℕ
  pub applied_at : Option ℕ
  pub subscription_event_id : Option ℕ
  pub cancellation_reason : Option String
  pub created_by_user_id : Option ℕ
  pub created_at : ℕ

-- The rows that the billing services read and write. `events` is the journal, oldest first.
pub record Db : Type 0 where
  pub directory : Directory
  pub plans : List Plan
  pub periods : List BillingPeriod
  pub subscriptions : List Subscription
  pub events : List SubscriptionEvent
  pub payments : List Payment

abbrev pub is_trialing : SubscriptionStatus → Bool
is_trialing SubscriptionStatus.trialing = true
is_trialing _ = false

abbrev pub is_active_status : SubscriptionStatus → Bool
is_active_status SubscriptionStatus.active = true
is_active_status _ = false

-- An organization has at most one subscription, by a unique constraint.
unfoldable pub subscription_of : Db → ℕ → Option Subscription
subscription_of db org_id = find (λ s. s.organization_id == org_id) db.subscriptions

-- What a flush writes of a changed subscription.
unfoldable pub save_subscription : Subscription → Db → Db
save_subscription s db = record db {
  subscriptions = update (λ r. r.organization_id == s.organization_id) (λ _. s) db.subscriptions;
}

unfoldable pub find_payment : Db → ℕ → Option Payment
find_payment db payment_id = find (λ p. p.id == payment_id) db.payments

unfoldable pub save_payment : Payment → Db → Db
save_payment p db = record db { payments = update (λ r. r.id == p.id) (λ _. p) db.payments }
