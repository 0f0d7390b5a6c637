-- ===== src/Billing/History.antt =====
-- The life of the billing tables: any sequence of the steps that src/app/services/{entitlements,
-- subscription, billing}.py and src/app/tasks/subscriptions.py make, in any order.
pub mod Logged
pub mod Invariant
pub mod Append
use smenka_back.Prelude.{ℕ, ◌≡◌, Bool, Option, List, String, ℤ, ok, count}
use smenka_back.Billing.Tables.{Subscription, Payment, PaymentKind, Db}
use smenka_back.Billing.Entitlements.{create_subscription_for_org}
use smenka_back.Billing.Subscriptions.{Patch, patch_subscription, extend_subscription}
use smenka_back.Billing.Answers.{ProviderData, ProviderCreated}
use smenka_back.Billing.Payments.{Stamps}
use smenka_back.Billing.Payments.Webhook.{
  WebhookEvent, WebhookObject, process_webhook_event, get_payment_for_org,
}
use smenka_back.Billing.Payments.Once.{pays}
use smenka_back.Billing.Checkout.{Settings}
use smenka_back.Billing.Checkout.Request.{create_checkout}
use smenka_back.Billing.Notices.{notify_subscription_status}

-- A step that succeeds. A failed one is rolled back and leaves the tables. A new payment has a
-- fresh id: the journal does not name it.
pub data Step (db : Db) : Db → Type 0 where
  new_organization :
      (org_id : ℕ) (actor : Option ℕ) (trial_days now sub_id event_id : ℕ)
      → Step db (create_subscription_for_org db org_id actor trial_days now sub_id event_id)
  patch :
      (org_id actor : ℕ) (p : Patch) (event_id : ℕ) (db' : Db) (after : Subscription)
      → patch_subscription db org_id actor p event_id ≡ ok (db', after)
      → Step db db'
  extension :
      (org_id actor months : ℕ) (code : Option String) (amount : Option ℤ) (remark : Option String)
      (now event_id : ℕ) (db' : Db) (after : Subscription)
      → extend_subscription db org_id actor months code amount remark now event_id ≡ ok (db', after)
      → Step db db'
  checkout :
      (settings : Settings) (org_id actor : ℕ) (kind : Option PaymentKind) (code : String)
      (months : Option ℕ) (answered : Option ProviderCreated) (now payment_id : ℕ) (db' : Db)
      (p : Payment)
      → count (pays payment_id) db.events ≡ 0
      → create_checkout settings db org_id actor kind code months answered now payment_id
        ≡ ok (db', p)
      → Step db db'
  webhook :
      (event : WebhookEvent) (object : Option WebhookObject) (answered : Option ProviderData)
      (t : Stamps) (db' : Db)
      → process_webhook_event db event object answered t ≡ ok db'
      → Step db db'
  poll :
      (org_id payment_id : ℕ) (answered : Option ProviderData) (t : Stamps) (db' : Db) (p : Payment)
      → get_payment_for_org db org_id payment_id answered t ≡ ok (db', p)
      → Step db db'
  daily_task : (now : ℕ) (ids : ℕ → ℕ) → Step db (notify_subscription_status db now ids).0

pub data Reach (db : Db) : Db → Type 0 where
  start : Reach db db
  next : {mid end : Db} → Reach db mid → Step mid end → Reach db end
