-- ===== src/Billing/Payments/Webhook.antt =====
-- The webhook and the poll of src/app/services/billing.py.
use smenka_back.Prelude.{
  ℕ, ◌+◌, ◌*◌, not, ◌&&◌, Option, none, some, ltb, ◌==◌, if◌then◌else◌, Result, ok, err, ◌>>=◌,
  ◌>>◌, raise_if, or_raise, payment_not_found, validation_error, payment_provider_error,
  provider_client_error,
}
use smenka_back.Calendar.{second}
use smenka_back.Billing.Tables.{Payment, Db, find_payment}
use smenka_back.Billing.Answers.{ProviderData}
use smenka_back.Billing.Payments.{
  poll_reconcile_after_seconds, is_pending, reconcile_payment, get_payment_by_provider_id,
  apply_refund, Stamps,
}

pub data WebhookEvent : Type 0 where
  payment_succeeded payment_canceled refund_succeeded unknown : WebhookEvent

-- The body of a webhook: its event, and, if it has an object, the object's `id` and `payment_id`
-- and the refund that it describes.
pub record WebhookObject : Type 0 where
  pub id : Option ℕ
  pub payment_id : Option ℕ
  pub refund : ProviderData

abbrev pub provider_failed : {A : Type 0} → Result A → Result A
provider_failed (err provider_client_error) = err payment_provider_error
provider_failed r = r

abbrev pub reconcile_found : Option Payment → Db → Option ProviderData → Stamps → Result Db
reconcile_found none db answered t = ok db
reconcile_found (some p) db answered t =
    provider_failed (reconcile_payment db p answered t) >>= λ r. ok r.0

abbrev pub webhook_payment : Db → WebhookObject → Option ProviderData → Stamps → Result Db
webhook_payment db o answered t = do
  k ← or_raise o.id validation_error
  reconcile_found (get_payment_by_provider_id db k) db answered t

abbrev pub webhook_event :
    WebhookEvent → Db → WebhookObject → Option ProviderData → Stamps → Result Db
webhook_event WebhookEvent.payment_succeeded db o answered t = webhook_payment db o answered t
webhook_event WebhookEvent.payment_canceled db o answered t = webhook_payment db o answered t
webhook_event WebhookEvent.refund_succeeded db o answered t = do
  k ← or_raise o.payment_id validation_error
  ok (apply_refund db k o.refund t.event_id).0
webhook_event WebhookEvent.unknown db o answered t = ok db

unfoldable pub process_webhook_event :
    Db → WebhookEvent → Option WebhookObject → Option ProviderData → Stamps → Result Db
process_webhook_event db event object answered t = do
  o ← or_raise object validation_error
  webhook_event event db o answered t

-- A failed call of the provider is rolled back: the row is returned as it is.
abbrev pub or_unchanged : Db → Payment → Result (Db × Payment) → Result (Db × Payment)
or_unchanged db p (err provider_client_error) = ok (db, p)
or_unchanged db p r = r

unfoldable pub get_payment_for_org :
    Db → ℕ → ℕ → Option ProviderData → Stamps → Result (Db × Payment)
get_payment_for_org db org_id payment_id answered t = do
  p ← or_raise (find_payment db payment_id) payment_not_found
  raise_if (not (p.organization_id == org_id)) payment_not_found
  if is_pending p.status && ltb (p.created_at + poll_reconcile_after_seconds * second) t.now
      then or_unchanged db p (reconcile_payment db p answered t)
      else ok (db, p)
