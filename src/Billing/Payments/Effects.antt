-- ===== src/Billing/Payments/Effects.antt =====
-- What the payment services of src/app/services/billing.py do to the tables.
use smenka_back.Prelude.{
  ℕ, ◌≡◌, refl, ap, true, not, ◌&&◌, Option, none, some, Bool-cases, inl, inr, find, find-In,
  find-passes, Result, ok, err, ◌>>=◌, or_raise, raise_if, >>=-Ensures, if-Ensures, Ensures,
  returns, raises, payment_not_found, provider_client_error, validation_error, ltb, ◌+◌, ◌*◌, ◌==◌,
  or_raise-some,
}
use smenka_back.Calendar.{second}
use smenka_back.Billing.Answers.{ProviderData}
use smenka_back.Billing.Tables.{Payment, Db, find_payment}
use smenka_back.Billing.Payments.{
  Stamps, is_pending, is_refunded, reconcile_payment, get_payment_by_provider_id, refund_found,
  apply_refund, poll_reconcile_after_seconds,
}
use smenka_back.Billing.Payments.Fitting.{is_refunded-refunded, is_refunded-not}
use smenka_back.Billing.Payments.Calls.{
  Call, nobody, nothing_told, refunded_before, by_poll, Effect, kept, refunded, HasEffect,
  WebhookEffect, named_by, asking_call, refund_call, webhook_call, poll_call,
}
use smenka_back.Billing.Payments.Webhook.{
  WebhookEvent, WebhookObject, webhook_payment, reconcile_found, webhook_event,
  process_webhook_event, or_unchanged, provider_failed, get_payment_for_org,
}
use smenka_back.Billing.Payments.Reconciled.{reconcile_payment-Effect}

refund_found-Effect :
    (call : Call) (found : Option Payment) (db : Db) (refund : ProviderData)
    → find call.names db.payments ≡ found
    → call.refund ≡ some refund
    → Effect call db (refund_found found db refund call.t.event_id).0
refund_found-Effect call none db refund e told = kept (nobody e)
refund_found-Effect call (some p) db refund e told =
    let stored = find-In call.names p db.payments e in
    let named = find-passes call.names p db.payments e in
    elim (Bool-cases (is_refunded p.status)) [
      | inl old ↦
          rw old (
            kept
              (refunded_before p stored named (rw told refl) (is_refunded-refunded p.status old)))
      | inr new ↦ rw new (refunded p refund stored named told (is_refunded-not p.status new))
    ]

provider_failed-Ensures :
    {A : Type 0} (P : A → Type 0) (r : Result A) → Ensures P r → Ensures P (provider_failed r)
provider_failed-Ensures P (ok a) h = h
provider_failed-Ensures P (err provider_client_error) h = raises _
provider_failed-Ensures P (err _) h = h

bind-Effect :
    (call : Call) (db : Db) (r : Result (Db × Payment))
    → HasEffect call db r
    → WebhookEffect call db (r >>= λ (x : Db × Payment). ok x.0)
bind-Effect call db (ok a) (returns b e) = returns _ e
bind-Effect call db (err e) h = raises e

reconcile_found-Effect :
    (call : Call) (found : Option Payment) (db : Db)
    → find call.names db.payments ≡ found
    → WebhookEffect call db (reconcile_found found db call.answered call.t)
reconcile_found-Effect call none db e = returns _ (kept (nobody e))
reconcile_found-Effect call (some p) db e =
    bind-Effect call db (provider_failed (reconcile_payment db p call.answered call.t)) (
      provider_failed-Ensures (λ (x : Db × Payment). Effect call db x.0)
        (reconcile_payment db p call.answered call.t)
        (reconcile_payment-Effect call db p (find-In call.names p db.payments e)
          (find-passes call.names p db.payments e)))

webhook_payment-Effect :
    (db : Db) (o : WebhookObject) (answered : Option ProviderData) (t : Stamps)
    → WebhookEffect (asking_call (some o) answered t) db (webhook_payment db o answered t)
unfolding get_payment_by_provider_id
webhook_payment-Effect db o answered t = >>=-Ensures (or_raise o.id validation_error) _ λ k e.
    let named = or_raise-some o.id k validation_error e in
    reconcile_found-Effect (asking_call (some o) answered t) (get_payment_by_provider_id db k) db
      (ap (λ id. find (named_by id) db.payments) named)

refund-Effect :
    (db : Db) (o : WebhookObject) (t : Stamps)
    → WebhookEffect (refund_call (some o) t) db (
        or_raise o.payment_id validation_error >>= λ k.
        ok (apply_refund db k o.refund t.event_id).0)
unfolding apply_refund get_payment_by_provider_id
refund-Effect db o t = >>=-Ensures (or_raise o.payment_id validation_error) _ λ k e.
    let named = or_raise-some o.payment_id k validation_error e in
    returns _ (
      refund_found-Effect (refund_call (some o) t) (get_payment_by_provider_id db k) db o.refund
        (ap (λ id. find (named_by id) db.payments) named) refl)

webhook_event-Effect :
    (event : WebhookEvent) (db : Db) (o : WebhookObject) (answered : Option ProviderData)
    (t : Stamps)
    → WebhookEffect
        (webhook_call event (some o) answered t)
        db
        (webhook_event event db o answered t)
webhook_event-Effect WebhookEvent.payment_succeeded db o answered t =
    webhook_payment-Effect db o answered t
webhook_event-Effect WebhookEvent.payment_canceled db o answered t =
    webhook_payment-Effect db o answered t
webhook_event-Effect WebhookEvent.refund_succeeded db o answered t = refund-Effect db o t
webhook_event-Effect WebhookEvent.unknown db o answered t =
    returns _ (kept (nothing_told refl refl))

pub process_webhook_event-Effect :
    (db : Db) (event : WebhookEvent) (object : Option WebhookObject)
    (answered : Option ProviderData) (t : Stamps)
    → WebhookEffect
        (webhook_call event object answered t)
        db
        (process_webhook_event db event object answered t)
unfolding process_webhook_event
process_webhook_event-Effect db event none answered t = raises _
process_webhook_event-Effect db event (some o) answered t =
    webhook_event-Effect event db o answered t

or_unchanged-Effect :
    (call : Call) (db : Db) (p : Payment) (r : Result (Db × Payment))
    → call.is_poll ≡ true
    → HasEffect call db r
    → HasEffect call db (or_unchanged db p r)
or_unchanged-Effect call db p (ok a) poll h = h
or_unchanged-Effect call db p (err provider_client_error) poll h = returns _ (kept (by_poll poll))
or_unchanged-Effect call db p (err _) poll h = h

-- A poll of a payment's state has such an effect, or none.
pub get_payment_for_org-Effect :
    (db : Db) (org_id k : ℕ) (answered : Option ProviderData) (t : Stamps)
    → HasEffect (poll_call k answered t) db (get_payment_for_org db org_id k answered t)
unfolding get_payment_for_org find_payment
get_payment_for_org-Effect db org_id k answered t =
    >>=-Ensures (or_raise (find_payment db k) payment_not_found) _ λ p e.
      let found = or_raise-some (find_payment db k) p payment_not_found e in
      >>=-Ensures (raise_if (not (p.organization_id == org_id)) payment_not_found) _ λ _ _.
        if-Ensures
          (is_pending p.status && ltb (p.created_at + poll_reconcile_after_seconds * second) t.now)
          _ _
          (λ _.
            or_unchanged-Effect (poll_call k answered t) db p (reconcile_payment db p answered t)
              refl
              (reconcile_payment-Effect (poll_call k answered t) db p
                (find-In (λ r. r.id == k) p db.payments found)
                (find-passes (λ r. r.id == k) p db.payments found)))
          (λ _. returns _ (kept (by_poll refl)))
