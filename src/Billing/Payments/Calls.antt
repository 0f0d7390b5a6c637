-- ===== src/Billing/Payments/Calls.antt =====
-- The effects that the payment services of src/app/services/billing.py can have on the tables.
use smenka_back.Prelude.{
  ℕ, ◌≡◌, ◌⊎◌, Bool, true, false, Option, none, some, In, find, Result, ok, Ensures, ◌==◌,
}
use smenka_back.Access.{is_some}
use smenka_back.Billing.Answers.{ProviderData, ProviderStatus}
use smenka_back.Billing.Tables.{
  Subscription, EventNote, Payment, PaymentStatus, Db, subscription_of, save_subscription,
  save_payment,
}
use smenka_back.Billing.Provider.{parse_paid_at, amount_from_provider}
use smenka_back.Billing.Payments.{
  Stamps, is_org_deleted, apply_kind, append_event, paid_event, by_provider_id, amount_or_zero,
  refund_event,
}
use smenka_back.Billing.Payments.Webhook.{WebhookEvent, WebhookObject}

-- What a call is about: the payments that it names, what the provider answers to a question, the
-- refund that it tells of, the times and ids that it takes, and whether it is a poll.
pub record Call : Type 0 where
  pub names : Payment → Bool
  pub answered : Option ProviderData
  pub refund : Option ProviderData
  pub t : Stamps
  pub is_poll : Bool

-- A stored payment that the call names and the provider knows, and the provider's answer to it.
pub record Asked (call : Call) (db : Db) (p : Payment) (answer : ProviderData) : Type 0 where
  pub stored : In p db.payments
  pub named : call.names p ≡ true
  pub known : is_some p.provider_payment_id ≡ true
  pub given : call.answered ≡ some answer

-- The answer names the payment and its organization and has its amount.
abbrev pub Fits : Payment → ProviderData → Type 0
Fits p answer =
    (answer.payment_id ≡ some p.id)
    × (answer.organization_id ≡ some p.organization_id)
    × (amount_from_provider answer ≡ some p.amount_minor)

-- The answer fits the payment and says this status.
pub record Says (p : Payment) (answer : ProviderData) (status : ProviderStatus) : Type 0 where
  pub fits : Fits p answer
  pub status_is : answer.status ≡ status

-- The answers that change nothing but the copy of the last answer.
pub data Idle (p : Payment) (answer : ProviderData) : Type 0 where
  mismatch : ¬ Fits p answer → Idle p answer
  in_progress : Says p answer ProviderStatus.other → Idle p answer
  was_applied : Says p answer ProviderStatus.succeeded → is_some p.applied_at ≡ true → Idle p answer
  was_settled :
      Says p answer ProviderStatus.canceled → ¬ p.status ≡ PaymentStatus.pending → Idle p answer

-- The calls that write nothing.
pub data Quiet (call : Call) (db : Db) : Type 0 where
  nobody : find call.names db.payments ≡ none → Quiet call db
  nothing_told : call.answered ≡ none → call.refund ≡ none → Quiet call db
  not_sent :
      (p : Payment)
      → In p db.payments
      → call.names p ≡ true
      → is_some p.provider_payment_id ≡ false
      → Quiet call db
  refunded_before :
      (p : Payment)
      → In p db.payments
      → call.names p ≡ true
      → is_some call.refund ≡ true
      → p.status ≡ PaymentStatus.refunded
      → Quiet call db
  by_poll : call.is_poll ≡ true → Quiet call db

-- There is no subscription to extend, or its organization is deleted.
abbrev pub Unapplicable : Db → ℕ → Type 0
Unapplicable db org_id =
    (subscription_of db org_id ≡ none) ⊎ (is_org_deleted db.directory org_id ≡ true)

-- The effect of a call on the tables. All other rows and columns stay.
pub data Effect (call : Call) (db : Db) : Db → Type 0 where
  kept : Quiet call db → Effect call db db
  -- The payment keeps all but its copy of the last answer.
  only_noted :
      (p : Payment) (answer : ProviderData)
      → Asked call db p answer
      → Idle p answer
      → Effect call db (save_payment (record p { provider_payload = some answer }) db)
  -- A pending payment is canceled, because the provider says so.
  canceled :
      (p : Payment) (answer : ProviderData)
      → Asked call db p answer
      → Says p answer ProviderStatus.canceled
      → p.status ≡ PaymentStatus.pending
      → Effect call db (
          save_payment
            (record p {
              provider_payload = some answer;
              status = PaymentStatus.canceled;
              cancellation_reason = answer.cancellation_reason;
            })
            db)
  -- The money of a payment that is not applied has come, but there is nothing to apply it to.
  received :
      (p : Payment) (answer : ProviderData)
      → Asked call db p answer
      → Says p answer ProviderStatus.succeeded
      → is_some p.applied_at ≡ false
      → Unapplicable db p.organization_id
      → Effect call db (
          save_payment
            (record p {
              provider_payload = some answer;
              status = PaymentStatus.succeeded;
              paid_at = some (parse_paid_at answer call.t.now);
            })
            db)
  -- A payment that is not applied is applied to the subscription of a live organization, with an entry
  -- in the journal.
  applied :
      (p : Payment) (answer : ProviderData) (sub : Subscription) (change : Subscription × EventNote)
      → Asked call db p answer
      → Says p answer ProviderStatus.succeeded
      → is_some p.applied_at ≡ false
      → subscription_of db p.organization_id ≡ some sub
      → is_org_deleted db.directory p.organization_id ≡ false
      → apply_kind p.kind p sub call.t.now ≡ ok change
      → Effect call db (
          save_payment
            (record p {
              provider_payload = some answer;
              status = PaymentStatus.succeeded;
              paid_at = some (parse_paid_at answer call.t.now);
              applied_at = some call.t.applied_now;
              subscription_event_id = some call.t.event_id;
            })
            (append_event
              (paid_event p sub change.0 change.1 call.t.event_id)
              (save_subscription change.0 db)))
  -- A payment that is not refunded is marked as refunded, with an entry in the journal.
  refunded :
      (p : Payment) (refund : ProviderData)
      → In p db.payments
      → call.names p ≡ true
      → call.refund ≡ some refund
      → ¬ p.status ≡ PaymentStatus.refunded
      → Effect call db (
          append_event
            (refund_event p (amount_or_zero (amount_from_provider refund)) call.t.event_id)
            (save_payment (record p { status = PaymentStatus.refunded }) db))

abbrev pub HasEffect : Call → Db → Result (Db × Payment) → Type 0
HasEffect call db r = Ensures (λ (x : Db × Payment). Effect call db x.0) r

abbrev pub WebhookEffect : Call → Db → Result Db → Type 0
WebhookEffect call db r = Ensures (λ (d : Db). Effect call db d) r

abbrev pub named_by : Option ℕ → Payment → Bool
named_by none p = false
named_by (some k) p = by_provider_id k p

abbrev pub id_of : Option WebhookObject → Option ℕ
id_of none = none
id_of (some o) = o.id

abbrev pub payment_id_of : Option WebhookObject → Option ℕ
payment_id_of none = none
payment_id_of (some o) = o.payment_id

abbrev pub refund_of : Option WebhookObject → Option ProviderData
refund_of none = none
refund_of (some o) = some o.refund

abbrev pub asking_call : Option WebhookObject → Option ProviderData → Stamps → Call
asking_call object answered t = record {
  names = named_by (id_of object);
  answered = answered;
  refund = none;
  t = t;
  is_poll = false;
}

abbrev pub refund_call : Option WebhookObject → Stamps → Call
refund_call object t = record {
  names = named_by (payment_id_of object);
  answered = none;
  refund = refund_of object;
  t = t;
  is_poll = false;
}

-- What a webhook is about. A payment event names the payment of the object's `id` and asks the provider,
-- a refund names the payment of its `payment_id`; another event names nobody.
abbrev pub webhook_call : WebhookEvent → Option WebhookObject → Option ProviderData → Stamps → Call
webhook_call WebhookEvent.payment_succeeded object answered t = asking_call object answered t
webhook_call WebhookEvent.payment_canceled object answered t = asking_call object answered t
webhook_call WebhookEvent.refund_succeeded object answered t = refund_call object t
webhook_call WebhookEvent.unknown object answered t = record {
  names = λ p. false;
  answered = none;
  refund = none;
  t = t;
  is_poll = false;
}

abbrev pub poll_call : ℕ → Option ProviderData → Stamps → Call
poll_call k answered t = record {
  names = λ p. p.id == k;
  answered = answered;
  refund = none;
  t = t;
  is_poll = true;
}
