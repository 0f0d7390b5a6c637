-- ===== src/Billing/Payments.antt =====
-- src/app/services/billing.py: applying a payment, cancelling, reconciling and refunding it. The
-- current time, the time at which the application ends, the id of the journal entry and the
-- provider's answer (`none` for a failed call) are arguments of a step.
pub mod Webhook
pub mod Once
pub mod Calls
pub mod Fitting
pub mod Noted
pub mod Reconciled
pub mod Effects
pub mod Replay
pub mod Agreement
use smenka_back.Prelude.{
  ℕ, ◌+◌, ◌*◌, Bool, true, false, not, ◌&&◌, Option, none, some, List, [], ◌∷◌, ◌++◌, String, ℤ,
  pos, ◌-ℤ◌, leb, ltb, ◌==◌, if◌then◌else◌, find, Result, ok, err, ◌>>=◌, ◌>>◌, raise_if, or_raise,
  crash, payment_not_found, validation_error, payment_provider_error, provider_client_error,
}
use smenka_back.Calendar.{second, add_months}
use smenka_back.Access.{Organization, Directory, is_some}
use smenka_back.Billing.Tables.{
  Subscription, SubscriptionStatus, SubscriptionEvent, SubscriptionEventType, EventNote, Payment,
  PaymentKind, PaymentStatus, Db, subscription_of, save_subscription, find_payment, save_payment,
}
use smenka_back.Billing.Subscriptions.{given_or, extension_base}
use smenka_back.Billing.Answers.{ProviderData, ProviderStatus}
use smenka_back.Billing.Provider.{amount_from_provider, verify_provider_data, parse_paid_at, is_id}

abbrev pub poll_reconcile_after_seconds : ℕ
poll_reconcile_after_seconds = 10

-- The times and the id that one step takes.
pub record Stamps : Type 0 where
  pub now : ℕ
  pub applied_now : ℕ
  pub event_id : ℕ

abbrev pub is_pending : PaymentStatus → Bool
is_pending PaymentStatus.pending = true
is_pending _ = false

abbrev pub is_refunded : PaymentStatus → Bool
is_refunded PaymentStatus.refunded = true
is_refunded _ = false

-- `session.get(Organization, id)`, also if it is deleted.
abbrev pub is_org_deleted : Directory → ℕ → Bool
is_org_deleted db org_id = elim (find (λ o. o.id == org_id) db.organizations) [
  | none ↦ false
  | some o ↦ o.is_deleted
]

-- The money is in, but the payment is not applied.
abbrev pub mark_succeeded : Payment → ℕ → Payment
mark_succeeded p paid_at = record p { status = PaymentStatus.succeeded; paid_at = some paid_at }

abbrev pub extended_online : Subscription → String → ℕ → ℕ → Subscription
extended_online sub code new_period_end now = record sub {
  current_period_end = some new_period_end;
  status = SubscriptionStatus.active;
  plan_code = code;
  current_period_start = given_or sub.current_period_start (some now);
  last_expiry_notice_days = none;
}

-- The change of the subscription and the text of the journal entry.
unfoldable pub apply_kind :
    PaymentKind → Payment → Subscription → ℕ → Result (Subscription × EventNote)
apply_kind PaymentKind.extend p sub now = do
  months ← or_raise p.months crash
  new_period_end ← add_months (extension_base sub now) months
  ok (
    extended_online sub p.plan_code new_period_end now,
    EventNote.extended_online months p.discount_percent,
  )
apply_kind PaymentKind.upgrade p sub now =
    ok (record sub { plan_code = p.plan_code }, EventNote.upgraded_online p.months)

abbrev pub paid_event : Payment → Subscription → Subscription → EventNote → ℕ → SubscriptionEvent
paid_event p before after note event_id = record {
  id = event_id;
  organization_id = p.organization_id;
  event_type = SubscriptionEventType.paid_online;
  from_plan_code = some before.plan_code;
  to_plan_code = some after.plan_code;
  from_status = some before.status;
  to_status = some after.status;
  period_end_before = before.current_period_end;
  period_end_after = after.current_period_end;
  months = p.months;
  amount_minor = some p.amount_minor;
  note = note;
  actor_user_id = p.created_by_user_id;
  payment_id = some p.id;
}

abbrev pub settled : Payment → ℕ → Stamps → Payment
settled p paid_at t = record p {
  status = PaymentStatus.succeeded;
  paid_at = some paid_at;
  applied_at = some t.applied_now;
  subscription_event_id = some t.event_id;
}

abbrev pub append_event : SubscriptionEvent → Db → Db
append_event event db = record db { events = db.events ++ event ∷ [] }

-- The writes of an application, once the change of the subscription is known.
abbrev pub commit_application :
    Db → Payment → Subscription → Subscription × EventNote → ProviderData → Stamps → Db × Payment
commit_application db p sub (after, note) answer t =
    let p' = settled p (parse_paid_at answer t.now) t in
    (
      save_payment p'
          (append_event (paid_event p sub after note t.event_id) (save_subscription after db)),
      p',
    )

unfoldable pub apply_to :
    Option Subscription → Db → Payment → ProviderData → Stamps → Result (Db × Payment)
apply_to none db p answer t =
    let p' = mark_succeeded p (parse_paid_at answer t.now) in ok (save_payment p' db, p')
apply_to (some sub) db p answer t =
    let p' = mark_succeeded p (parse_paid_at answer t.now) in
    if is_org_deleted db.directory p.organization_id
    then ok (save_payment p' db, p')
    else (apply_kind p.kind p sub t.now >>= λ change.
        ok (commit_application db p sub change answer t))

unfoldable pub apply_payment : Db → ℕ → ProviderData → Stamps → Result (Db × Payment)
apply_payment db payment_id answer t = do
  p ← or_raise (find_payment db payment_id) payment_not_found
  if is_some p.applied_at
      then ok (db, p)
      else apply_to (subscription_of db p.organization_id) db p answer t

unfoldable pub mark_payment_canceled : Db → ℕ → ProviderData → Result (Db × Payment)
mark_payment_canceled db payment_id answer = do
  p ← or_raise (find_payment db payment_id) payment_not_found
  let p' = record p {
    status = PaymentStatus.canceled;
    cancellation_reason = answer.cancellation_reason;
  }
  if is_pending p.status then ok (save_payment p' db, p') else ok (db, p)

-- The part of `reconcile_payment` below the check of the answer.
unfoldable pub reconcile_status :
    ProviderStatus → Db → Payment → ProviderData → Stamps → Result (Db × Payment)
reconcile_status ProviderStatus.succeeded db p answer t = apply_payment db p.id answer t
reconcile_status ProviderStatus.canceled db p answer t = mark_payment_canceled db p.id answer
reconcile_status ProviderStatus.other db p answer t = ok (db, p)

-- `payment.provider_payload = provider_data`, for a stored payment.
abbrev pub noted : Payment → ProviderData → Payment
noted p answer = record p { provider_payload = some answer }

-- The answer is asked for only if the payment is known to the provider, and is stored before it is
-- compared.
unfoldable pub reconcile_payment :
    Db → Payment → Option ProviderData → Stamps → Result (Db × Payment)
reconcile_payment db p answered t =
    if is_some p.provider_payment_id
    then (or_raise answered provider_client_error >>= λ answer.
        let p' = noted p answer in
        let stored = save_payment p' db in
        if verify_provider_data p' answer
        then reconcile_status answer.status stored p' answer t
        else ok (stored, p'))
    else ok (db, p)

abbrev pub by_provider_id : ℕ → Payment → Bool
by_provider_id k p = is_id p.provider_payment_id k

-- At most one row has a provider's id, by a unique index.
unfoldable pub get_payment_by_provider_id : Db → ℕ → Option Payment
get_payment_by_provider_id db k = find (by_provider_id k) db.payments

abbrev pub amount_or_zero : Option ℤ → ℤ
amount_or_zero none = pos 0
amount_or_zero (some a) = a

abbrev pub refund_event : Payment → ℤ → ℕ → SubscriptionEvent
refund_event p refund_amount_minor event_id = record {
  id = event_id;
  organization_id = p.organization_id;
  event_type = SubscriptionEventType.payment_refunded;
  from_plan_code = some p.plan_code;
  to_plan_code = some p.plan_code;
  from_status = none;
  to_status = none;
  period_end_before = none;
  period_end_after = none;
  months = none;
  amount_minor = some (pos 0 -ℤ refund_amount_minor);
  note = EventNote.refund_of p.id refund_amount_minor;
  actor_user_id = none;
  payment_id = some p.id;
}

abbrev pub refund_found : Option Payment → Db → ProviderData → ℕ → Db × Option Payment
refund_found none db refund event_id = (db, none)
refund_found (some p) db refund event_id =
    let p' = record p { status = PaymentStatus.refunded } in
    let amount = amount_or_zero (amount_from_provider refund) in
    if is_refunded p.status
    then (db, some p)
    else (append_event (refund_event p amount event_id) (save_payment p' db), some p')

unfoldable pub apply_refund : Db → ℕ → ProviderData → ℕ → Db × Option Payment
apply_refund db provider_payment_id refund event_id =
    refund_found (get_payment_by_provider_id db provider_payment_id) db refund event_id
