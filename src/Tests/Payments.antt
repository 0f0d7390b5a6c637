-- ===== src/Tests/Payments.antt =====
-- Payments at concrete inputs.
use smenka_back.Prelude.{
  ◌*◌, ◌+◌, ◌≡◌, refl, false, none, some, [], ◌∷◌, pos, ok, trim_start, trim_end, plain_text,
  read_digits, digits_from, digits,
}
use smenka_back.Calendar.{day, calendar}
use smenka_back.Access.{get_organization}
use smenka_back.Billing.Tables.{
  Subscription, plan_changed, EventNote, Payment, PaymentKind, PaymentStatus, Db, save_subscription,
  find_payment, save_payment,
}
use smenka_back.Billing.Entitlements.{entitlements, get_subscription}
use smenka_back.Billing.Subscriptions.{
  extend_subscription, target_plan, extended, record_edit, edit_event,
}
use smenka_back.Billing.Provider.{
  amount_value_to_minor, minor_to_amount_value, amount_from_provider, verify_provider_data,
  parse_paid_at, parse_decimal, take_sign, take_fraction, take_exponent, hundredths_text,
}
use smenka_back.Billing.Provider.Reading.{amount_value_to_minor-minor_to_amount_value}
use smenka_back.Billing.Payments.{
  noted, extended_online, commit_application, apply_kind, apply_to, apply_payment,
  mark_payment_canceled, reconcile_status, reconcile_payment, get_payment_by_provider_id,
  apply_refund, append_event, refund_event,
}
use smenka_back.Billing.Payments.Webhook.{WebhookEvent, process_webhook_event, get_payment_for_org}
use smenka_back.Billing.Payments.Calls.{HasEffect, poll_call}
use smenka_back.Billing.Payments.Effects.{get_payment_for_org-Effect}
use smenka_back.Billing.Payments.Once.{AppliedOnce}
use smenka_back.Billing.Payments.Replay.{
  noted_or_failed, process_webhook_event-again, apply_refund-twice,
}
use smenka_back.Billing.Payments.Agreement.{Online, apply_kind-extend_subscription}
use smenka_back.Billing.Calc.{compute_extend_amount}
use smenka_back.Billing.Checkout.{Quote, quote, quote_extend, get_active_billing_period}
use smenka_back.Billing.Checkout.Request.{
  newest, find_reusable_pending_payment, new_payment, insert_payment, reuse_or_create,
  create_checkout,
}
use smenka_back.Billing.Checkout.Creation.{Checkout, create_checkout-Checkout}
use smenka_back.Billing.History.{webhook, Reach, start, next}
use smenka_back.Billing.History.Invariant.{Reach-AppliedOnce}
use smenka_back.Billing.History.Append.{Appends, Reach-Appends}
use smenka_back.Tests.Fixtures.{
  db, tables, trial, quarter, answer, object, stamps, settings, accepted,
}

unfoldable run : Unit {0}
unfolding calendar entitlements save_subscription find_payment save_payment amount_value_to_minor
    amount_from_provider verify_provider_data parse_paid_at parse_decimal take_sign take_fraction
    take_exponent trim_start trim_end plain_text read_digits digits_from digits hundredths_text
    minor_to_amount_value apply_kind apply_to apply_payment mark_payment_canceled reconcile_status
    reconcile_payment get_payment_by_provider_id apply_refund process_webhook_event
    get_payment_for_org target_plan extend_subscription get_organization compute_extend_amount quote
    quote_extend get_active_billing_period newest find_reusable_pending_payment reuse_or_create
    create_checkout
run = tt

-- The stored payment with the answer of the provider.
abbrev described : Payment
described = noted quarter answer

abbrev paid_db : Db
paid_db =
    (commit_application (save_payment described db) described trial
      (extended_online trial "standard" (100 * day) (5 * day), EventNote.extended_online 3 10)
      answer stamps).0

webhook_pays :
    process_webhook_event db WebhookEvent.payment_succeeded (some object) (some answer) stamps
    ≡ ok paid_db
unfolding run
webhook_pays = refl

paying : Reach db paid_db
paying =
    next start (
      webhook WebhookEvent.payment_succeeded (some object) (some answer) stamps paid_db
        webhook_pays)

not_paid_yet : AppliedOnce db
not_paid_yet = (refl, tt)

Reach-AppliedOnce_example : AppliedOnce paid_db
Reach-AppliedOnce_example = Reach-AppliedOnce paying not_paid_yet

Reach-Appends_example : Appends db paid_db
Reach-Appends_example = Reach-Appends paying

get_payment_for_org-Effect_example :
    HasEffect
      (poll_call 7 (some answer) stamps)
      db
      (get_payment_for_org db 1 7 (some answer) stamps)
get_payment_for_org-Effect_example = get_payment_for_org-Effect db 1 7 (some answer) stamps

abbrev paid : Payment
paid = record quarter {
  status = PaymentStatus.succeeded;
  paid_at = some (5 * day);
  applied_at = some (5 * day + 1);
  subscription_event_id = some 50;
}

known_again : get_payment_by_provider_id (tables (paid ∷ [])) 70 ≡ some paid
unfolding run
known_again = refl

process_webhook_event-again_example :
    process_webhook_event
      (tables (paid ∷ []))
      WebhookEvent.payment_canceled
      (some object)
      (some answer)
      stamps
    ≡ noted_or_failed (tables (paid ∷ [])) paid (some answer)
process_webhook_event-again_example =
    process_webhook_event-again (tables (paid ∷ [])) WebhookEvent.payment_canceled paid 70 object
      (some answer) stamps refl refl known_again refl refl

apply_refund-twice_example :
    apply_refund (apply_refund db 70 answer 51).0 70 answer 52 ≡ apply_refund db 70 answer 51
apply_refund-twice_example = apply_refund-twice db 70 answer answer 51 52

refund_writes_once : apply_refund db 70 answer 51 ≡ (
  append_event
      (refund_event quarter (pos 270000) 51)
      (save_payment (record quarter { status = PaymentStatus.refunded }) db),
  some (record quarter { status = PaymentStatus.refunded }),
)
unfolding run
refund_writes_once = refl

-- The same extension by a super admin.
abbrev by_hand : Subscription
by_hand = extended trial "standard" (100 * day) none 99 (5 * day)

abbrev by_hand_db : Db
by_hand_db =
    record_edit by_hand
      (edit_event 50 plan_changed trial by_hand (some 3) (some (pos 300000)) EventNote.no_note 99)
      db

extension_runs :
    extend_subscription db 1 99 3 (some "standard") none none (5 * day) 50
    ≡ ok (by_hand_db, by_hand)
unfolding run
extension_runs = refl

has_trial : get_subscription db 1 ≡ ok trial
unfolding run
has_trial = refl

apply_kind-extend_subscription_example : Online quarter trial (5 * day) by_hand
apply_kind-extend_subscription_example =
    apply_kind-extend_subscription db 1 99 3 none none (5 * day) 50 quarter trial by_hand_db by_hand
      has_trial refl extension_runs

amount_value_to_minor-minor_to_amount_value_example :
    amount_value_to_minor (minor_to_amount_value (pos 12345)) ≡ some (pos 12345)
amount_value_to_minor-minor_to_amount_value_example =
    amount_value_to_minor-minor_to_amount_value (pos 12345)

writes_cents : minor_to_amount_value (pos 270005) ≡ 50 ∷ 55 ∷ 48 ∷ 48 ∷ 46 ∷ 48 ∷ 53 ∷ []
unfolding run
writes_cents = refl

-- A checkout of the same purchase, the day before, takes no reusable payment: the row is too old.
abbrev priced : Quote
priced = record {
  final_months = 3;
  base_amount_minor = pos 300000;
  discount_percent = 10;
  amount_minor = pos 270000;
  target_plan_code = "standard";
}

abbrev opened : Payment
opened = new_payment 8 1 10 PaymentKind.extend priced false accepted (5 * day)

checkout_runs :
    create_checkout settings db 1 10
      (some PaymentKind.extend)
      "standard"
      (some 3)
      (some accepted)
      (5 * day)
      8
    ≡ ok (insert_payment opened db, opened)
unfolding run
checkout_runs = refl

create_checkout-Checkout_example :
    Checkout settings db 1 10
      (some PaymentKind.extend)
      "standard"
      (some 3)
      (5 * day)
      8
      (insert_payment opened db)
      opened
create_checkout-Checkout_example =
    create_checkout-Checkout settings db 1 10 (some PaymentKind.extend) "standard" (some 3)
      (some accepted) (5 * day) 8 (insert_payment opened db) opened checkout_runs
