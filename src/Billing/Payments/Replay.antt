-- ===== src/Billing/Payments/Replay.antt =====
-- Repeated calls of src/app/services/billing.py: a payment that is applied, a refund that comes twice.
use smenka_back.Prelude.{
  ℕ, ◌≡◌, refl, sym, ap, ◌∙◌, Bool, true, false, Option, none, some, List, [], ◌∷◌, arith, ◌==◌,
  Bool-cases, inl, inr, find, update, find-passes, find-In, In, Result, ok, err,
  payment_provider_error,
}
use smenka_back.Access.{is_some}
use smenka_back.Billing.Tables.{Payment, PaymentStatus, Db, save_payment}
use smenka_back.Billing.Answers.{ProviderData, ProviderStatus}
use smenka_back.Billing.Provider.{verify_provider_data}
use smenka_back.Billing.Payments.{
  Stamps, noted, is_pending, is_refunded, mark_payment_canceled, reconcile_status,
  reconcile_payment, by_provider_id, get_payment_by_provider_id, refund_found, apply_refund,
}
use smenka_back.Billing.Provider.{is_id}
use smenka_back.Billing.Payments.Noted.{find_payment-noted, apply_payment-noted}
use smenka_back.Billing.Payments.Webhook.{
  WebhookEvent, WebhookObject, reconcile_found, webhook_payment, process_webhook_event,
}

-- A failed question to the provider is an error; else the tables change in the copy of the provider's
-- answer in one payment alone.
abbrev pub noted_or_failed : Db → Payment → Option ProviderData → Result Db
noted_or_failed db p none = err payment_provider_error
noted_or_failed db p (some answer) =
    ok (save_payment (record p { provider_payload = some answer }) db)

module _ (db : Db) (p : Payment) (stored : In p db.payments) (marked : is_some p.applied_at ≡ true)
    (over : is_pending p.status ≡ false) (t : Stamps) where
  reconcile_status-again :
      (s : ProviderStatus) (answer : ProviderData)
      → let db' = save_payment (noted p answer) db in
        reconcile_status s db' (noted p answer) answer t ≡ ok (db', noted p answer)
  unfolding reconcile_status mark_payment_canceled
  reconcile_status-again ProviderStatus.succeeded answer =
      apply_payment-noted db p answer stored t ∙ rw marked refl
  reconcile_status-again ProviderStatus.canceled answer =
      rw (find_payment-noted db p answer stored, over) refl
  reconcile_status-again ProviderStatus.other answer = refl

  reconcile_payment-again :
      (answer : ProviderData)
      → is_some p.provider_payment_id ≡ true
      → reconcile_payment db p (some answer) t
        ≡ ok (save_payment (noted p answer) db, noted p answer)
  unfolding reconcile_payment
  reconcile_payment-again answer known =
      rw known (elim (Bool-cases (verify_provider_data (noted p answer) answer)) [
        | inl fits ↦ rw fits (reconcile_status-again answer.status answer)
        | inr other ↦ rw other refl
      ])

  reconcile_found-again :
      (answered : Option ProviderData)
      → is_some p.provider_payment_id ≡ true
      → reconcile_found (some p) db answered t ≡ noted_or_failed db p answered
  unfolding reconcile_payment
  reconcile_found-again none known = rw known refl
  reconcile_found-again (some answer) known = rw (reconcile_payment-again answer known) refl

abbrev pub is_payment_event : WebhookEvent → Bool
is_payment_event WebhookEvent.payment_succeeded = true
is_payment_event WebhookEvent.payment_canceled = true
is_payment_event _ = false

named_known : (id : Option ℕ) (k : ℕ) → is_id id k ≡ true → is_some id ≡ true
named_known none k h = cc
named_known (some j) k h = refl

webhook_payment-again :
    (db : Db) (p : Payment) (k : ℕ) (o : WebhookObject) (answered : Option ProviderData)
    (t : Stamps)
    → o.id ≡ some k
    → get_payment_by_provider_id db k ≡ some p
    → is_some p.applied_at ≡ true
    → is_pending p.status ≡ false
    → webhook_payment db o answered t ≡ noted_or_failed db p answered
unfolding get_payment_by_provider_id
webhook_payment-again db p k o answered t named known marked over =
    let id_known : is_some p.provider_payment_id ≡ true =
      named_known p.provider_payment_id k (find-passes (by_provider_id k) p db.payments known) in
    rw (named, known)
      (reconcile_found-again db p (find-In (by_provider_id k) p db.payments known) marked over t
        answered id_known)

-- A payment event of the webhook for a payment that is applied and no longer pending, whatever the
-- provider answers and whenever it comes, succeeds, stores the answer in the payment's
-- `provider_payload` and changes nothing else; where the provider does not answer it is
-- PAYMENT_PROVIDER_ERROR.
pub process_webhook_event-again :
    (db : Db) (event : WebhookEvent) (p : Payment) (k : ℕ) (o : WebhookObject)
    (answered : Option ProviderData) (t : Stamps)
    → is_payment_event event ≡ true
    → o.id ≡ some k
    → get_payment_by_provider_id db k ≡ some p
    → is_some p.applied_at ≡ true
    → is_pending p.status ≡ false
    → process_webhook_event db event (some o) answered t ≡ noted_or_failed db p answered
unfolding process_webhook_event
process_webhook_event-again db WebhookEvent.payment_succeeded p k o answered t h named known marked
      over =
    webhook_payment-again db p k o answered t named known marked over
process_webhook_event-again db WebhookEvent.payment_canceled p k o answered t h named known marked
      over =
    webhook_payment-again db p k o answered t named known marked over
process_webhook_event-again db WebhookEvent.refund_succeeded p k o answered t h named known marked
      over =
    cc
process_webhook_event-again db WebhookEvent.unknown p k o answered t h named known marked over = cc

the_row : (x p : Payment) → some x ≡ some p → x ≡ p
the_row x p e = cc

-- A row that is found by a test is found again after it is rewritten, if it still passes the test.
find-rewritten :
    (q : Payment → Bool) (p p' : Payment) (rows : List Payment)
    → p'.id ≡ p.id
    → q p' ≡ true
    → find q rows ≡ some p
    → find q (update (λ r. r.id == p'.id) (λ _. p') rows) ≡ some p'
find-rewritten q p p' [] same passes e = cc
find-rewritten q p p' (x ∷ rows) same passes e = elim (Bool-cases (q x)) [
  | inl hit ↦
      let found : some x ≡ some p = rw hit at e in
      let own : x.id ≡ p'.id = ap (λ r. r.id) (the_row x p found) ∙ sym same in ground arith
  | inr miss ↦
      let later : find q rows ≡ some p = rw miss at e in
      let rest = find-rewritten q p p' rows same passes later in ground arith
]

save_refunded :
    (db : Db) (k : ℕ) (p : Payment)
    → get_payment_by_provider_id db k ≡ some p
    → get_payment_by_provider_id (save_payment (record p { status = PaymentStatus.refunded }) db) k
      ≡ some (record p { status = PaymentStatus.refunded })
unfolding get_payment_by_provider_id save_payment
save_refunded db k p known =
    find-rewritten (by_provider_id k) p (record p { status = PaymentStatus.refunded }) db.payments
      refl (find-passes (by_provider_id k) p db.payments known) known

refund_found-again :
    (found : Option Payment) (db : Db) (k : ℕ) (refund again : ProviderData) (event_id later_id : ℕ)
    → get_payment_by_provider_id db k ≡ found
    → apply_refund (refund_found found db refund event_id).0 k again later_id
      ≡ refund_found found db refund event_id
unfolding apply_refund get_payment_by_provider_id save_payment
refund_found-again none db k refund again event_id later_id known = rw known refl
refund_found-again (some p) db k refund again event_id later_id known =
    elim (Bool-cases (is_refunded p.status)) [
      | inl was ↦ rw (was, known, was) refl
      | inr fresh ↦ rw (fresh, save_refunded db k p known) refl
    ]

-- A second `refund.succeeded` for the same payment, whatever its body says, returns the same payment
-- and writes nothing: no second journal entry.
pub apply_refund-twice :
    (db : Db) (k : ℕ) (refund again : ProviderData) (event_id later_id : ℕ)
    → apply_refund (apply_refund db k refund event_id).0 k again later_id
      ≡ apply_refund db k refund event_id
unfolding apply_refund
apply_refund-twice db k refund again event_id later_id =
    refund_found-again (get_payment_by_provider_id db k) db k refund again event_id later_id refl
