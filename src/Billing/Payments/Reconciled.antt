-- ===== src/Billing/Payments/Reconciled.antt =====
-- What `reconcile_payment` of src/app/services/billing.py does to the tables.
use smenka_back.Prelude.{
  ℕ, ◌≡◌, refl, sym, ◌∙◌, subst, true, false, Option, none, some, inl, inr, In, ok, or_raise,
  >>=-Ensures, if-Ensures, returns, provider_client_error, or_raise-some,
}
use smenka_back.Access.{is_some}
use smenka_back.Billing.Answers.{ProviderData, ProviderStatus}
use smenka_back.Billing.Tables.{
  Subscription, EventNote, Payment, PaymentKind, Db, subscription_of, save_payment,
}
use smenka_back.Billing.Provider.{verify_provider_data, parse_paid_at}
use smenka_back.Billing.Payments.{
  is_pending, is_org_deleted, mark_succeeded, apply_kind, paid_event, noted, settled,
  commit_application, apply_to, apply_payment, mark_payment_canceled, reconcile_status,
  reconcile_payment,
}
use smenka_back.Billing.Payments.Calls.{
  Call, Asked, Says, mismatch, in_progress, was_applied, was_settled, not_sent, Unapplicable,
  Effect, kept, only_noted, canceled, received, applied, HasEffect,
}
use smenka_back.Billing.Payments.Fitting.{
  verify_provider_data-Fits, Fits-verify_provider_data, is_pending-pending, is_pending-over,
}
use smenka_back.Billing.Payments.Noted.{
  save_payment-twice, save_payment-around, find_payment-noted, apply_payment-noted,
}

module _ (call : Call) (db : Db) (p : Payment) (answer : ProviderData)
    (asked : Asked call db p answer) where
  abbrev with_answer : Db
  with_answer = save_payment (noted p answer) db

  apply_kind-noted :
      (kind : PaymentKind) (sub : Subscription) (now : ℕ)
      → apply_kind kind (noted p answer) sub now ≡ apply_kind kind p sub now
  unfolding apply_kind
  apply_kind-noted PaymentKind.extend sub now = refl
  apply_kind-noted PaymentKind.upgrade sub now = refl

  -- The effects in which the answer is stored before the row is written again.
  overwritten :
      (p' : Payment)
      → p.id ≡ p'.id
      → Effect call db (save_payment p' db)
      → Effect call db (save_payment p' with_answer)
  overwritten p' same x =
      subst (Effect call db) (sym (save_payment-twice db p' (noted p answer) same)) x

  received-Effect :
      Says p answer ProviderStatus.succeeded
      → is_some p.applied_at ≡ false
      → Unapplicable db p.organization_id
      → Effect call db (
          save_payment
            (mark_succeeded (noted p answer) (parse_paid_at answer call.t.now))
            with_answer)
  received-Effect says fresh unapplicable =
      overwritten (mark_succeeded (noted p answer) (parse_paid_at answer call.t.now)) refl
        (received p answer asked says fresh unapplicable)

  applied-Effect :
      (sub : Subscription) (change : Subscription × EventNote)
      → Says p answer ProviderStatus.succeeded
      → is_some p.applied_at ≡ false
      → subscription_of db p.organization_id ≡ some sub
      → is_org_deleted db.directory p.organization_id ≡ false
      → apply_kind p.kind p sub call.t.now ≡ ok change
      → Effect call db (commit_application with_answer (noted p answer) sub change answer call.t).0
  applied-Effect sub change says fresh es live ek =
      subst (Effect call db)
        (sym (
          save_payment-around db (settled (noted p answer) (parse_paid_at answer call.t.now) call.t)
            (noted p answer) (paid_event p sub change.0 change.1 call.t.event_id) change.0 refl))
        (applied p answer sub change asked says fresh es live ek)

  apply_to-Effect :
      (found : Option Subscription)
      → subscription_of db p.organization_id ≡ found
      → Says p answer ProviderStatus.succeeded
      → is_some p.applied_at ≡ false
      → HasEffect call db (apply_to found with_answer (noted p answer) answer call.t)
  unfolding apply_to save_payment
  apply_to-Effect none es says fresh = returns _ (received-Effect says fresh (inl es))
  apply_to-Effect (some sub) es says fresh =
      if-Ensures (is_org_deleted db.directory p.organization_id) _ _
        (λ gone. returns _ (received-Effect says fresh (inr gone)))
        (λ live. >>=-Ensures (apply_kind p.kind (noted p answer) sub call.t.now) _ λ change ek.
          returns _ (
            applied-Effect sub change says fresh es live
              (sym (apply_kind-noted p.kind sub call.t.now) ∙ ek)))

  apply_payment-Effect :
      Says p answer ProviderStatus.succeeded
      → HasEffect call db (apply_payment with_answer p.id answer call.t)
  unfolding save_payment subscription_of
  apply_payment-Effect says = rw (apply_payment-noted db p answer asked.stored call.t) (
      if-Ensures (is_some p.applied_at) _ _
        (λ old. returns _ (only_noted p answer asked (was_applied says old)))
        (λ fresh. apply_to-Effect (subscription_of db p.organization_id) refl says fresh))

  mark_payment_canceled-Effect :
      Says p answer ProviderStatus.canceled
      → HasEffect call db (mark_payment_canceled with_answer p.id answer)
  unfolding mark_payment_canceled
  mark_payment_canceled-Effect says = rw (find_payment-noted db p answer asked.stored) (
      if-Ensures (is_pending p.status) _ _
        (λ waiting.
          returns _ (
            overwritten _ refl
              (canceled p answer asked says (is_pending-pending p.status waiting))))
        (λ over.
          returns _ (only_noted p answer asked (was_settled says (is_pending-over p.status over)))))

  reconcile_status-Effect :
      (s : ProviderStatus)
      → Says p answer s
      → HasEffect call db (reconcile_status s with_answer (noted p answer) answer call.t)
  unfolding reconcile_status
  reconcile_status-Effect ProviderStatus.succeeded says = apply_payment-Effect says
  reconcile_status-Effect ProviderStatus.canceled says = mark_payment_canceled-Effect says
  reconcile_status-Effect ProviderStatus.other says =
      returns _ (only_noted p answer asked (in_progress says))

pub reconcile_payment-Effect :
    (call : Call) (db : Db) (p : Payment)
    → In p db.payments
    → call.names p ≡ true
    → HasEffect call db (reconcile_payment db p call.answered call.t)
unfolding reconcile_payment verify_provider_data
reconcile_payment-Effect call db p stored named =
    if-Ensures (is_some p.provider_payment_id) _ _
      (λ known. >>=-Ensures (or_raise call.answered provider_client_error) _ λ answer ea.
        let asked : Asked call db p answer = record {
          stored = stored;
          named = named;
          known = known;
          given = or_raise-some call.answered answer provider_client_error ea;
        } in
        if-Ensures (verify_provider_data p answer) _ _
          (λ fits.
            reconcile_status-Effect call db p answer asked answer.status
              (record { fits = verify_provider_data-Fits p answer fits; status_is = refl }))
          (λ other. returns _ (
            only_noted p answer asked
              (mismatch λ f. let same = Fits-verify_provider_data p answer f in cc))))
      (λ unknown. returns _ (kept (not_sent p stored named unknown)))
