-- ===== src/Billing/Payments/Once.antt =====
-- Payments and their `paid_online` entries in the journal, in src/app/services/billing.py.
use smenka_back.Prelude.{
  ℕ, ◌≡◌, refl, Bool, true, false, ◌&&◌, some, List, [], ◌∷◌, ◌++◌, arith, ◌==◌, if◌then◌else◌,
  count, count-append, update, All, All-update, All-In, ℤ,
}
use smenka_back.Access.{is_some}
use smenka_back.Billing.Tables.{
  Subscription, SubscriptionEvent, SubscriptionEventType, EventNote, Payment, PaymentStatus, Db,
  save_subscription, save_payment,
}
use smenka_back.Billing.Provider.{is_id}
use smenka_back.Billing.Payments.Calls.{
  Call, Effect, kept, only_noted, canceled, received, applied, refunded,
}
use smenka_back.Billing.Payments.{paid_event, append_event, refund_event}

abbrev pub is_paid_online : SubscriptionEventType → Bool
is_paid_online SubscriptionEventType.paid_online = true
is_paid_online _ = false

-- The journal entries of applications of payment `k`.
abbrev pub pays : ℕ → SubscriptionEvent → Bool
pays k e = is_paid_online e.event_type && is_id e.payment_id k

-- The journal has one entry for a payment that is marked as applied, and none for another.
abbrev pub IsCounted : List SubscriptionEvent → Payment → Type 0
IsCounted events p = count (pays p.id) events ≡ (if is_some p.applied_at then 1 else 0)

abbrev pub AppliedOnce : Db → Type 0
AppliedOnce db = All (IsCounted db.events) db.payments

-- An entry of another kind changes no count.
pub append-AppliedOnce :
    (e : SubscriptionEvent) (events : List SubscriptionEvent) (rows : List Payment)
    → is_paid_online e.event_type ≡ false
    → All (IsCounted events) rows
    → All (IsCounted (events ++ e ∷ [])) rows
append-AppliedOnce e events [] h all = tt
append-AppliedOnce e events (p ∷ rows) h all = (
  ground (arith, count-append (pays p.id) events (e ∷ [])),
  append-AppliedOnce e events rows h all.1,
)

settle_row :
    (e : SubscriptionEvent) (p' x : Payment) (events : List SubscriptionEvent)
    → is_paid_online e.event_type ≡ true
    → e.payment_id ≡ some p'.id
    → is_some p'.applied_at ≡ true
    → count (pays p'.id) events ≡ 0
    → IsCounted events x
    → IsCounted (events ++ e ∷ []) (if x.id == p'.id then p' else x)
settle_row e p' x events paid names marked zero_before counted =
    ground
      (arith, count-append (pays p'.id) events (e ∷ []), count-append (pays x.id) events (e ∷ []))

-- The application of a payment that has no entry yet: one entry for it, and its mark.
settle-AppliedOnce :
    (e : SubscriptionEvent) (p' : Payment) (events : List SubscriptionEvent) (rows : List Payment)
    → is_paid_online e.event_type ≡ true
    → e.payment_id ≡ some p'.id
    → is_some p'.applied_at ≡ true
    → count (pays p'.id) events ≡ 0
    → All (IsCounted events) rows
    → All (IsCounted (events ++ e ∷ [])) (update (λ r. r.id == p'.id) (λ _. p') rows)
settle-AppliedOnce e p' events [] paid names marked zero_before all = tt
settle-AppliedOnce e p' events (x ∷ rows) paid names marked zero_before all = (
  settle_row e p' x events paid names marked zero_before all.0,
  settle-AppliedOnce e p' events rows paid names marked zero_before all.1,
)

-- A write of a row that keeps the id and the mark.
save-AppliedOnce :
    (db : Db) (p p' : Payment)
    → IsCounted db.events p
    → p'.id ≡ p.id
    → p'.applied_at ≡ p.applied_at
    → AppliedOnce db
    → AppliedOnce (save_payment p' db)
unfolding save_payment
save-AppliedOnce db p p' c ei ea all =
    All-update (IsCounted db.events) (λ r. r.id == p'.id) p' db.payments all (rw (ei, ea) c)

commit-AppliedOnce :
    (db : Db) (p p' : Payment) (sub after : Subscription) (note : EventNote) (event_id : ℕ)
    → AppliedOnce db
    → IsCounted db.events p
    → is_some p.applied_at ≡ false
    → p'.id ≡ p.id
    → is_some p'.applied_at ≡ true
    → AppliedOnce (
        save_payment p'
          (append_event (paid_event p sub after note event_id) (save_subscription after db)))
unfolding save_payment save_subscription
commit-AppliedOnce db p p' sub after note event_id all c fresh same marked =
    settle-AppliedOnce (paid_event p sub after note event_id) p' db.events db.payments refl
      (rw same refl) marked (rw same (ground arith)) all

refund-AppliedOnce :
    (db : Db) (p : Payment) (amount : ℤ) (event_id : ℕ)
    → IsCounted db.events p
    → AppliedOnce db
    → AppliedOnce (
        append_event
          (refund_event p amount event_id)
          (save_payment (record p { status = PaymentStatus.refunded }) db))
unfolding save_payment
refund-AppliedOnce db p amount event_id c all =
    let p' = record p { status = PaymentStatus.refunded } in
    append-AppliedOnce (refund_event p amount event_id) db.events (save_payment p' db).payments refl
      (save-AppliedOnce db p p' c refl refl all)

-- None of the effects of the payment services breaks the count.
pub Effect-AppliedOnce :
    {call : Call} {db db' : Db} → Effect call db db' → AppliedOnce db → AppliedOnce db'
Effect-AppliedOnce (kept quiet) all = all
Effect-AppliedOnce {db} (only_noted p answer asked idle) all =
    save-AppliedOnce db p _ (All-In (IsCounted db.events) all asked.stored) refl refl all
Effect-AppliedOnce {db} (canceled p answer asked says waiting) all =
    save-AppliedOnce db p _ (All-In (IsCounted db.events) all asked.stored) refl refl all
Effect-AppliedOnce {db} (received p answer asked says fresh gone) all =
    save-AppliedOnce db p _ (All-In (IsCounted db.events) all asked.stored) refl refl all
Effect-AppliedOnce {call} {db} (applied p answer sub change asked says fresh es live ek) all =
    commit-AppliedOnce db p _ sub change.0 change.1 call.t.event_id all
      (All-In (IsCounted db.events) all asked.stored) fresh refl refl
Effect-AppliedOnce {call} {db} (refunded p refund stored named told fresh) all =
    refund-AppliedOnce db p _ call.t.event_id (All-In (IsCounted db.events) all stored) all
