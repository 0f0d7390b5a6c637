-- ===== src/Billing/Payments/Noted.antt =====
-- The tables after `reconcile_payment` of src/app/services/billing.py has stored the provider's answer.
use smenka_back.Prelude.{
  ◌≡◌, refl, ap, true, false, some, List, [], ◌∷◌, arith, In, here, there, find, update, Bool-cases,
  inl, inr, ok, ◌==◌, if◌then◌else◌,
}
use smenka_back.Access.{is_some}
use smenka_back.Billing.Answers.{ProviderData}
use smenka_back.Billing.Tables.{
  Subscription, SubscriptionEvent, Payment, Db, subscription_of, save_subscription, find_payment,
  save_payment,
}
use smenka_back.Billing.Payments.{Stamps, noted, append_event, apply_to, apply_payment}

update-twice :
    (a b : Payment) (rows : List Payment)
    → b.id ≡ a.id
    → update (λ r. r.id == a.id) (λ _. a) (update (λ r. r.id == b.id) (λ _. b) rows)
      ≡ update (λ r. r.id == a.id) (λ _. a) rows
update-twice a b [] same = refl
update-twice a b (x ∷ rows) same = elim (Bool-cases (x.id == b.id)) [
  | inl hit ↦
      let own : (b.id == a.id) ≡ true = ground arith in
      let old : (x.id == a.id) ≡ true = ground arith in
      rw (hit, own, old) (ap (λ l. a ∷ l) (update-twice a b rows same))
  | inr miss ↦ rw miss (ap (λ l. (if x.id == a.id then a else x) ∷ l) (update-twice a b rows same))
]

-- The second of two writes of a row stays.
pub save_payment-twice :
    (db : Db) (a b : Payment) → b.id ≡ a.id → save_payment a (save_payment b db) ≡ save_payment a db
unfolding save_payment
save_payment-twice db a b same =
    ap (λ rows. record db { payments = rows }) (update-twice a b db.payments same)

-- So it is with an application in between.
pub save_payment-around :
    (db : Db) (a b : Payment) (event : SubscriptionEvent) (after : Subscription)
    → b.id ≡ a.id
    → save_payment a (append_event event (save_subscription after (save_payment b db)))
      ≡ save_payment a (append_event event (save_subscription after db))
unfolding save_payment save_subscription
save_payment-around db a b event after same =
    ap (λ rows. record (append_event event (save_subscription after db)) { payments = rows })
      (update-twice a b db.payments same)

find-saved :
    (p a : Payment) (rows : List Payment)
    → In p rows
    → a.id ≡ p.id
    → find (λ r. r.id == a.id) (update (λ r. r.id == a.id) (λ _. a) rows) ≡ some a
find-saved p a (x ∷ rows) i same = elim (Bool-cases (x.id == a.id)) [
  | inl hit ↦ let own : (a.id == a.id) ≡ true = ground arith in rw (hit, own) refl
  | inr miss ↦ rw (miss, miss) (find-saved p a rows (later i miss) same)
]
  where
    later :
        {x : Payment} {rows : List Payment} → In p (x ∷ rows) → (x.id == a.id) ≡ false → In p rows
    later (here rows) miss = absurd (ground arith)
    later (there b i) miss = i
find-saved p a [] i same = elim i [ ]

module _ (db : Db) (p : Payment) (answer : ProviderData) (stored : In p db.payments) where
  pub find_payment-noted :
      find_payment (save_payment (noted p answer) db) p.id ≡ some (noted p answer)
  unfolding find_payment save_payment
  find_payment-noted = find-saved p (noted p answer) db.payments stored refl

  pub apply_payment-noted :
      (t : Stamps)
      → let db' = save_payment (noted p answer) db in
        apply_payment db' p.id answer t ≡ (
          if is_some p.applied_at
          then ok (db', noted p answer)
          else apply_to (subscription_of db' p.organization_id) db' (noted p answer) answer t)
  unfolding apply_payment
  apply_payment-noted t = rw find_payment-noted refl
