-- ===== src/Billing/Checkout/Creation.antt =====
-- What `create_checkout` of src/app/services/billing.py returns and writes.
use smenka_back.Prelude.{
  ℕ, ◌+◌, ◌*◌, ◌≤◌, ◌≡◌, refl, ap, str_eq, or_raise-some, subscription_not_found, inl, inr, Bool,
  true, not, Option, none, some, List, [], ◌∷◌, String, ℤ, pos, ◌≤ℤ◌, ltb_ℤ, arith, ltb, select,
  All, subst, ok, raise_if, or_raise, >>=-Ensures, Ensures, returns, ensured, billing_disabled,
  validation_error, payment_amount_limit, payment_provider_error, Bool-cases,
}
use smenka_back.Calendar.{minute}
use smenka_back.Billing.Tables.{
  Subscription, Payment, PaymentKind, PaymentStatus, Db, subscription_of,
}
use smenka_back.Billing.Entitlements.{get_subscription}
use smenka_back.Billing.Payments.Fitting.{is_pending-pending}
use smenka_back.Billing.Checkout.Prices.{Priced}
use smenka_back.Billing.Checkout.Quoted.{quote-Priced}
use smenka_back.Billing.Answers.{ProviderCreated}
use smenka_back.Billing.Checkout.{Settings, Quote, quote}
use smenka_back.Billing.Checkout.Request.{
  is_reusable, newest, find_reusable_pending_payment, new_payment, insert_payment, reuse_or_create,
  create_checkout, newer, same_kind, is_months,
}

-- What was asked for: a kind of purchase, for an organization with a subscription, at the price of
-- the catalog, which is within the limit.
pub record Purchase (settings : Settings) (db : Db) (org_id : ℕ) (kind_text : Option PaymentKind)
    (code : String) (months : Option ℕ) (now : ℕ) (kind : PaymentKind) (q : Quote) : Type 0 where
  pub sub : Subscription
  pub asked : kind_text ≡ some kind
  pub subscribed : subscription_of db org_id ≡ some sub
  pub priced : Priced kind db sub code months now q
  pub allowed : q.amount_minor ≤ℤ pos settings.billing_max_payment_minor

-- A pending payment for the same purchase that is younger than fifteen minutes.
pub Reusable : ℕ → PaymentKind → Quote → ℕ → Payment → Type 0
Reusable org_id kind q now p =
    (p.organization_id ≡ org_id)
    × (p.status ≡ PaymentStatus.pending)
    × (p.kind ≡ kind)
    × (str_eq p.plan_code q.target_plan_code ≡ true)
    × (p.months ≡ some q.final_months)
    × (now ≤ p.created_at + 15 * minute)

-- A payment that is opened now.
pub Opened : ℕ → ℕ → PaymentKind → Quote → ℕ → Payment → Type 0
Opened org_id actor_id kind q now p =
    (p.organization_id ≡ org_id)
    × (p.status ≡ PaymentStatus.pending)
    × (p.kind ≡ kind)
    × (p.plan_code ≡ q.target_plan_code)
    × (p.months ≡ some q.final_months)
    × (p.amount_minor ≡ q.amount_minor)
    × (p.applied_at ≡ none)
    × (p.created_by_user_id ≡ some actor_id)
    × (p.created_at ≡ now)

-- How a checkout ends: with a stored payment that is reused, or with a new one.
pub data Checkout (settings : Settings) (db : Db) (org_id actor_id : ℕ)
    (kind_text : Option PaymentKind) (code : String) (months : Option ℕ) (now payment_id : ℕ)
    : Db → Payment → Type 0 where
  reused :
      (p : Payment) (kind : PaymentKind) (q : Quote)
      → Purchase settings db org_id kind_text code months now kind q
      → find_reusable_pending_payment db org_id kind q.target_plan_code q.final_months now ≡ some p
      → Reusable org_id kind q now p
      → Checkout settings db org_id actor_id kind_text code months now payment_id db p
  created :
      (kind : PaymentKind) (q : Quote) (answer : ProviderCreated)
      → Purchase settings db org_id kind_text code months now kind q
      → find_reusable_pending_payment db org_id kind q.target_plan_code q.final_months now ≡ none
      → Opened org_id actor_id kind q now
          (new_payment payment_id org_id actor_id kind q settings.is_live answer now)
      → Checkout settings db org_id actor_id kind_text code months now payment_id
          (insert_payment
            (new_payment payment_id org_id actor_id kind q settings.is_live answer now)
            db)
          (new_payment payment_id org_id actor_id kind q settings.is_live answer now)

newer-All :
    (P : Payment → Type 0) (x p : Payment) (o : Option Payment)
    → P x
    → ((q : Payment) → o ≡ some q → P q)
    → newer x o ≡ some p
    → P p
newer-All P x p none hx ho e = let same : x ≡ p = cc in subst P same hx
newer-All P x p (some q) hx ho e = elim (Bool-cases (ltb x.created_at q.created_at)) [
  | inl later ↦
      let found : some q ≡ some p = rw later at e in
      let same : q ≡ p = cc found in subst P same (ho q refl)
  | inr first ↦
      let found : some x ≡ some p = rw first at e in let same : x ≡ p = cc found in subst P same hx
]

-- The newest of some rows is one of them.
newest-All :
    (P : Payment → Type 0) (rows : List Payment) (p : Payment)
    → All P rows
    → newest rows ≡ some p
    → P p
unfolding newest
newest-All P [] p h e = cc
newest-All P (x ∷ rows) p h e =
    newer-All P x p (newest rows) h.0 (λ q eq. newest-All P rows q h.1 eq) e

select-All : {A : Type 0} (f : A → Bool) (rows : List A) → All (λ x. f x ≡ true) (select f rows)
select-All f [] = tt
select-All f (x ∷ rows) = elim (Bool-cases (f x)) [
  | inl hit ↦ rw hit (hit, select-All f rows)
  | inr miss ↦ rw miss (select-All f rows)
]

find_reusable-is_reusable :
    (db : Db) (org_id : ℕ) (kind : PaymentKind) (code : String) (months now : ℕ) (p : Payment)
    → find_reusable_pending_payment db org_id kind code months now ≡ some p
    → is_reusable org_id kind code months now p ≡ true
unfolding find_reusable_pending_payment
find_reusable-is_reusable db org_id kind code months now p e =
    newest-All (λ x. is_reusable org_id kind code months now x ≡ true)
      (select (is_reusable org_id kind code months now) db.payments) p
      (select-All (is_reusable org_id kind code months now) db.payments) e

within_limit :
    (limit : ℕ) (amount : ℤ)
    → raise_if (ltb_ℤ (pos limit) amount) payment_amount_limit ≡ ok tt
    → amount ≤ℤ pos limit
within_limit limit amount h = ground arith

same_kind-same : (a b : PaymentKind) → same_kind a b ≡ true → a ≡ b
same_kind-same PaymentKind.extend PaymentKind.extend h = refl
same_kind-same PaymentKind.extend PaymentKind.upgrade h = cc
same_kind-same PaymentKind.upgrade PaymentKind.extend h = cc
same_kind-same PaymentKind.upgrade PaymentKind.upgrade h = refl

is_months-some : (o : Option ℕ) (k : ℕ) → is_months o k ≡ true → o ≡ some k
is_months-some none k h = cc
is_months-some (some m) k h = let same : m ≡ k = ground arith in ap some same

is_reusable-Reusable :
    (org_id : ℕ) (kind : PaymentKind) (q : Quote) (now : ℕ) (p : Payment)
    → is_reusable org_id kind q.target_plan_code q.final_months now p ≡ true
    → Reusable org_id kind q now p
unfolding Reusable
is_reusable-Reusable org_id kind q now p h = (
  ground arith,
  is_pending-pending p.status (ground arith),
  same_kind-same p.kind kind (ground arith),
  ground arith,
  is_months-some p.months q.final_months (ground arith),
  ground arith,
)

module _ (settings : Settings) (db : Db) (org_id actor_id : ℕ) (kind_text : Option PaymentKind)
    (code : String) (months : Option ℕ) (answered : Option ProviderCreated)
    (now payment_id : ℕ) where
  reuse_or_create-Checkout :
      (found : Option Payment) (kind : PaymentKind) (q : Quote)
      → Purchase settings db org_id kind_text code months now kind q
      → find_reusable_pending_payment db org_id kind q.target_plan_code q.final_months now ≡ found
      → Ensures
          (λ (r : Db × Payment).
            Checkout settings db org_id actor_id kind_text code months now payment_id r.0 r.1)
          (reuse_or_create found settings db org_id actor_id kind q answered now payment_id)
  unfolding reuse_or_create Opened
  reuse_or_create-Checkout (some p) kind q purchase e = returns _ (
      reused p kind q purchase e (
        is_reusable-Reusable org_id kind q now p
          (find_reusable-is_reusable db org_id kind q.target_plan_code q.final_months now p e)))
  reuse_or_create-Checkout none kind q purchase e =
      >>=-Ensures (or_raise answered payment_provider_error) _ λ answer _.
        returns _
          (created kind q answer purchase e (refl, refl, refl, refl, refl, refl, refl, refl, refl))

  pub create_checkout-Ensures :
      Ensures
        (λ (r : Db × Payment).
          Checkout settings db org_id actor_id kind_text code months now payment_id r.0 r.1)
        (create_checkout settings db org_id actor_id kind_text code months answered now payment_id)
  unfolding create_checkout get_subscription
  create_checkout-Ensures =
      >>=-Ensures (raise_if (not settings.yookassa_enabled) billing_disabled) _ λ _ _.
        >>=-Ensures (or_raise kind_text validation_error) _ λ kind k.
          >>=-Ensures (get_subscription db org_id) _ λ sub s.
            >>=-Ensures (quote kind db sub code months now) _ λ q priced.
              >>=-Ensures
                (raise_if (ltb_ℤ (pos settings.billing_max_payment_minor) q.amount_minor)
                  payment_amount_limit)
                _
                λ _ allowed.
                  reuse_or_create-Checkout
                    (find_reusable_pending_payment db org_id kind q.target_plan_code q.final_months
                      now)
                    kind q
                    (record {
                      sub = sub;
                      asked = or_raise-some kind_text kind validation_error k;
                      subscribed =
                          or_raise-some (subscription_of db org_id) sub subscription_not_found s;
                      priced = ensured q (quote-Priced kind db sub code months now) priced;
                      allowed =
                          within_limit settings.billing_max_payment_minor q.amount_minor allowed;
                    })
                    refl

-- A successful checkout is of the kind that was asked for, extension or upgrade, at the price that
-- follows from the catalog, the subscription and the months that were asked for (`ExtendPrice`,
-- `UpgradePrice`), which is within the limit. It writes nothing and returns the payment that the
-- reuse query finds, which is pending, for the same organization, kind, plan and months and at most
-- fifteen minutes old; or, where the query finds none, it inserts and returns a new pending payment
-- for the kind, plan, months and amount of the quote.
pub create_checkout-Checkout :
    (settings : Settings) (db : Db) (org_id actor_id : ℕ) (kind_text : Option PaymentKind)
    (code : String) (months : Option ℕ) (answered : Option ProviderCreated) (now payment_id : ℕ)
    (db' : Db) (p : Payment)
    → create_checkout settings db org_id actor_id kind_text code months answered now payment_id
      ≡ ok (db', p)
    → Checkout settings db org_id actor_id kind_text code months now payment_id db' p
create_checkout-Checkout settings db org_id actor_id kind_text code months answered now payment_id
      db' p e =
    ensured (db', p)
      (create_checkout-Ensures settings db org_id actor_id kind_text code months answered now
        payment_id)
      e
