-- ===== src/Billing/Payments/Agreement.antt =====
-- The online extension of src/app/services/billing.py and the manual one of
-- src/app/services/subscription.py compared.
use smenka_back.Prelude.{
  ℕ, ◌≡◌, refl, sym, subst, Bool, not, ◌&&◌, Option, some, String, ℤ, arith, find, str_eq, leb,
  find-passes, eq_iff, >>=-eq-ok, ok, raise_if, >>=-Ensures, Ensures, returns, ensured,
  validation_error,
}
use smenka_back.Calendar.{add_months}
use smenka_back.Access.{get_organization}
use smenka_back.Billing.Tables.{Plan, Subscription, EventNote, Payment, PaymentKind, Db}
use smenka_back.Billing.Entitlements.{get_subscription, get_plan, get_active_plan}
use smenka_back.Billing.Subscriptions.{
  extension_base, extended, target_plan, extend_subscription, extend_min_months, extend_max_months,
}
use smenka_back.Billing.Payments.{apply_kind, extended_online}

-- Two rows grant the same access: all that the effective status, the limits and the features read.
pub record SameAccess (a b : Subscription) : Type 0 where
  pub same_plan : a.plan_code ≡ b.plan_code
  pub same_status : a.status ≡ b.status
  pub same_trial : a.trial_ends_at ≡ b.trial_ends_at
  pub same_start : a.current_period_start ≡ b.current_period_start
  pub same_end : a.current_period_end ≡ b.current_period_end
  pub same_notice : a.last_expiry_notice_days ≡ b.last_expiry_notice_days

-- What the online extension by payment `p` makes of `sub`, next to the row `manual`.
pub record Online (p : Payment) (sub : Subscription) (now : ℕ) (manual : Subscription)
    : Type 0 where
  pub row : Subscription
  pub text : EventNote
  pub computed : apply_kind PaymentKind.extend p sub now ≡ ok (row, text)
  pub same : SameAccess row manual

plan_code_found :
    (db : Db) (code : String) (plan : Plan) → get_active_plan db code ≡ ok plan → plan.code ≡ code
unfolding get_active_plan get_plan
plan_code_found db code plan e =
    let asked : find (λ (p : Plan). str_eq p.code code) db.plans ≡ some plan = ground arith in
    (eq_iff plan.code code).0 (find-passes (λ (p : Plan). str_eq p.code code) plan db.plans asked)

the_result : {A : Type 0} (a b : A) → ok a ≡ ok b → a ≡ b
the_result a b e = cc

target_code :
    (db : Db) (code : String) (sub : Subscription) (plan : Plan × Bool)
    → target_plan db (some code) sub ≡ ok plan
    → plan.0.code ≡ code
unfolding target_plan
target_code db code sub plan e =
    let (found, known, built) =
      >>=-eq-ok (get_active_plan db code) (λ p. ok (p, not (str_eq p.code sub.plan_code))) e in
    subst (λ (x : Plan × Bool). x.0.code ≡ code) (the_result _ plan built)
      (plan_code_found db code found known)

the_subscription :
    (db : Db) (org_id : ℕ) (s sub : Subscription)
    → get_subscription db org_id ≡ ok s
    → get_subscription db org_id ≡ ok sub
    → s ≡ sub
the_subscription db org_id s sub es e = cc

apply_extend :
    (p : Payment) (sub : Subscription) (now months new_end : ℕ)
    → p.months ≡ some months
    → add_months (extension_base sub now) months ≡ ok new_end
    → apply_kind PaymentKind.extend p sub now
      ≡ ok (
        extended_online sub p.plan_code new_end now,
        EventNote.extended_online months p.discount_percent,
      )
unfolding apply_kind
apply_extend p sub now months new_end em es = rw (em, es) refl

extend-Online :
    (db : Db) (org_id actor months : ℕ) (amount : Option ℤ) (remark : Option String)
    (now event_id : ℕ) (p : Payment) (sub : Subscription)
    → get_subscription db org_id ≡ ok sub
    → p.months ≡ some months
    → Ensures
        (λ (r : Db × Subscription). Online p sub now r.1)
        (extend_subscription db org_id actor months (some p.plan_code) amount remark now event_id)
unfolding extend_subscription
extend-Online db org_id actor months amount remark now event_id p sub known em =
    >>=-Ensures
      (raise_if (not (leb extend_min_months months && leb months extend_max_months))
        validation_error)
      _
      λ _ _. >>=-Ensures (get_organization db.directory org_id) _ λ org _.
        >>=-Ensures (get_subscription db org_id) _ λ s found.
          >>=-Ensures (target_plan db (some p.plan_code) s) _ λ plan named.
            >>=-Ensures (add_months (extension_base s now) months) _ λ new_end shifted.
              let manual = extended s plan.0.code new_end remark actor now in
              returns _ (
                subst (λ x. Online p x now manual) (the_subscription db org_id s sub found known)
                  (record {
                    row = extended_online s p.plan_code new_end now;
                    text = EventNote.extended_online months p.discount_percent;
                    computed = apply_extend p s now months new_end em shifted;
                    same = record {
                      same_plan = sym (target_code db p.plan_code s plan named);
                      same_status = refl;
                      same_trial = refl;
                      same_start = refl;
                      same_end = refl;
                      same_notice = refl;
                    };
                  }))

-- If a super admin can extend a subscription by some months to a plan, an online payment for the same
-- months and plan is applied at that time without an error, and leaves a row with the same plan,
-- status, start and end of the period and the same mark of notices.
pub apply_kind-extend_subscription :
    (db : Db) (org_id actor months : ℕ) (amount : Option ℤ) (remark : Option String)
    (now event_id : ℕ) (p : Payment) (sub : Subscription) (db' : Db) (manual : Subscription)
    → get_subscription db org_id ≡ ok sub
    → p.months ≡ some months
    → extend_subscription db org_id actor months (some p.plan_code) amount remark now event_id
      ≡ ok (db', manual)
    → Online p sub now manual
apply_kind-extend_subscription db org_id actor months amount remark now event_id p sub db' manual
      known em e =
    ensured (db', manual)
      (extend-Online db org_id actor months amount remark now event_id p sub known em) e
