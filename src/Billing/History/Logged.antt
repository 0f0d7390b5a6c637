-- ===== src/Billing/History/Logged.antt =====
-- The row and the journal entry that the edits of src/app/services/subscription.py write.
use smenka_back.Prelude.{
  ℕ, ◌≡◌, refl, Bool, true, false, not, ◌&&◌, Option, String, ℤ, if◌then◌else◌, leb, ok, raise_if,
  >>=-Ensures, Ensures, returns, ensured, validation_error,
}
use smenka_back.Calendar.{add_months}
use smenka_back.Access.{get_organization}
use smenka_back.Billing.Tables.{Subscription, SubscriptionEvent, SubscriptionEventType, Db}
use smenka_back.Billing.Entitlements.{get_subscription}
use smenka_back.Billing.Subscriptions.{
  Patch, patch_plan, patch_status, patch_dates, check_period, patch_subscription, record_edit,
  extension_base, target_plan, extend_subscription, extend_min_months, extend_max_months,
}
use smenka_back.Billing.Payments.Once.{is_paid_online}

pub record Logged (db db' : Db) : Type 0 where
  pub row : Subscription
  pub entry : SubscriptionEvent
  pub written : db' ≡ record_edit row entry db
  pub offline : is_paid_online entry.event_type ≡ false

either_offline :
    (b : Bool) (x y : SubscriptionEventType)
    → is_paid_online x ≡ false
    → is_paid_online y ≡ false
    → is_paid_online (if b then x else y) ≡ false
either_offline true x y hx hy = hx
either_offline false x y hx hy = hy

patch-Logged :
    (db : Db) (org_id actor : ℕ) (p : Patch) (event_id : ℕ)
    → Ensures
        (λ (r : Db × Subscription). Logged db r.0)
        (patch_subscription db org_id actor p event_id)
unfolding patch_subscription
patch-Logged db org_id actor p event_id =
    >>=-Ensures (get_organization db.directory org_id) _ λ org _.
      >>=-Ensures (get_subscription db org_id) _ λ sub found.
        >>=-Ensures (patch_plan db p.plan_code sub) _ λ planned _.
          >>=-Ensures (patch_status p.status planned.0) _ λ staged _.
            >>=-Ensures (check_period (patch_dates p staged)) _ λ _ checked. returns _ (record {
              row = _;
              entry = _;
              written = refl;
              offline =
                  either_offline planned.1 SubscriptionEventType.plan_changed
                    SubscriptionEventType.status_changed refl refl;
            })

extend-Logged :
    (db : Db) (org_id actor months : ℕ) (code : Option String) (amount : Option ℤ)
    (remark : Option String) (now event_id : ℕ)
    → Ensures
        (λ (r : Db × Subscription). Logged db r.0)
        (extend_subscription db org_id actor months code amount remark now event_id)
unfolding extend_subscription
extend-Logged db org_id actor months code amount remark now event_id =
    >>=-Ensures
      (raise_if (not (leb extend_min_months months && leb months extend_max_months))
        validation_error)
      _
      λ _ allowed. >>=-Ensures (get_organization db.directory org_id) _ λ org _.
        >>=-Ensures (get_subscription db org_id) _ λ sub found.
          >>=-Ensures (target_plan db code sub) _ λ plan _.
            >>=-Ensures (add_months (extension_base sub now) months) _ λ new_end shifted.
              returns _ (record {
                row = _;
                entry = _;
                written = refl;
                offline =
                    either_offline plan.1 SubscriptionEventType.plan_changed
                      SubscriptionEventType.extended refl refl;
              })

pub patch_subscription-Logged :
    (db : Db) (org_id actor : ℕ) (p : Patch) (event_id : ℕ) (db' : Db) (after : Subscription)
    → patch_subscription db org_id actor p event_id ≡ ok (db', after)
    → Logged db db'
patch_subscription-Logged db org_id actor p event_id db' after e =
    ensured (db', after) (patch-Logged db org_id actor p event_id) e

pub extend_subscription-Logged :
    (db : Db) (org_id actor months : ℕ) (code : Option String) (amount : Option ℤ)
    (remark : Option String) (now event_id : ℕ) (db' : Db) (after : Subscription)
    → extend_subscription db org_id actor months code amount remark now event_id ≡ ok (db', after)
    → Logged db db'
extend_subscription-Logged db org_id actor months code amount remark now event_id db' after e =
    ensured (db', after) (extend-Logged db org_id actor months code amount remark now event_id) e
