-- ===== src/Billing/Subscriptions/Patching.antt =====
-- `patch_subscription` of src/app/services/subscription.py and the dates that a status needs.
use smenka_back.Prelude.{
  ℕ, ◌≡◌, refl, true, arith, ok, >>=-Ensures, Ensures, returns, ensured, All, All-update, ◌==◌,
}
use smenka_back.Access.{get_organization, is_some}
use smenka_back.Billing.Tables.{Subscription, SubscriptionStatus, Db, save_subscription}
use smenka_back.Billing.Entitlements.{get_subscription}
use smenka_back.Billing.Subscriptions.{
  Patch, patch_plan, patch_status, patch_dates, check_period, finish_patch, patch_subscription,
}

-- A row with status active has the end of its period, and a row with status trialing has the end
-- of its trial.
pub record IsComplete (sub : Subscription) : Type 0 where
  pub active_has_end :
      sub.status ≡ SubscriptionStatus.active → is_some sub.current_period_end ≡ true
  pub trial_has_end : sub.status ≡ SubscriptionStatus.trialing → is_some sub.trial_ends_at ≡ true

abbrev pub AllComplete : Db → Type 0
AllComplete db = All IsComplete db.subscriptions

check_period-IsComplete :
    (sub after : Subscription)
    → check_period sub ≡ ok tt
    → after.status ≡ sub.status
    → after.current_period_end ≡ sub.current_period_end
    → after.trial_ends_at ≡ sub.trial_ends_at
    → IsComplete after
unfolding check_period
check_period-IsComplete sub after h es ee et = record {
  active_has_end = λ e. ground arith;
  trial_has_end = λ e. ground arith;
}

save_subscription-AllComplete :
    (db : Db) (sub : Subscription)
    → AllComplete db
    → IsComplete sub
    → AllComplete (save_subscription sub db)
unfolding save_subscription
save_subscription-AllComplete db sub h c =
    All-update IsComplete (λ r. r.organization_id == sub.organization_id) sub db.subscriptions h c

-- What a patch ensures of the row and of the table.
abbrev Completes : Db → Db × Subscription → Type 0
Completes db r = IsComplete r.1 × (AllComplete db → AllComplete r.0)

patch-Completes :
    (db : Db) (org_id actor : ℕ) (p : Patch) (event_id : ℕ)
    → Ensures (Completes db) (patch_subscription db org_id actor p event_id)
unfolding patch_subscription
patch-Completes db org_id actor p event_id =
    >>=-Ensures (get_organization db.directory org_id) _ λ org _.
      >>=-Ensures (get_subscription db org_id) _ λ sub found.
        >>=-Ensures (patch_plan db p.plan_code sub) _ λ planned _.
          >>=-Ensures (patch_status p.status planned.0) _ λ staged _.
            >>=-Ensures (check_period (patch_dates p staged)) _ λ _ checked.
              let c =
                check_period-IsComplete (patch_dates p staged)
                  (finish_patch p actor (patch_dates p staged)) checked refl refl refl in
              returns _ (
                c,
                λ h.
                    save_subscription-AllComplete db (finish_patch p actor (patch_dates p staged)) h
                      c,
              )

-- A patch that succeeds leaves a complete row, and keeps every row of the table complete.
pub patch_subscription-AllComplete :
    (db : Db) (org_id actor : ℕ) (p : Patch) (event_id : ℕ) (db' : Db) (after : Subscription)
    → AllComplete db
    → patch_subscription db org_id actor p event_id ≡ ok (db', after)
    → AllComplete db' × IsComplete after
patch_subscription-AllComplete db org_id actor p event_id db' after h e =
    let c = ensured (db', after) (patch-Completes db org_id actor p event_id) e in (c.1 h, c.0)
