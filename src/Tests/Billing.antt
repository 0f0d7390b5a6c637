-- ===== src/Tests/Billing.antt =====
-- Subscriptions, the guards and the daily task at concrete inputs.
use smenka_back.Prelude.{
  ◌*◌, ◌+◌, ◌≤◌, ◌≡◌, refl, ◌↔◌, ◌⊎◌, false, none, some, [], pos, ok, err, arith,
  subscription_inactive,
}
use smenka_back.Calendar.{day, calendar}
use smenka_back.Access.{get_organization, is_super_admin}
use smenka_back.Billing.Tables.{
  Subscription, SubscriptionStatus, plan_changed, status_changed, EventNote, Db, subscription_of,
  save_subscription,
}
use smenka_back.Billing.Entitlements.{
  EffectiveStatus, compute_effective_status, require_active_subscription, entitlements,
}
use smenka_back.Billing.Entitlements.Status.{
  Boundaries, compute_effective_status-Boundaries, severity, compute_effective_status_mono,
}
use smenka_back.Billing.Entitlements.Guards.{ReadOnly, require_active_subscription_lem}
use smenka_back.Billing.Calc.{compute_extend_amount}
use smenka_back.Billing.Subscriptions.{
  Patch, patch_plan, patch_status, check_period, patch_subscription, target_plan,
  extend_subscription, extended, record_edit, edit_event, finish_patch, patch_dates,
}
use smenka_back.Billing.Subscriptions.Edits.{Renewed, extend_subscription-Renewed}
use smenka_back.Billing.Subscriptions.Patching.{
  IsComplete, AllComplete, patch_subscription-AllComplete,
}
use smenka_back.Billing.Notices.{decide_action, nothing, suspend, mark, notify_subscription_status}
use smenka_back.Billing.Notices.Repeat.{notify_subscription_status-twice}
use smenka_back.Billing.Notices.Suspension.{decide_action-suspend}
use smenka_back.Tests.Fixtures.{db, trial, shop, people}

unfoldable run : Unit {0}
unfolding calendar entitlements save_subscription get_organization patch_plan patch_status
    check_period patch_subscription target_plan extend_subscription compute_extend_amount
    decide_action
run = tt

abbrev longer : Subscription
longer = extended trial "standard" (100 * day) none 99 (5 * day)

abbrev longer_db : Db
longer_db =
    record_edit longer
      (edit_event 50 plan_changed trial longer (some 3) (some (pos 300000)) EventNote.no_note 99) db

extension_runs :
    extend_subscription db 1 99 3 (some "standard") none none (5 * day) 50 ≡ ok (longer_db, longer)
unfolding run
extension_runs = refl

extend_subscription-Renewed_example : Renewed db 1 (5 * day) longer_db longer
extend_subscription-Renewed_example =
    extend_subscription-Renewed db 1 99 3 (some "standard") none none (5 * day) 50 longer_db longer
      extension_runs

trial-IsComplete : IsComplete trial
trial-IsComplete = record { active_has_end = λ e. cc; trial_has_end = λ e. refl }

abbrev stop : Patch
stop = record {
  plan_code = none;
  status = some SubscriptionStatus.active;
  trial_ends_at = none;
  current_period_start = none;
  current_period_end = some (40 * day);
  note = none;
}

abbrev stopped : Subscription
stopped =
    finish_patch stop 99 (patch_dates stop (record trial { status = SubscriptionStatus.active }))

abbrev stopped_db : Db
stopped_db =
    record_edit stopped (edit_event 51 status_changed trial stopped none none EventNote.no_note 99)
      db

patch_runs : patch_subscription db 1 99 stop 51 ≡ ok (stopped_db, stopped)
unfolding run
patch_runs = refl

patch_subscription-AllComplete_example : AllComplete stopped_db × IsComplete stopped
patch_subscription-AllComplete_example =
    patch_subscription-AllComplete db 1 99 stop 51 stopped_db stopped (trial-IsComplete, tt)
      patch_runs

compute_effective_status-Boundaries_example :
    Boundaries EffectiveStatus.trialing
      (compute_effective_status trial (12 * day))
      (10 * day)
      (12 * day)
compute_effective_status-Boundaries_example =
    compute_effective_status-Boundaries trial (12 * day) (10 * day) refl

compute_effective_status_mono_example :
    severity (compute_effective_status trial (5 * day))
    ≤ severity (compute_effective_status trial (12 * day))
compute_effective_status_mono_example =
    compute_effective_status_mono trial (5 * day) (12 * day) (omega arith)

require_active_subscription_lem_example :
    ((require_active_subscription db shop 10 (30 * day) ≡ err subscription_inactive)
      ↔ ((is_super_admin people 10 ≡ false) × ReadOnly (subscription_of db 1) (30 * day)))
    × ((require_active_subscription db shop 10 (30 * day) ≡ ok tt)
        ⊎ (require_active_subscription db shop 10 (30 * day) ≡ err subscription_inactive))
require_active_subscription_lem_example = require_active_subscription_lem db shop 10 (30 * day)

has_trial : subscription_of db 1 ≡ some trial
unfolding run
has_trial = refl

notify_subscription_status-twice_example :
    notify_subscription_status
      (notify_subscription_status db (20 * day) (λ o. o + 60)).0
      (20 * day)
      (λ o. o + 70)
    ≡ ((notify_subscription_status db (20 * day) (λ o. o + 60)).0, [])
notify_subscription_status-twice_example =
    notify_subscription_status-twice db (20 * day) (λ o. o + 60) (λ o. o + 70)

trial_is_over : decide_action trial (20 * day) ≡ suspend
unfolding run
trial_is_over = refl

decide_action-suspend_example : decide_action (mark suspend trial) (21 * day) ≡ nothing
decide_action-suspend_example =
    decide_action-suspend trial (20 * day) (21 * day) trial_is_over (omega arith)
