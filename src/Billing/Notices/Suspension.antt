-- ===== src/Billing/Notices/Suspension.antt =====
-- How often the task of src/app/tasks/subscriptions.py tells of a suspension and of an expiry.
use smenka_back.Prelude.{ℕ, ◌≤◌, ◌≡◌, refl, Option, some, arith, ℤ}
use smenka_back.Billing.Tables.{Subscription}
use smenka_back.Billing.Entitlements.{EffectiveStatus, compute_effective_status, days_left}
use smenka_back.Billing.Entitlements.Status.{severity, compute_effective_status_mono}
use smenka_back.Billing.Notices.{nothing, suspend, action_for, decide_action, mark}
use smenka_back.Billing.Notices.Repeat.{mark-status}

suspend_means :
    (s : EffectiveStatus) (dl : Option ℤ) (last : Option ℕ)
    → action_for s dl last ≡ suspend
    → severity s ≡ 2
suspend_means EffectiveStatus.suspended dl last h = refl
suspend_means s dl last h = ground arith

stays_quiet :
    (s : EffectiveStatus) (dl : Option ℤ) → 2 ≤ severity s → action_for s dl (some 0) ≡ nothing
stays_quiet EffectiveStatus.suspended dl h = refl
stays_quiet EffectiveStatus.canceled dl h = refl
stays_quiet s dl h = absurd (omega arith)

-- After the task has told of a suspension, it does nothing with the row at any later time, as long
-- as nothing else changes the row.
pub decide_action-suspend :
    (sub : Subscription) (now later : ℕ)
    → decide_action sub now ≡ suspend
    → now ≤ later
    → decide_action (mark suspend sub) later ≡ nothing
unfolding decide_action
decide_action-suspend sub now later h le =
    let severe =
      suspend_means (compute_effective_status sub now) (days_left sub now)
        sub.last_expiry_notice_days h in
    let worse = compute_effective_status_mono sub now later le in
    rw (mark-status suspend sub later).0 (
      stays_quiet (compute_effective_status sub later) (days_left (mark suspend sub) later)
        (omega arith))
