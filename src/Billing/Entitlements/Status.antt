-- ===== src/Billing/Entitlements/Status.antt =====
-- The effective status as a function of time.
use smenka_back.Prelude.{ℕ, ◌+◌, ◌*◌, ◌≤◌, ◌<◌, ◌≡◌, ◌↔◌, Option, none, some, arith}
use smenka_back.Calendar.{day}
use smenka_back.Billing.Tables.{Subscription, SubscriptionStatus}
use smenka_back.Billing.Entitlements.{EffectiveStatus, compute_effective_status, resolve_stored}

-- The date up to which a stored status is paid for, and what the API calls it until then.
abbrev stored_end : SubscriptionStatus → Subscription → Option ℕ
stored_end SubscriptionStatus.trialing sub = sub.trial_ends_at
stored_end SubscriptionStatus.active sub = sub.current_period_end
stored_end _ sub = none

abbrev live_status : SubscriptionStatus → EffectiveStatus
live_status SubscriptionStatus.trialing = EffectiveStatus.trialing
live_status SubscriptionStatus.active = EffectiveStatus.active
live_status _ = EffectiveStatus.canceled

abbrev pub paid_until : Subscription → Option ℕ
paid_until sub = stored_end sub.status sub

abbrev pub Boundaries : EffectiveStatus → EffectiveStatus → ℕ → ℕ → Type 0
Boundaries live status end now =
    ((status ≡ live) ↔ (now ≤ end))
    × ((status ≡ EffectiveStatus.past_due) ↔ ((end < now) × (now ≤ end + 7 * day)))
    × ((status ≡ EffectiveStatus.suspended) ↔ (end + 7 * day < now))

stored_Boundaries :
    (s : SubscriptionStatus) (sub : Subscription) (now end : ℕ)
    → stored_end s sub ≡ some end
    → Boundaries (live_status s) (resolve_stored s sub now).status end now
stored_Boundaries SubscriptionStatus.trialing sub now end e = (
  (λ h. ground arith, λ h. ground arith),
  (λ h. ground arith, λ h. ground arith),
  (λ h. ground arith, λ h. ground arith),
)
stored_Boundaries SubscriptionStatus.active sub now end e = (
  (λ h. ground arith, λ h. ground arith),
  (λ h. ground arith, λ h. ground arith),
  (λ h. ground arith, λ h. ground arith),
)
stored_Boundaries SubscriptionStatus.canceled sub now end e = cc
stored_Boundaries (SubscriptionStatus.other t) sub now end e = cc

-- A subscription that is stored as trialing or active, with its end date, is in that status up to
-- and including the end, past due for the seven days after it, also inclusive, and suspended from
-- then on.
pub compute_effective_status-Boundaries :
    (sub : Subscription) (now end : ℕ)
    → paid_until sub ≡ some end
    → Boundaries (live_status sub.status) (compute_effective_status sub now) end now
unfolding compute_effective_status
compute_effective_status-Boundaries sub now end e = stored_Boundaries sub.status sub now end e

abbrev pub severity : EffectiveStatus → ℕ
severity EffectiveStatus.trialing = 0
severity EffectiveStatus.active = 0
severity EffectiveStatus.past_due = 1
severity EffectiveStatus.suspended = 2
severity EffectiveStatus.canceled = 3

stored_worsens :
    (s : SubscriptionStatus) (sub : Subscription) (now later : ℕ)
    → now ≤ later
    → severity (resolve_stored s sub now).status ≤ severity (resolve_stored s sub later).status
stored_worsens SubscriptionStatus.canceled sub now later h = omega arith
stored_worsens s sub now later h = ground arith

-- While the row does not change, the effective status only gets worse with time.
pub compute_effective_status_mono :
    (sub : Subscription) (now later : ℕ)
    → now ≤ later
    → severity (compute_effective_status sub now) ≤ severity (compute_effective_status sub later)
unfolding compute_effective_status
compute_effective_status_mono sub now later h = stored_worsens sub.status sub now later h
