-- ===== src/Billing/Entitlements/Guards.antt =====
-- The checks of what is paid for, as the services call them.
use smenka_back.Prelude.{
  ℕ, ◌≡◌, ◌↔◌, ◌⊎◌, inl, inr, refl, true, false, Bool-cases, Option, none, some, arith, ok, err,
  subscription_inactive,
}
use smenka_back.Access.{Organization, is_super_admin}
use smenka_back.Billing.Tables.{Subscription, Db, subscription_of}
use smenka_back.Billing.Entitlements.{
  EffectiveStatus, is_read_only, compute_effective_status, check_active,
  require_active_subscription,
}

abbrev pub ReadOnly : Option Subscription → ℕ → Type 0
ReadOnly none now = ⊥
ReadOnly (some sub) now =
    (compute_effective_status sub now ≡ EffectiveStatus.suspended)
    ⊎ (compute_effective_status sub now ≡ EffectiveStatus.canceled)

is_read_only-statuses :
    (s : EffectiveStatus)
    → (is_read_only s ≡ true) ↔ ((s ≡ EffectiveStatus.suspended) ⊎ (s ≡ EffectiveStatus.canceled))
is_read_only-statuses EffectiveStatus.trialing = (λ h. cc, λ h. ground arith)
is_read_only-statuses EffectiveStatus.active = (λ h. cc, λ h. ground arith)
is_read_only-statuses EffectiveStatus.past_due = (λ h. cc, λ h. ground arith)
is_read_only-statuses EffectiveStatus.suspended = (λ h. inl refl, λ h. refl)
is_read_only-statuses EffectiveStatus.canceled = (λ h. inr refl, λ h. refl)

check_active-ReadOnly :
    (o : Option Subscription) (now : ℕ)
    → (check_active o now ≡ err subscription_inactive) ↔ ReadOnly o now
check_active-ReadOnly none now = (λ h. cc, λ h. elim h [ ])
check_active-ReadOnly (some sub) now =
    let reads = is_read_only-statuses (compute_effective_status sub now) in
    (λ h. reads.0 (ground arith), λ h. let read = reads.1 h in ground arith)

check_active-answers :
    (o : Option Subscription) (now : ℕ)
    → (check_active o now ≡ ok tt) ⊎ (check_active o now ≡ err subscription_inactive)
check_active-answers none now = inl refl
check_active-answers (some sub) now = ground arith

-- An actor who is no super admin is refused, with SUBSCRIPTION_INACTIVE, exactly where the
-- organization has a subscription that is suspended or canceled; in all other cases the check
-- passes.
pub require_active_subscription_lem :
    (db : Db) (org : Organization) (actor now : ℕ)
    → ((require_active_subscription db org actor now ≡ err subscription_inactive)
        ↔ ((is_super_admin db.directory actor ≡ false) × ReadOnly (subscription_of db org.id) now))
      × ((require_active_subscription db org actor now ≡ ok tt)
          ⊎ (require_active_subscription db org actor now ≡ err subscription_inactive))
unfolding require_active_subscription
require_active_subscription_lem db org actor now =
    let checks = check_active-ReadOnly (subscription_of db org.id) now in
    let answers = check_active-answers (subscription_of db org.id) now in
    elim (Bool-cases (is_super_admin db.directory actor)) [
      | inl may ↦ rw may ((λ h. cc, λ h. let no = h.0 in cc), inl refl)
      | inr may ↦ rw may ((λ h. (refl, checks.0 h), λ h. checks.1 h.1), answers)
    ]
