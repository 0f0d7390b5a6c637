-- ===== src/Billing/Entitlements.antt =====
-- src/app/services/entitlements.py: the effective status of a subscription and the checks of what
-- is paid for. The current time is an argument.
pub mod Status
pub mod Guards
use smenka_back.Prelude.{
  ℕ, ◌+◌, ◌*◌, Bool, true, false, not, ◌&&◌, Option, none, some, String, ℤ, pos, ◌-ℤ◌, floor_div,
  leb_ℤ, leb, ltb, ◌==◌, str_eq, if◌then◌else◌, find, count, Result, ok, err, ◌>>=◌, ◌>>◌, or_raise,
  raise_if, plan_not_found, subscription_not_found, subscription_inactive, plan_feature_unavailable,
  plan_limit_reached, List, ◌++◌, ◌∷◌, [],
}
use smenka_back.Calendar.{day}
use smenka_back.Access.{Directory, Organization, is_super_admin}
use smenka_back.Billing.Tables.{
  Plan, Subscription, SubscriptionStatus, SubscriptionEvent, SubscriptionEventType, EventNote, Db,
  subscription_of,
}

abbrev pub grace_days : ℕ
grace_days = 7

abbrev pub premium_plan_code : String
premium_plan_code = "premium"

abbrev pub expiring_soon_days : ℕ
expiring_soon_days = 7

abbrev pub default_trial_days : ℕ
default_trial_days = 14

pub data EffectiveStatus : Type 0 where
  trialing active past_due suspended canceled : EffectiveStatus

-- `status in READ_ONLY_STATUSES`
abbrev pub is_read_only : EffectiveStatus → Bool
is_read_only EffectiveStatus.suspended = true
is_read_only EffectiveStatus.canceled = true
is_read_only _ = false

pub data PlanFeature : Type 0 where
  fines test_import : PlanFeature

pub data LimitKind : Type 0 where
  employees locations : LimitKind

pub record Resolution : Type 0 where
  pub status : EffectiveStatus
  pub reference : Option ℕ

abbrev pub resolution : EffectiveStatus → Option ℕ → Resolution
resolution status reference = record { status = status; reference = reference }

-- The part of `_resolve` below the test of the stored status: `live` is the status while the
-- period runs.
abbrev pub resolve_period : EffectiveStatus → Option ℕ → ℕ → Resolution
resolve_period live none now = resolution EffectiveStatus.suspended none
resolve_period live (some r) now =
    if leb now r
    then resolution live (some r)
    else if leb now (r + grace_days * day)
    then resolution EffectiveStatus.past_due (some r)
    else resolution EffectiveStatus.suspended (some r)

abbrev pub resolve_stored : SubscriptionStatus → Subscription → ℕ → Resolution
resolve_stored SubscriptionStatus.canceled sub now = resolution EffectiveStatus.canceled none
resolve_stored SubscriptionStatus.trialing sub now =
    resolve_period EffectiveStatus.trialing sub.trial_ends_at now
resolve_stored SubscriptionStatus.active sub now =
    resolve_period EffectiveStatus.active sub.current_period_end now
resolve_stored (SubscriptionStatus.other _) sub now = resolution EffectiveStatus.suspended none

-- `_resolve`
unfoldable pub resolve : Subscription → ℕ → Resolution
resolve sub now = resolve_stored sub.status sub now

unfoldable pub compute_effective_status : Subscription → ℕ → EffectiveStatus
unfolding resolve
compute_effective_status sub now = (resolve sub now).status

unfoldable pub period_reference : Subscription → ℕ → Option ℕ
unfolding resolve
period_reference sub now = (resolve sub now).reference

abbrev pub grace_end : Option ℕ → Option ℕ
grace_end none = none
grace_end (some r) = some (r + grace_days * day)

unfoldable pub grace_ends_at : Subscription → ℕ → Option ℕ
unfolding resolve
grace_ends_at sub now = grace_end (resolve sub now).reference

abbrev pub days_until : Option ℕ → ℕ → Option ℤ
days_until none now = none
days_until (some r) now = some (floor_div (pos r -ℤ pos now) day)

unfoldable pub days_left : Subscription → ℕ → Option ℤ
unfolding resolve
days_left sub now =
    if is_read_only (resolve sub now).status
    then none
    else days_until (resolve sub now).reference now

abbrev pub within_days : ℕ → Option ℤ → Bool
within_days threshold none = false
within_days threshold (some d) = leb_ℤ (pos 0) d && leb_ℤ d (pos threshold)

unfoldable pub is_expiring_soon : Subscription → ℕ → ℕ → Bool
unfolding days_left
is_expiring_soon sub now threshold_days = within_days threshold_days (days_left sub now)

unfoldable pub get_plan : Db → String → Result Plan
get_plan db code = or_raise (find (λ p. str_eq p.code code) db.plans) plan_not_found

unfoldable pub get_active_plan : Db → String → Result Plan
get_active_plan db code = do
  plan ← get_plan db code
  raise_if (not plan.is_active) plan_not_found
  ok plan

unfoldable pub get_subscription : Db → ℕ → Result Subscription
get_subscription db org_id = or_raise (subscription_of db org_id) subscription_not_found

abbrev pub effective_code : EffectiveStatus → String → String
effective_code EffectiveStatus.trialing code = premium_plan_code
effective_code _ code = code

unfoldable pub get_effective_plan : Db → Subscription → EffectiveStatus → Result Plan
get_effective_plan db sub status = get_plan db (effective_code status sub.plan_code)

unfoldable pub usage_for : Directory → ℕ → LimitKind → ℕ
usage_for db org_id LimitKind.employees = count (λ m. m.organization_id == org_id) db.members
usage_for db org_id LimitKind.locations = count (λ l. l.organization_id == org_id) db.work_locations

abbrev pub limit_for : Plan → LimitKind → Option ℕ
limit_for plan LimitKind.employees = plan.max_employees
limit_for plan LimitKind.locations = plan.max_locations

abbrev pub has_feature : Plan → PlanFeature → Bool
has_feature plan PlanFeature.fines = plan.feature_fines
has_feature plan PlanFeature.test_import = plan.feature_test_import

abbrev pub check_active : Option Subscription → ℕ → Result (Unit {0})
check_active none now = ok tt
check_active (some sub) now =
    raise_if (is_read_only (compute_effective_status sub now)) subscription_inactive

unfoldable pub require_active_subscription : Db → Organization → ℕ → ℕ → Result (Unit {0})
require_active_subscription db org actor_id now =
    if is_super_admin db.directory actor_id
    then ok tt
    else check_active (subscription_of db org.id) now

abbrev pub check_feature : Db → Option Subscription → PlanFeature → ℕ → Result (Unit {0})
check_feature db none feature now = ok tt
check_feature db (some sub) feature now = do
  plan ← get_effective_plan db sub (compute_effective_status sub now)
  raise_if (not (has_feature plan feature)) plan_feature_unavailable

unfoldable pub require_feature : Db → Organization → PlanFeature → ℕ → Result (Unit {0})
require_feature db org feature now = check_feature db (subscription_of db org.id) feature now

abbrev pub within_limit : Option ℕ → ℕ → Result (Unit {0})
within_limit none usage = ok tt
within_limit (some limit) usage = raise_if (leb limit usage) plan_limit_reached

abbrev pub check_capacity : Db → ℕ → Option Subscription → LimitKind → ℕ → Result (Unit {0})
check_capacity db org_id none kind now = ok tt
check_capacity db org_id (some sub) kind now = do
  plan ← get_effective_plan db sub (compute_effective_status sub now)
  within_limit (limit_for plan kind) (usage_for db.directory org_id kind)

unfoldable pub require_capacity : Db → Organization → LimitKind → ℕ → Result (Unit {0})
require_capacity db org kind now = check_capacity db org.id (subscription_of db org.id) kind now

-- `create_subscription_for_org`: the row of a new trial and its journal entry, with their ids.
unfoldable pub create_subscription_for_org : Db → ℕ → Option ℕ → ℕ → ℕ → ℕ → ℕ → Db
create_subscription_for_org db org_id actor_user_id trial_days now sub_id event_id =
    let trial_ends_at = now + trial_days * day in
    let sub : Subscription = record {
      id = sub_id;
      organization_id = org_id;
      plan_code = premium_plan_code;
      status = SubscriptionStatus.trialing;
      trial_ends_at = some trial_ends_at;
      current_period_start = none;
      current_period_end = none;
      note = none;
      last_expiry_notice_days = none;
      updated_by_user_id = none;
    } in
    let event : SubscriptionEvent = record {
      id = event_id;
      organization_id = org_id;
      event_type = SubscriptionEventType.created;
      from_plan_code = none;
      to_plan_code = some premium_plan_code;
      from_status = none;
      to_status = some SubscriptionStatus.trialing;
      period_end_before = none;
      period_end_after = some trial_ends_at;
      months = none;
      amount_minor = none;
      note = EventNote.no_note;
      actor_user_id = actor_user_id;
      payment_id = none;
    } in
    record db { subscriptions = db.subscriptions ++ sub ∷ []; events = db.events ++ event ∷ [] }

-- Everything that a test of this component computes with.
unfoldable pub entitlements : Unit {0}
unfolding subscription_of is_super_admin resolve compute_effective_status period_reference
    grace_ends_at days_left is_expiring_soon get_plan get_active_plan get_subscription
    get_effective_plan usage_for require_active_subscription require_feature require_capacity
    create_subscription_for_org floor_div ◌-ℤ◌
entitlements = tt
