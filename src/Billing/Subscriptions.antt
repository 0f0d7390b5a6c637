-- ===== src/Billing/Subscriptions.antt =====
-- src/app/services/subscription.py: the edits of a subscription by a super admin. The current time
-- and the id of the new journal entry are arguments; dates come normalised to UTC (`ensure_utc`).
pub mod Edits
pub mod Patching
use smenka_back.Prelude.{
  ℕ, ◌+◌, ◌*◌, ◌≤◌, max, Bool, true, false, not, ◌&&◌, ◌||◌, Option, none, some, List, [], ◌∷◌,
  ◌++◌, String, ℤ, pos, leb, ltb, ◌==◌, str_eq, if◌then◌else◌, Result, ok, err, ◌>>=◌, ◌>>◌,
  raise_if, validation_error, select, count, length,
}
use smenka_back.Calendar.{day, add_months}
use smenka_back.Access.{Organization, get_organization, is_some}
use smenka_back.Billing.Tables.{
  Plan, Subscription, SubscriptionStatus, SubscriptionEvent, SubscriptionEventType, EventNote, Db,
  is_trialing, is_active_status, save_subscription,
}
use smenka_back.Billing.Entitlements.{
  get_plan, get_active_plan, get_subscription, EffectiveStatus, compute_effective_status,
  is_expiring_soon, expiring_soon_days,
}

abbrev pub extend_min_months : ℕ
extend_min_months = 1

abbrev pub extend_max_months : ℕ
extend_max_months = 24

-- The body of a PATCH: what is not given stays. A status is the text that was sent.
pub record Patch : Type 0 where
  pub plan_code : Option String
  pub status : Option SubscriptionStatus
  pub trial_ends_at : Option ℕ
  pub current_period_start : Option ℕ
  pub current_period_end : Option ℕ
  pub note : Option String

-- `if value is not None: field = value`
abbrev pub given_or {ℓ} : {A : Type ℓ} → Option A → Option A → Option A
given_or (some a) old = some a
given_or none old = old

abbrev pub event_note : Option String → EventNote
event_note none = EventNote.no_note
event_note (some text) = EventNote.given text

unfoldable pub patch_plan : Db → Option String → Subscription → Result (Subscription × Bool)
patch_plan db none sub = ok (sub, false)
patch_plan db (some code) sub = do
  plan ← get_active_plan db code
  ok (record sub { plan_code = plan.code }, not (str_eq plan.code sub.plan_code))

unfoldable pub patch_status : Option SubscriptionStatus → Subscription → Result Subscription
patch_status none sub = ok sub
patch_status (some SubscriptionStatus.trialing) sub =
    ok (record sub { status = SubscriptionStatus.trialing })
patch_status (some SubscriptionStatus.active) sub =
    ok (record sub { status = SubscriptionStatus.active })
patch_status (some SubscriptionStatus.canceled) sub =
    ok (record sub { status = SubscriptionStatus.canceled })
patch_status (some (SubscriptionStatus.other _)) sub = err validation_error

abbrev pub patch_dates : Patch → Subscription → Subscription
patch_dates p sub = record sub {
  trial_ends_at = given_or p.trial_ends_at sub.trial_ends_at;
  current_period_start = given_or p.current_period_start sub.current_period_start;
  current_period_end = given_or p.current_period_end sub.current_period_end;
  note = given_or p.note sub.note;
}

-- Whether the anti-duplicate mark of the expiry notices is reset.
abbrev pub touches_period : Patch → Bool
touches_period p =
    is_some p.status
    || is_some p.trial_ends_at
    || is_some p.current_period_start
    || is_some p.current_period_end

unfoldable pub check_period : Subscription → Result (Unit {0})
check_period sub = do
  raise_if (is_active_status sub.status && not (is_some sub.current_period_end)) validation_error
  raise_if (is_trialing sub.status && not (is_some sub.trial_ends_at)) validation_error

abbrev pub finish_patch : Patch → ℕ → Subscription → Subscription
finish_patch p actor_id sub = record sub {
  last_expiry_notice_days = if touches_period p then none else sub.last_expiry_notice_days;
  updated_by_user_id = some actor_id;
}

-- The journal entry of an edit from `before` to `after`.
abbrev pub edit_event :
    ℕ
    → SubscriptionEventType
    → Subscription
    → Subscription
    → Option ℕ
    → Option ℤ
    → EventNote
    → ℕ
    → SubscriptionEvent
edit_event event_id event_type before after months amount_minor note actor_id = record {
  id = event_id;
  organization_id = before.organization_id;
  event_type = event_type;
  from_plan_code = some before.plan_code;
  to_plan_code = some after.plan_code;
  from_status = some before.status;
  to_status = some after.status;
  period_end_before = before.current_period_end;
  period_end_after = after.current_period_end;
  months = months;
  amount_minor = amount_minor;
  note = note;
  actor_user_id = some actor_id;
  payment_id = none;
}

abbrev pub record_edit : Subscription → SubscriptionEvent → Db → Db
record_edit sub event db =
    let saved = save_subscription sub db in record saved { events = saved.events ++ event ∷ [] }

unfoldable pub patch_subscription : Db → ℕ → ℕ → Patch → ℕ → Result (Db × Subscription)
patch_subscription db org_id actor_id p event_id = do
  _ ← get_organization db.directory org_id
  sub ← get_subscription db org_id
  (planned, plan_changed) ← patch_plan db p.plan_code sub
  staged ← patch_status p.status planned
  let dated = patch_dates p staged
  check_period dated
  let after = finish_patch p actor_id dated
  let event_type =
      if plan_changed
      then SubscriptionEventType.plan_changed
      else SubscriptionEventType.status_changed
  let event = edit_event event_id event_type sub after none none (event_note p.note) actor_id
  ok (record_edit after event db, after)

-- `base = max(now, current_period_end or trial_ends_at)`
abbrev pub later_of : ℕ → Option ℕ → ℕ
later_of now none = now
later_of now (some reference) = max now reference

abbrev pub extension_base : Subscription → ℕ → ℕ
extension_base sub now = later_of now (given_or sub.current_period_end sub.trial_ends_at)

abbrev pub extended : Subscription → String → ℕ → Option String → ℕ → ℕ → Subscription
extended sub code new_period_end note actor_id now = record sub {
  plan_code = code;
  status = SubscriptionStatus.active;
  current_period_start = given_or sub.current_period_start (some now);
  current_period_end = some new_period_end;
  note = given_or note sub.note;
  last_expiry_notice_days = none;
  updated_by_user_id = some actor_id;
}

-- The plan of an extension, and whether it differs from the stored one.
unfoldable pub target_plan : Db → Option String → Subscription → Result (Plan × Bool)
target_plan db none sub = do plan ← get_plan db sub.plan_code; ok (plan, false)
target_plan db (some code) sub = do
  plan ← get_active_plan db code
  ok (plan, not (str_eq plan.code sub.plan_code))

abbrev pub final_amount : Option ℤ → Plan → ℕ → ℤ
final_amount (some amount) plan months = amount
final_amount none plan months = pos (plan.price_minor * months)

unfoldable pub extend_subscription :
    Db → ℕ → ℕ → ℕ → Option String → Option ℤ → Option String → ℕ → ℕ → Result (Db × Subscription)
extend_subscription db org_id actor_id months plan_code amount_minor note now event_id = do
  raise_if (not (leb extend_min_months months && leb months extend_max_months)) validation_error
  _ ← get_organization db.directory org_id
  sub ← get_subscription db org_id
  (plan, plan_changed) ← target_plan db plan_code sub
  new_period_end ← add_months (extension_base sub now) months
  let after = extended sub plan.code new_period_end note actor_id now
  let event_type =
      if plan_changed then SubscriptionEventType.plan_changed else SubscriptionEventType.extended
  let event =
      edit_event event_id event_type sub after (some months)
        (some (final_amount amount_minor plan months)) (event_note note) actor_id
  ok (record_edit after event db, after)
