-- ===== src/Billing/Notices.antt =====
-- src/app/tasks/subscriptions.py: the daily task that warns of the end of a subscription and tells of
-- its suspension. The ids of the journal entries of a run are a function of the organization.
pub mod Repeat
pub mod Suspension
use smenka_back.Prelude.{
  ℕ, ◌+◌, Bool, true, false, not, ◌&&◌, Option, none, some, List, [], ◌∷◌, ◌++◌, map, ℤ, pos, leb_ℤ,
  min, leb, ltb, ◌==◌, if◌then◌else◌, select, find,
}
use smenka_back.Access.{Directory, Organization, OrganizationMember, is_admin_role, is_some}
use smenka_back.Billing.Tables.{
  Subscription, SubscriptionEvent, SubscriptionEventType, EventNote, Db,
}
use smenka_back.Billing.Entitlements.{
  EffectiveStatus, compute_effective_status, days_left, period_reference,
}

abbrev pub suspended_notice_sentinel : ℕ
suspended_notice_sentinel = 0

abbrev pub expiry_thresholds : List ℕ
expiry_thresholds = 7 ∷ 3 ∷ 1 ∷ []

pub data NotificationType : Type 0 where
  subscription_expiring : ℤ → NotificationType
  subscription_suspended : NotificationType

pub record Notification : Type 0 where
  pub user_id : ℕ
  pub organization_id : ℕ
  pub notification_type : NotificationType

-- `_recipient_user_ids`: the owner and every other admin of the organization.
unfoldable pub recipient_user_ids : Directory → Organization → List ℕ
recipient_user_ids db org =
    org.owner_id
    ∷ map (λ m. m.user_id)
        (select
          (λ m.
            m.organization_id == org.id && is_admin_role m.role && not (m.user_id == org.owner_id))
          db.members)

unfoldable pub notify : Organization → List ℕ → NotificationType → List Notification
notify org user_ids kind =
    map (λ u. record { user_id = u; organization_id = org.id; notification_type = kind }) user_ids

-- What the task does with a row.
pub data Action : Type 0 where
  nothing : Action
  warn : ℕ → ℤ → Action
  reset : Action
  suspend : Action

-- The thresholds that `days_left` has reached, none if there is no such number.
abbrev pub applicable : Option ℤ → List ℕ
applicable none = []
applicable (some d) = select (λ n. leb_ℤ d (pos n)) expiry_thresholds

abbrev pub min_of : ℕ → List ℕ → ℕ
min_of n [] = n
min_of n (k ∷ ks) = min n (min_of k ks)

abbrev pub is_due : Option ℕ → ℕ → Bool
is_due none threshold = true
is_due (some last) threshold = ltb threshold last

abbrev pub warn_reached : List ℕ → Option ℤ → Option ℕ → Action
warn_reached [] dl last = if is_some last then reset else nothing
warn_reached (n ∷ ns) none last = nothing
warn_reached (n ∷ ns) (some d) last =
    if is_due last (min_of n ns) then warn (min_of n ns) d else nothing

abbrev pub is_sentinel : Option ℕ → Bool
is_sentinel none = false
is_sentinel (some n) = n == suspended_notice_sentinel

abbrev pub action_for : EffectiveStatus → Option ℤ → Option ℕ → Action
action_for EffectiveStatus.trialing dl last = warn_reached (applicable dl) dl last
action_for EffectiveStatus.active dl last = warn_reached (applicable dl) dl last
action_for EffectiveStatus.suspended dl last = if is_sentinel last then nothing else suspend
action_for EffectiveStatus.past_due dl last = nothing
action_for EffectiveStatus.canceled dl last = nothing

unfoldable pub decide_action : Subscription → ℕ → Action
decide_action sub now =
    action_for (compute_effective_status sub now) (days_left sub now) sub.last_expiry_notice_days

abbrev pub mark : Action → Subscription → Subscription
mark nothing sub = sub
mark (warn threshold d) sub = record sub { last_expiry_notice_days = some threshold }
mark reset sub = record sub { last_expiry_notice_days = none }
mark suspend sub = record sub { last_expiry_notice_days = some suspended_notice_sentinel }

abbrev pub auto_suspended_event : Subscription → Organization → ℕ → ℕ → SubscriptionEvent
auto_suspended_event sub org now event_id = record {
  id = event_id;
  organization_id = org.id;
  event_type = SubscriptionEventType.auto_suspended;
  from_plan_code = none;
  to_plan_code = none;
  from_status = some sub.status;
  to_status = some sub.status;
  period_end_before = period_reference sub now;
  period_end_after = none;
  months = none;
  amount_minor = none;
  note = EventNote.no_note;
  actor_user_id = none;
  payment_id = none;
}

-- The journal entries and the notifications of an action.
abbrev pub journal_of : Action → Subscription → Organization → ℕ → ℕ → List SubscriptionEvent
journal_of suspend sub org now event_id = auto_suspended_event sub org now event_id ∷ []
journal_of _ sub org now event_id = []

abbrev pub messages_of : Action → Directory → Organization → List Notification
messages_of (warn threshold d) db org =
    notify org (recipient_user_ids db org) (subscription_expiring d)
messages_of suspend db org = notify org (recipient_user_ids db org) subscription_suspended
messages_of _ db org = []

-- The rows, the new journal entries and the notifications of a run.
pub record Run : Type 0 where
  pub rows : List Subscription
  pub journal : List SubscriptionEvent
  pub messages : List Notification

abbrev pub visit : Option Organization → Directory → ℕ → (ℕ → ℕ) → Subscription → Run → Run
visit none db now event_id sub rest = record rest { rows = sub ∷ rest.rows }
visit (some org) db now event_id sub rest =
    let action = decide_action sub now in
    record {
      rows = mark action sub ∷ rest.rows;
      journal = journal_of action sub org now (event_id org.id) ++ rest.journal;
      messages = messages_of action db org ++ rest.messages;
    }

-- The join with the organizations that are not deleted.
abbrev pub live_org : Directory → Subscription → Option Organization
live_org db sub = find (λ o. o.id == sub.organization_id && not o.is_deleted) db.organizations

unfoldable pub visit_rows : Directory → ℕ → (ℕ → ℕ) → List Subscription → Run
visit_rows db now event_id [] = record { rows = []; journal = []; messages = [] }
visit_rows db now event_id (sub ∷ subs) =
    visit (live_org db sub) db now event_id sub (visit_rows db now event_id subs)

unfoldable pub notify_subscription_status : Db → ℕ → (ℕ → ℕ) → Db × List Notification
notify_subscription_status db now event_id =
    let run = visit_rows db.directory now event_id db.subscriptions in
    (record db { subscriptions = run.rows; events = db.events ++ run.journal }, run.messages)
