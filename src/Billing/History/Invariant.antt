-- ===== src/Billing/History/Invariant.antt =====
-- Payments and their journal entries, over any sequence of steps.
use mathlib.Core.List.{append-nil, append_assoc}
use smenka_back.Prelude.{
  ℕ, ◌≡◌, refl, sym, subst, false, Option, none, some, List, [], ◌∷◌, ◌++◌, count, All, All-append,
  String, ensured,
}
use smenka_back.Access.{Directory, Organization}
use smenka_back.Billing.Tables.{
  Subscription, SubscriptionEvent, Payment, PaymentKind, Db, save_subscription,
}
use smenka_back.Billing.Entitlements.{create_subscription_for_org}
use smenka_back.Billing.History.Logged.{
  Logged, patch_subscription-Logged, extend_subscription-Logged,
}
use smenka_back.Billing.Payments.Effects.{process_webhook_event-Effect, get_payment_for_org-Effect}
use smenka_back.Billing.Payments.Once.{
  is_paid_online, pays, IsCounted, AppliedOnce, append-AppliedOnce, Effect-AppliedOnce,
}
use smenka_back.Billing.Checkout.{Settings}
use smenka_back.Billing.Checkout.Creation.{Checkout, reused, created, create_checkout-Checkout}
use smenka_back.Billing.Notices.{
  Action, suspend, journal_of, Run, visit, visit_rows, live_org, decide_action,
  notify_subscription_status,
}
use smenka_back.Billing.History.{
  Step, new_organization, patch, extension, checkout, webhook, poll, daily_task, Reach, start, next,
}

-- A list of entries that are no applications.
abbrev Unpaid : List SubscriptionEvent → Type 0
Unpaid events = All (λ e. is_paid_online e.event_type ≡ false) events

appends-AppliedOnce :
    (new events : List SubscriptionEvent) (rows : List Payment)
    → Unpaid new
    → All (IsCounted events) rows
    → All (IsCounted (events ++ new)) rows
appends-AppliedOnce [] events rows u all = rw (append-nil events) all
appends-AppliedOnce (e ∷ new) events rows u all =
    rw (← append_assoc events (e ∷ []) new) (
      appends-AppliedOnce new (events ++ e ∷ []) rows u.1
        (append-AppliedOnce e events rows u.0 all))

Checkout-AppliedOnce :
    {settings : Settings} {db db' : Db} {org_id actor now payment_id : ℕ} {p : Payment}
    {kind : Option PaymentKind} {code : String} {months : Option ℕ}
    → Checkout settings db org_id actor kind code months now payment_id db' p
    → count (pays payment_id) db.events ≡ 0
    → AppliedOnce db
    → AppliedOnce db'
Checkout-AppliedOnce (reused p kind q purchase e u) fresh all = all
Checkout-AppliedOnce {db} (created kind q answer purchase e opened) fresh all =
    All-append (IsCounted db.events) db.payments _ all (fresh, tt)

journal-Unpaid :
    (a : Action) (sub : Subscription) (org : Organization) (now event_id : ℕ)
    → Unpaid (journal_of a sub org now event_id)
journal-Unpaid suspend sub org now event_id = (refl, tt)
journal-Unpaid _ sub org now event_id = tt

visit-Unpaid :
    (found : Option Organization) (db : Directory) (now : ℕ) (ids : ℕ → ℕ) (sub : Subscription)
    (rest : Run)
    → Unpaid rest.journal
    → Unpaid (visit found db now ids sub rest).journal
visit-Unpaid none db now ids sub rest u = u
visit-Unpaid (some org) db now ids sub rest u =
    All-append _ (journal_of (decide_action sub now) sub org now (ids org.id)) rest.journal
      (journal-Unpaid (decide_action sub now) sub org now (ids org.id)) u

visit_rows-Unpaid :
    (db : Directory) (now : ℕ) (ids : ℕ → ℕ) (subs : List Subscription)
    → Unpaid (visit_rows db now ids subs).journal
unfolding visit_rows
visit_rows-Unpaid db now ids [] = tt
visit_rows-Unpaid db now ids (sub ∷ subs) =
    visit-Unpaid (live_org db sub) db now ids sub (visit_rows db now ids subs)
      (visit_rows-Unpaid db now ids subs)

notify-AppliedOnce :
    (db : Db) (now : ℕ) (ids : ℕ → ℕ)
    → AppliedOnce db
    → AppliedOnce (notify_subscription_status db now ids).0
unfolding notify_subscription_status
notify-AppliedOnce db now ids all =
    appends-AppliedOnce (visit_rows db.directory now ids db.subscriptions).journal db.events
      db.payments (visit_rows-Unpaid db.directory now ids db.subscriptions) all

create-AppliedOnce :
    (db : Db) (org_id : ℕ) (actor : Option ℕ) (days now sub_id event_id : ℕ)
    → AppliedOnce db
    → AppliedOnce (create_subscription_for_org db org_id actor days now sub_id event_id)
unfolding create_subscription_for_org
create-AppliedOnce db org_id actor days now sub_id event_id all =
    append-AppliedOnce _ db.events db.payments refl all

Logged-AppliedOnce : {db db' : Db} → Logged db db' → AppliedOnce db → AppliedOnce db'
unfolding save_subscription
Logged-AppliedOnce {db} x all =
    subst AppliedOnce (sym x.written)
      (append-AppliedOnce x.entry db.events db.payments x.offline all)

Step-AppliedOnce : {db db' : Db} → Step db db' → AppliedOnce db → AppliedOnce db'
Step-AppliedOnce {db} (new_organization org_id actor days now sub_id event_id) all =
    create-AppliedOnce db org_id actor days now sub_id event_id all
Step-AppliedOnce {db} (patch org_id actor p event_id db' after e) all =
    Logged-AppliedOnce (patch_subscription-Logged db org_id actor p event_id db' after e) all
Step-AppliedOnce {db} (extension org_id actor months code amount remark now event_id db' after e)
      all =
    Logged-AppliedOnce
      (extend_subscription-Logged db org_id actor months code amount remark now event_id db' after
        e)
      all
Step-AppliedOnce {db} (checkout settings org_id actor kind code months answered now k db' p fresh e)
      all =
    Checkout-AppliedOnce
      (create_checkout-Checkout settings db org_id actor kind code months answered now k db' p e)
      fresh all
Step-AppliedOnce {db} (webhook event object answered t db' e) all =
    Effect-AppliedOnce (ensured db' (process_webhook_event-Effect db event object answered t) e) all
Step-AppliedOnce {db} (poll org_id k answered t db' p e) all =
    Effect-AppliedOnce (ensured (db', p) (get_payment_for_org-Effect db org_id k answered t) e) all
Step-AppliedOnce {db} (daily_task now ids) all = notify-AppliedOnce db now ids all

-- Whatever steps are made, in whatever order, each payment that is marked as applied has exactly one
-- `paid_online` entry in the journal and each other payment has none, if it was so at the start.
pub Reach-AppliedOnce : {db db' : Db} → Reach db db' → AppliedOnce db → AppliedOnce db'
Reach-AppliedOnce start all = all
Reach-AppliedOnce (next before step) all = Step-AppliedOnce step (Reach-AppliedOnce before all)
