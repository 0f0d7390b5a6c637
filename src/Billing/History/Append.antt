-- ===== src/Billing/History/Append.antt =====
-- The journal of the billing tables, over any sequence of steps.
use mathlib.Core.List.{append-nil, append_assoc}
use smenka_back.Prelude.{ℕ, ◌≡◌, refl, sym, ap, ◌∙◌, Option, List, [], ◌∷◌, ◌++◌, String, ensured}
use smenka_back.Billing.Tables.{
  SubscriptionEvent, Payment, PaymentKind, Db, save_subscription, save_payment,
}
use smenka_back.Billing.Entitlements.{create_subscription_for_org}
use smenka_back.Billing.Payments.Effects.{process_webhook_event-Effect, get_payment_for_org-Effect}
use smenka_back.Billing.Payments.Calls.{
  Call, Effect, kept, only_noted, canceled, received, applied, refunded,
}
use smenka_back.Billing.Checkout.{Settings}
use smenka_back.Billing.Checkout.Creation.{Checkout, reused, created, create_checkout-Checkout}
use smenka_back.Billing.Notices.{notify_subscription_status}
use smenka_back.Billing.History.{
  Step, new_organization, patch, extension, checkout, webhook, poll, daily_task, Reach, start, next,
}
use smenka_back.Billing.History.Logged.{
  Logged, patch_subscription-Logged, extend_subscription-Logged,
}

-- The entries of `db` are a prefix of those of `db'`.
pub record Appends (db db' : Db) : Type 0 where
  pub new_entries : List SubscriptionEvent
  pub suffix : db'.events ≡ db.events ++ new_entries

same_events : {db db' : Db} → db'.events ≡ db.events → Appends db db'
same_events {db} e = record { new_entries = []; suffix = e ∙ sym (append-nil db.events) }

Logged-Appends : {db db' : Db} → Logged db db' → Appends db db'
unfolding save_subscription
Logged-Appends x = record {
  new_entries = x.entry ∷ [];
  suffix = ap (λ (d : Db). d.events) x.written;
}

Effect-Appends : {call : Call} {db db' : Db} → Effect call db db' → Appends db db'
unfolding save_payment save_subscription
Effect-Appends (kept quiet) = same_events refl
Effect-Appends (only_noted p answer asked idle) = same_events refl
Effect-Appends (canceled p answer asked says waiting) = same_events refl
Effect-Appends (received p answer asked says fresh gone) = same_events refl
Effect-Appends (applied p answer sub change asked says fresh es live ek) = record {
  new_entries = _;
  suffix = refl;
}
Effect-Appends (refunded p refund stored named told fresh) = record {
  new_entries = _;
  suffix = refl;
}

Checkout-Appends :
    {settings : Settings} {db db' : Db} {org_id actor now k : ℕ} {p : Payment}
    {kind : Option PaymentKind} {code : String} {months : Option ℕ}
    → Checkout settings db org_id actor kind code months now k db' p
    → Appends db db'
Checkout-Appends (reused p kind q purchase e u) = same_events refl
Checkout-Appends (created kind q answer purchase e opened) = same_events refl

notify-Appends :
    (db : Db) (now : ℕ) (ids : ℕ → ℕ) → Appends db (notify_subscription_status db now ids).0
unfolding notify_subscription_status
notify-Appends db now ids = record { new_entries = _; suffix = refl }

create-Appends :
    (db : Db) (org_id : ℕ) (actor : Option ℕ) (days now sub_id event_id : ℕ)
    → Appends db (create_subscription_for_org db org_id actor days now sub_id event_id)
unfolding create_subscription_for_org
create-Appends db org_id actor days now sub_id event_id = record { new_entries = _; suffix = refl }

Step-Appends : {db db' : Db} → Step db db' → Appends db db'
Step-Appends {db} (new_organization org_id actor days now sub_id event_id) =
    create-Appends db org_id actor days now sub_id event_id
Step-Appends {db} (patch org_id actor p event_id db' after e) =
    Logged-Appends (patch_subscription-Logged db org_id actor p event_id db' after e)
Step-Appends {db} (extension org_id actor months code amount remark now event_id db' after e) =
    Logged-Appends (
      extend_subscription-Logged db org_id actor months code amount remark now event_id db' after e)
Step-Appends {db} (checkout settings org_id actor kind code months answered now k db' p fresh e) =
    Checkout-Appends
      (create_checkout-Checkout settings db org_id actor kind code months answered now k db' p e)
Step-Appends {db} (webhook event object answered t db' e) =
    Effect-Appends (ensured db' (process_webhook_event-Effect db event object answered t) e)
Step-Appends {db} (poll org_id k answered t db' p e) =
    Effect-Appends (ensured (db', p) (get_payment_for_org-Effect db org_id k answered t) e)
Step-Appends {db} (daily_task now ids) = notify-Appends db now ids

Appends-trans : {a b c : Db} → Appends a b → Appends b c → Appends a c
Appends-trans {a} x y = record {
  new_entries = x.new_entries ++ y.new_entries;
  suffix =
      y.suffix
      ∙ ap (λ l. l ++ y.new_entries) x.suffix
      ∙ append_assoc a.events x.new_entries y.new_entries;
}

-- Whatever steps are made, the journal keeps all its entries in their order, and new ones stand
-- after them.
pub Reach-Appends : {db db' : Db} → Reach db db' → Appends db db'
Reach-Appends start = same_events refl
Reach-Appends (next before step) = Appends-trans (Reach-Appends before) (Step-Appends step)
