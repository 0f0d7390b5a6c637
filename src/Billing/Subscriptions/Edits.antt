-- ===== src/Billing/Subscriptions/Edits.antt =====
-- What the edits of src/app/services/subscription.py do to a subscription.
use smenka_back.Prelude.{
  ℕ, ◌≤◌, ◌<◌, ◌≡◌, ◌≢◌, refl, ap, subst, ◌∙◌, not, ◌&&◌, Option, some, String, ℤ, arith, leb, ok,
  raise_if, >>=-Ensures, Ensures, returns, ensured, find-update_self, find-update_ne, find-key,
  validation_error,
}
use smenka_back.Calendar.{add_months}
use smenka_back.Calendar.Months.{add_months-lt}
use smenka_back.Access.{get_organization}
use smenka_back.Billing.Tables.{
  Subscription, SubscriptionStatus, SubscriptionEvent, Db, save_subscription, subscription_of,
}
use smenka_back.Billing.Entitlements.{EffectiveStatus, compute_effective_status, get_subscription}
use smenka_back.Billing.Subscriptions.{
  record_edit, extension_base, target_plan, extend_subscription, extend_min_months,
  extend_max_months,
}

-- What a successful extension did.
pub record Extends (db : Db) (org_id months now : ℕ) (db' : Db) (after : Subscription)
    : Type 0 where
  pub before : Subscription
  pub found : get_subscription db org_id ≡ ok before
  pub months_in : (extend_min_months ≤ months) × (months ≤ extend_max_months)
  pub new_end : ℕ
  pub shifted : add_months (extension_base before now) months ≡ ok new_end
  pub ends : after.current_period_end ≡ some new_end
  pub is_active : after.status ≡ SubscriptionStatus.active
  pub same_org : after.organization_id ≡ before.organization_id
  pub event : SubscriptionEvent
  pub saved : db' ≡ record_edit after event db
  pub event_is :
      (event.organization_id ≡ before.organization_id)
      × (event.period_end_before ≡ before.current_period_end)
      × (event.period_end_after ≡ some new_end)
      × (event.from_status ≡ some before.status)
      × (event.to_status ≡ some SubscriptionStatus.active)
      × (event.months ≡ some months)

months_allowed :
    (months : ℕ)
    → raise_if (not (leb extend_min_months months && leb months extend_max_months)) validation_error
      ≡ ok tt
    → (extend_min_months ≤ months) × (months ≤ extend_max_months)
months_allowed months h = ground arith

extend-Ensures :
    (db : Db) (org_id actor months : ℕ) (code : Option String) (amount : Option ℤ)
    (remark : Option String) (now event_id : ℕ)
    → Ensures
        (λ (r : Db × Subscription). Extends db org_id months now r.0 r.1)
        (extend_subscription db org_id actor months code amount remark now event_id)
unfolding extend_subscription
extend-Ensures db org_id actor months code amount remark now event_id =
    >>=-Ensures
      (raise_if (not (leb extend_min_months months && leb months extend_max_months))
        validation_error)
      _
      λ _ allowed. >>=-Ensures (get_organization db.directory org_id) _ λ org _.
        >>=-Ensures (get_subscription db org_id) _ λ sub found.
          >>=-Ensures (target_plan db code sub) _ λ plan _.
            >>=-Ensures (add_months (extension_base sub now) months) _ λ new_end shifted.
              returns _ (record {
                before = sub;
                found = found;
                months_in = months_allowed months allowed;
                new_end = new_end;
                shifted = shifted;
                ends = refl;
                is_active = refl;
                same_org = refl;
                event = _;
                saved = refl;
                event_is = (refl, refl, refl, refl, refl, refl);
              })

record Saves (db : Db) (db' : Db) (after : Subscription) : Type 0 where
  stored : subscription_of db' after.organization_id ≡ some after
  others : (k : ℕ) → k ≢ after.organization_id → subscription_of db' k ≡ subscription_of db k

-- A saved edit is what is read back for its organization, and no other organization's
-- subscription changes.
record_edit-Saves :
    (db : Db) (before after : Subscription) (event : SubscriptionEvent)
    → subscription_of db after.organization_id ≡ some before
    → Saves db (record_edit after event db) after
unfolding subscription_of save_subscription
record_edit-Saves db before after event e = record {
  stored = find-update_self (λ s. s.organization_id) after before db.subscriptions e;
  others = λ k ne. find-update_ne (λ s. s.organization_id) after k db.subscriptions ne;
}

pub found-subscription :
    (db : Db) (org_id : ℕ) (sub : Subscription)
    → get_subscription db org_id ≡ ok sub
    → subscription_of db org_id ≡ some sub
unfolding get_subscription
found-subscription db org_id sub e = ground arith

pub subscription_of-organization_id :
    (db : Db) (org_id : ℕ) (sub : Subscription)
    → subscription_of db org_id ≡ some sub
    → sub.organization_id ≡ org_id
unfolding subscription_of
subscription_of-organization_id db org_id sub e =
    find-key (λ s. s.organization_id) org_id sub db.subscriptions e

base-le : (sub : Subscription) (now : ℕ) → now ≤ extension_base sub now
base-le sub now = ground arith

base-le_end :
    (sub : Subscription) (now r : ℕ) → sub.current_period_end ≡ some r → r ≤ extension_base sub now
base-le_end sub now r e = ground arith

-- The outcome of an extension, seen by a reader of the tables.
pub record Renewed (db : Db) (org_id now : ℕ) (db' : Db) (after : Subscription) : Type 0 where
  pub new_end : ℕ
  pub ends : after.current_period_end ≡ some new_end
  pub in_future : now < new_end
  pub keeps_paid :
      (before : Subscription) (r : ℕ)
      → subscription_of db org_id ≡ some before
      → before.current_period_end ≡ some r
      → r < new_end
  pub active_until :
      (t : ℕ) → t ≤ new_end → compute_effective_status after t ≡ EffectiveStatus.active
  pub stored : subscription_of db' org_id ≡ some after
  pub others : (k : ℕ) → k ≢ org_id → subscription_of db' k ≡ subscription_of db k

active_until_end :
    (after : Subscription) (e t : ℕ)
    → after.status ≡ SubscriptionStatus.active
    → after.current_period_end ≡ some e
    → t ≤ e
    → compute_effective_status after t ≡ EffectiveStatus.active
unfolding compute_effective_status
active_until_end after e t hs he h = ground arith

keeps_paid_time :
    (db : Db) (org_id now months new_end r : ℕ) (sub before : Subscription)
    → subscription_of db org_id ≡ some sub
    → extension_base sub now < new_end
    → subscription_of db org_id ≡ some before
    → before.current_period_end ≡ some r
    → r < new_end
keeps_paid_time db org_id now months new_end r sub before es lt eb er =
    let same : sub ≡ before = cc in
    let e : sub.current_period_end ≡ some r = ap (λ s. s.current_period_end) same ∙ er in
    omega (arith, base-le_end sub now r e)

Extends-Renewed :
    (db : Db) (org_id months now : ℕ) (db' : Db) (after : Subscription)
    → Extends db org_id months now db' after
    → Renewed db org_id now db' after
Extends-Renewed db org_id months now db' after x =
    let at_org = found-subscription db org_id x.before x.found in
    let key : after.organization_id ≡ org_id =
      x.same_org ∙ subscription_of-organization_id db org_id x.before at_org in
    let grows =
      add_months-lt (extension_base x.before now) months x.new_end x.months_in.0 x.shifted in
    let saves : Saves db db' after =
      rw x.saved (record_edit-Saves db x.before after x.event (rw key at_org)) in
    record {
      new_end = x.new_end;
      ends = x.ends;
      in_future = omega (arith, grows, base-le x.before now);
      keeps_paid =
          λ before r. keeps_paid_time db org_id now months x.new_end r x.before before at_org grows;
      active_until = λ t. active_until_end after x.new_end t x.is_active x.ends;
      stored = subst (λ k. subscription_of db' k ≡ some after) key saves.stored;
      others = rw key at saves.others;
    }

-- A successful extension leaves the organization with a row whose period ends after now and after
-- the old end, that is in the effective status active up to that end, and is what is read back for
-- the organization; the subscriptions of other organizations stay.
pub extend_subscription-Renewed :
    (db : Db) (org_id actor months : ℕ) (code : Option String) (amount : Option ℤ)
    (remark : Option String) (now event_id : ℕ) (db' : Db) (after : Subscription)
    → extend_subscription db org_id actor months code amount remark now event_id ≡ ok (db', after)
    → Renewed db org_id now db' after
extend_subscription-Renewed db org_id actor months code amount remark now event_id db' after e =
    Extends-Renewed db org_id months now db' after (
      ensured (db', after) (extend-Ensures db org_id actor months code amount remark now event_id)
        e)
