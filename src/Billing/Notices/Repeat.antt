-- ===== src/Billing/Notices/Repeat.antt =====
-- A second run of the task of src/app/tasks/subscriptions.py.
use mathlib.Core.List.{append-nil}
use smenka_back.Prelude.{ℕ, ◌≡◌, refl, Option, none, some, List, [], ◌∷◌, arith, ℤ, ◌∙◌}
use smenka_back.Access.{Directory, Organization}
use smenka_back.Billing.Tables.{Subscription, Db}
use smenka_back.Billing.Entitlements.{EffectiveStatus, compute_effective_status, days_left}
use smenka_back.Billing.Notices.{
  Action, nothing, warn, reset, suspend, action_for, decide_action, mark, Run, visit, live_org,
  visit_rows, notify_subscription_status,
}

-- The mark does not enter the effective status or the days left.
pub mark-status :
    (a : Action) (sub : Subscription) (now : ℕ)
    → (compute_effective_status (mark a sub) now ≡ compute_effective_status sub now)
      × (days_left (mark a sub) now ≡ days_left sub now)
unfolding compute_effective_status days_left
mark-status nothing sub now = (refl, refl)
mark-status _ sub now = (ground arith, ground arith)

-- The mark that an action leaves silences the same decision.
action_again :
    (s : EffectiveStatus) (dl : Option ℤ) (last : Option ℕ) (sub : Subscription)
    → sub.last_expiry_notice_days ≡ last
    → action_for s dl (mark (action_for s dl last) sub).last_expiry_notice_days ≡ nothing
action_again EffectiveStatus.past_due dl last sub e = refl
action_again EffectiveStatus.canceled dl last sub e = refl
action_again EffectiveStatus.suspended dl last sub e = ground arith
action_again s none last sub e = ground arith
action_again s (some d) last sub e = ground arith

-- A row that the task has just handled needs nothing at the same moment.
pub decide_action-mark :
    (sub : Subscription) (now : ℕ) → decide_action (mark (decide_action sub now) sub) now ≡ nothing
unfolding decide_action
decide_action-mark sub now =
    let a = decide_action sub now in
    rw (mark-status a sub now).0 (
      rw (mark-status a sub now).1 (
        action_again (compute_effective_status sub now) (days_left sub now)
          sub.last_expiry_notice_days sub refl))

live_org-mark :
    (a : Action) (db : Directory) (sub : Subscription) → live_org db (mark a sub) ≡ live_org db sub
live_org-mark nothing db sub = refl
live_org-mark (warn n d) db sub = refl
live_org-mark reset db sub = refl
live_org-mark suspend db sub = refl

-- A run that writes nothing over some rows.
abbrev quiet : List Subscription → Run
quiet rows = record { rows = rows; journal = []; messages = [] }

visit_again :
    (found : Option Organization) (db : Directory) (now : ℕ) (ids ids' : ℕ → ℕ) (sub : Subscription)
    (rest : Run)
    → live_org db sub ≡ found
    → visit_rows db now ids' rest.rows ≡ quiet rest.rows
    → visit_rows db now ids' (visit found db now ids sub rest).rows
      ≡ quiet (visit found db now ids sub rest).rows
unfolding visit_rows
visit_again none db now ids ids' sub rest e ih = rw (e, ih)
visit_again (some org) db now ids ids' sub rest e ih =
    let a = decide_action sub now in
    let found : live_org db (mark a sub) ≡ some org = live_org-mark a db sub ∙ e in
    rw (found, ih, decide_action-mark sub now)

visit_rows-again :
    (db : Directory) (now : ℕ) (ids ids' : ℕ → ℕ) (subs : List Subscription)
    → visit_rows db now ids' (visit_rows db now ids subs).rows
      ≡ quiet (visit_rows db now ids subs).rows
unfolding visit_rows
visit_rows-again db now ids ids' [] = refl
visit_rows-again db now ids ids' (sub ∷ subs) =
    visit_again (live_org db sub) db now ids ids' sub (visit_rows db now ids subs) refl
      (visit_rows-again db now ids ids' subs)

-- A second run at the same moment changes no row, writes no journal entry and sends nothing.
pub notify_subscription_status-twice :
    (db : Db) (now : ℕ) (ids ids' : ℕ → ℕ)
    → notify_subscription_status (notify_subscription_status db now ids).0 now ids'
      ≡ ((notify_subscription_status db now ids).0, [])
unfolding notify_subscription_status
notify_subscription_status-twice db now ids ids' =
    rw (visit_rows-again db.directory now ids ids' db.subscriptions) (rw append-nil refl)
