-- ===== src/Shifts/Rows.antt =====
-- How one written, changed or inserted row moves the number of running shifts of a user.
use smenka_back.Prelude.{
  ℕ, ◌≤◌, ◌≡◌, refl, ap, subst, Bool, true, false, not, ◌&&◌, Option, none, some, List, [], ◌∷◌,
  ◌++◌, map, arith, ◌==◌, if◌then◌else◌, find, count, leq_trans, count-map_le, insert-one,
  count-update_le, update-keys, ok, raise_if, first_true, one_or_none, shift_already_active,
}
use smenka_back.Access.{is_some}
use smenka_back.Shifts.{
  ShiftStatus, ShiftFinishReason, Shift, World, is_active, is_paused, is_finished,
  get_shift_with_pauses, save_shift, ended, settings_of,
}
use smenka_back.Shifts.Schedule.{
  is_stale, auto_finish_enabled, finish_at_schedule, auto_finish, expire_limit, max_pause_of,
  expire_in, auto_finish_pause,
}
use smenka_back.Shifts.Start.{same_context, is_running_of}

abbrev by_id : Shift → ℕ
by_id s = s.id

abbrev pub has_id : ℕ → Shift → Bool
has_id k s = s.id == k

-- Ids are a primary key, and the running shifts of a user in one context are at most one.
pub record Exclusive (w : World) : Type 0 where
  pub unique_ids : (k : ℕ) → count (has_id k) w.shifts ≤ 1
  pub one_running : (user_id : ℕ) (org : Option ℕ) → count (is_running_of user_id org) w.shifts ≤ 1

-- `after` is `before` in the same place, and runs only if `before` does.
pub record Succeeds (before after : Shift) : Type 0 where
  pub same_id : after.id ≡ before.id
  pub no_new :
      (user_id : ℕ) (org : Option ℕ)
      → is_running_of user_id org after ≡ true
      → is_running_of user_id org before ≡ true

pub id_kept : (k : ℕ) (s s' : Shift) → s'.id ≡ s.id → has_id k s' ≡ true → has_id k s ≡ true
id_kept k s s' e h = ground arith

pub map-Exclusive :
    (w w' : World) (f : Shift → Shift)
    → w'.shifts ≡ map f w.shifts
    → ((s : Shift) → Succeeds s (f s))
    → Exclusive w
    → Exclusive w'
map-Exclusive w w' f e h x = record {
  unique_ids = λ k. rw e (
      leq_trans (count-map_le (has_id k) f w.shifts (λ s. id_kept k s (f s) (h s).same_id))
        (x.unique_ids k));
  one_running = λ u o. rw e (
      leq_trans (count-map_le (is_running_of u o) f w.shifts (λ s. (h s).no_new u o))
        (x.one_running u o));
}

pub save-Exclusive :
    (w : World) (shift_id user_id : ℕ) (s s' : Shift)
    → get_shift_with_pauses w shift_id user_id ≡ ok s
    → Succeeds s s'
    → Exclusive w
    → Exclusive (save_shift s' w)
unfolding get_shift_with_pauses save_shift
save-Exclusive w shift_id user_id s s' e h x =
    let here : find (λ r. r.id == shift_id && r.user_id == user_id && not r.is_deleted) w.shifts
        ≡ some s =
      ground arith in
    record {
      unique_ids = λ k. rw (update-keys by_id k s' w.shifts) (x.unique_ids k);
      one_running = λ u o.
          leq_trans
            (count-update_le by_id (is_running_of u o) _ s s' w.shifts here h.same_id (h.no_new u o)
              (x.unique_ids s'.id))
            (x.one_running u o);
    }

pub itself : (s : Shift) → Succeeds s s
itself s = record { same_id = refl; no_new = λ u o h. h }

-- A row with the same owner and context, of a row that runs.
pub rewrites :
    (s s' : Shift)
    → s'.id ≡ s.id
    → s'.user_id ≡ s.user_id
    → s'.organization_id ≡ s.organization_id
    → s'.is_deleted ≡ s.is_deleted
    → is_finished s.status ≡ false
    → Succeeds s s'
rewrites s s' ei eu eo ed running = record {
  same_id = ei;
  no_new = λ u o h. let k : is_running_of u o s' ≡ true = h in ground arith;
}

pub ended-Succeeds :
    (s : Shift) (incomplete : Bool) (reason : ShiftFinishReason) (pauses_at at : ℕ)
    → Succeeds s (ended s incomplete reason pauses_at at)
ended-Succeeds s incomplete reason pauses_at at = record {
  same_id = refl;
  no_new = λ u o h. ground arith;
}

pub scheduled-Succeeds :
    (s : Shift) (incomplete : Bool) (at : Option ℕ)
    → Succeeds s (finish_at_schedule s incomplete at)
scheduled-Succeeds s incomplete none = itself s
scheduled-Succeeds s incomplete (some at) =
    ended-Succeeds s incomplete ShiftFinishReason.auto_schedule at at

pub if-Succeeds :
    (b : Bool) (s s' s'' : Shift)
    → (b ≡ true → Succeeds s s')
    → Succeeds s s''
    → Succeeds s (if b then s' else s'')
if-Succeeds true s s' s'' h k = h refl
if-Succeeds false s s' s'' h k = k

pub auto_finish-Succeeds :
    (w : World) (now : ℕ) (incomplete : ℕ → Bool) (s : Shift)
    → Succeeds s (auto_finish w now incomplete s)
auto_finish-Succeeds w now incomplete s =
    if-Succeeds (is_stale s now && auto_finish_enabled w s.organization_id) s _ s
      (λ _. scheduled-Succeeds s (incomplete s.id) s.scheduled_end_at) (itself s)

pub not_finished : (st : ShiftStatus) → is_paused st ≡ true → is_finished st ≡ false
not_finished st h = ground arith

pub is_running_status : (st : ShiftStatus) → is_active st ≡ true → is_finished st ≡ false
is_running_status st h = ground arith

pub expire_limit-Succeeds :
    (limit : Option ℕ) (now : ℕ) (s : Shift)
    → is_paused s.status ≡ true
    → Succeeds s (expire_limit limit now s)
expire_limit-Succeeds none now s p = itself s
expire_limit-Succeeds (some minutes) now s p =
    rewrites s (expire_limit (some minutes) now s) refl refl refl refl (not_finished s.status p)

pub expire_in-Succeeds :
    (w : World) (now : ℕ) (org : Option ℕ) (s : Shift)
    → is_paused s.status ≡ true
    → Succeeds s (expire_in w now org s)
expire_in-Succeeds w now none s p = itself s
expire_in-Succeeds w now (some org_id) s p =
    expire_limit-Succeeds (max_pause_of (settings_of w org_id)) now s p

pub auto_finish_pause-Succeeds :
    (w : World) (now : ℕ) (s : Shift) → Succeeds s (auto_finish_pause w now s)
auto_finish_pause-Succeeds w now s =
    if-Succeeds (is_paused s.status && not s.is_deleted) s _ s
      (λ p. expire_in-Succeeds w now s.organization_id s (first_true (is_paused s.status) _ p))
      (itself s)

pub none_selected :
    (xs : List Shift) (existing : Option Shift)
    → one_or_none xs ≡ ok existing
    → raise_if (is_some existing) shift_already_active ≡ ok tt
    → xs ≡ []
none_selected [] existing e h = refl
none_selected (x ∷ []) none e h = cc
none_selected (x ∷ []) (some s) e h = cc
none_selected (x ∷ y ∷ xs) existing e h = cc

pub same_user_running :
    (s : Shift) (user_id u : ℕ) (org o : Option ℕ)
    → s.user_id ≡ user_id
    → s.organization_id ≡ org
    → is_running_of u o s ≡ true
    → (user_id ≡ u) × (same_context org o ≡ true)
same_user_running s user_id u org o eu eo h = ground arith

pub same_context-≡ : (a b : Option ℕ) → same_context a b ≡ true → a ≡ b
same_context-≡ none none h = refl
same_context-≡ none (some b) h = cc
same_context-≡ (some a) none h = cc
same_context-≡ (some a) (some b) h = let e : a ≡ b = ground arith in ap some e

pub insert-Exclusive :
    (w w' : World) (user_id : ℕ) (org : Option ℕ) (s : Shift)
    → w'.shifts ≡ w.shifts ++ s ∷ []
    → s.user_id ≡ user_id
    → s.organization_id ≡ org
    → count (has_id s.id) w.shifts ≡ 0
    → count (is_running_of user_id org) w.shifts ≡ 0
    → Exclusive w
    → Exclusive w'
insert-Exclusive w w' user_id org s e eu eo fresh idle x = record {
  unique_ids = λ k. rw e (insert-one (has_id k) s w.shifts (x.unique_ids k) (λ t. fresh_at k t));
  one_running = λ u o.
      rw e (insert-one (is_running_of u o) s w.shifts (x.one_running u o) (λ t. idle_at u o t));
}
  where
    fresh_at : (k : ℕ) → has_id k s ≡ true → count (has_id k) w.shifts ≡ 0
    fresh_at k t =
        let same : s.id ≡ k = ground arith in subst (λ j. count (has_id j) w.shifts ≡ 0) same fresh

    idle_at :
        (u : ℕ) (o : Option ℕ) → is_running_of u o s ≡ true → count (is_running_of u o) w.shifts ≡ 0
    idle_at u o t =
        let (su, so) = same_user_running s user_id u org o eu eo t in
        subst (λ v. count (is_running_of v o) w.shifts ≡ 0) su
          (subst (λ c. count (is_running_of user_id c) w.shifts ≡ 0) (same_context-≡ org o so) idle)
