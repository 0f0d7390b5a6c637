-- ===== src/Schedules/Start.antt =====
-- What `_resolve_org_shift_schedule` of src/app/services/shift.py lets a shift start with.
use smenka_back.Prelude.{
  ℕ, ◌+◌, ◌*◌, ◌≤◌, ◌≡◌, refl, Bool, true, false, Option, none, some, List, [], ◌∷◌, arith, ltb,
  ◌==◌, Bool-cases, inl, inr, find, find-In, length, In, here, there, ok, raise_if, or_raise,
  >>=-Ensures, if-Ensures, Ensures, returns, schedule_not_found, schedule_not_available,
  schedule_window_closed, schedule_required, ◌&&◌, All, All-mono, Error, not_raised,
}
use smenka_back.Calendar.{minute}
use smenka_back.Shifts.{settings_of}
use smenka_back.Schedules.{
  WorkSchedule, WeeklyRule, Zone, Window, compute_scheduled_window_with_weekly_rules,
  is_schedule_startable,
}
use smenka_back.Schedules.Windows.{
  compute_scheduled_window_with_weekly_rules-Promises, promised_not_over,
}
use smenka_back.Schedules.Tables.{Tables, get_schedule, rules_of}
use smenka_back.Schedules.Choice.{
  requires_schedule, early_start, Planned, window_of, add_startable, startable_schedules, is_empty,
  only_one, resolve_requested, resolve_automatic, resolve_org_shift_schedule,
}

-- An effective schedule, its window by the rules of the week, opened at most `early` minutes later than the
-- moment and not over.
pub record CanStart (zone : Zone) (t early : ℕ) (rules : List WeeklyRule)
    (effective : List WorkSchedule) (p : Planned) : Type 0 where
  pub is_effective : In p.schedule effective
  pub by_rules :
      compute_scheduled_window_with_weekly_rules zone t p.schedule (rules_of rules p.schedule.id)
      ≡ some p.window
  pub opened : p.window.start ≤ t + early * minute
  pub not_over : t ≤ p.window.end

-- Without a schedule only where none is required.
abbrev pub Resolved :
    Zone → ℕ → Bool → ℕ → List WeeklyRule → List WorkSchedule → Option Planned → Type 0
Resolved zone t require early rules effective none = require ≡ false
Resolved zone t require early rules effective (some p) = CanStart zone t early rules effective p

module _ (zone : Zone) (t early : ℕ) (rules : List WeeklyRule) where
  not_over : (s : WorkSchedule) (w : Window) → window_of zone t early rules s ≡ some w → t ≤ w.end
  unfolding window_of
  not_over s w e =
      promised_not_over t _ _ _ w
        (compute_scheduled_window_with_weekly_rules-Promises zone t s (rules_of rules s.id)) e

  can_start :
      (effective : List WorkSchedule) (s : WorkSchedule) (w : Window)
      → In s effective
      → window_of zone t early rules s ≡ some w
      → is_schedule_startable t w.start early ≡ true
      → CanStart zone t early rules effective (record { schedule = s; window = w })
  unfolding is_schedule_startable
  can_start effective s w i e h = record {
    is_effective = i;
    by_rules = unfold window_of in e;
    opened = ground arith;
    not_over = not_over s w e;
  }

  -- The entries of the list of schedules that can start.
  add-CanStart :
      (effective : List WorkSchedule) (s : WorkSchedule) (o : Option Window) (rest : List Planned)
      → In s effective
      → window_of zone t early rules s ≡ o
      → All (CanStart zone t early rules effective) rest
      → All (CanStart zone t early rules effective) (add_startable zone t early rules s o rest)
  add-CanStart effective s none rest i e all = all
  add-CanStart effective s (some w) rest i e all =
      elim (Bool-cases (is_schedule_startable t w.start early)) [
        | inl open_now ↦ rw open_now (can_start effective s w i e open_now, all)
        | inr shut ↦ rw shut all
      ]

  wider :
      (s : WorkSchedule) (effective : List WorkSchedule) (p : Planned)
      → CanStart zone t early rules effective p
      → CanStart zone t early rules (s ∷ effective) p
  wider s effective p c = record {
    is_effective = there s c.is_effective;
    by_rules = c.by_rules;
    opened = c.opened;
    not_over = c.not_over;
  }

  startable-CanStart :
      (effective : List WorkSchedule)
      → All
          (CanStart zone t early rules effective)
          (startable_schedules zone t early rules effective)
  unfolding startable_schedules
  startable-CanStart [] = tt
  startable-CanStart (s ∷ effective) =
      add-CanStart (s ∷ effective) s (window_of zone t early rules s) _ (here effective) refl (
        All-mono (CanStart zone t early rules effective)
          (CanStart zone t early rules (s ∷ effective)) (wider s effective) _
          (startable-CanStart effective))

  automatic_choice :
      (require : Bool) (effective : List WorkSchedule) (found : List Planned)
      → All (CanStart zone t early rules effective) found
      → raise_if (require && is_empty found) schedule_window_closed ≡ ok tt
      → raise_if (require && ltb 1 (length found)) schedule_required ≡ ok tt
      → Resolved zone t require early rules effective (only_one found)
  automatic_choice false effective [] all h k = refl
  automatic_choice true effective [] all h k = cc
  automatic_choice require effective (p ∷ []) all h k = all.0
  automatic_choice false effective (p ∷ q ∷ rest) all h k = refl
  automatic_choice true effective (p ∷ q ∷ rest) all h k = ground arith

  automatic-Resolved :
      (require : Bool) (effective : List WorkSchedule)
      → Ensures
          (Resolved zone t require early rules effective)
          (resolve_automatic require effective (startable_schedules zone t early rules effective))
  unfolding resolve_automatic
  automatic-Resolved require effective =
      let found = startable_schedules zone t early rules effective in
      >>=-Ensures (raise_if (require && is_empty effective) schedule_required) _ λ _ _.
        >>=-Ensures (raise_if (require && is_empty found) schedule_window_closed) _ λ _ h.
          >>=-Ensures (raise_if (require && ltb 1 (length found)) schedule_required) _ λ _ k.
            returns _ (automatic_choice require effective found (startable-CanStart effective) h k)

found_some : {A : Type 0} (o : Option A) (a : A) (e : Error) → or_raise o e ≡ ok a → o ≡ some a
found_some none a e h = cc
found_some (some b) a e h = ground arith

module _ (db : Tables) (zone : Zone) (org_id t : ℕ) where
  requested-Resolved :
      (require : Bool) (early : ℕ) (effective : List WorkSchedule) (requested : Option ℕ)
      → Ensures
          (Resolved zone t require early db.rules effective)
          (resolve_requested db zone org_id t require early effective requested)
  unfolding resolve_requested
  requested-Resolved require early effective requested =
      >>=-Ensures (or_raise requested schedule_not_found) _ λ schedule_id _.
        >>=-Ensures (get_schedule db.schedules org_id schedule_id) _ λ _ _.
          >>=-Ensures (or_raise (find (λ s. s.id == schedule_id) effective) schedule_not_available)
            _
            λ chosen c.
              >>=-Ensures (or_raise (window_of zone t early db.rules chosen) schedule_not_available)
                _
                λ w k.
                  if-Ensures (is_schedule_startable t w.start early) _ _
                    (λ open_now. returns _ (
                      can_start zone t early db.rules effective chosen w
                        (find-In (λ s. s.id == schedule_id) chosen effective
                          (found_some _ chosen schedule_not_available c))
                        (found_some _ w schedule_not_available k) open_now))
                    (λ shut.
                      >>=-Ensures (raise_if require schedule_window_closed) _
                        λ _ h. returns _ (not_raised require schedule_window_closed h))

  -- Where the start of a shift is let through with a schedule, the schedule is an effective one, the window
  -- is its window by the rules of the week, opens at most the early minutes of the organization later, and is
  -- not over; without a schedule, the organization requires none.
  pub resolve_org_shift_schedule-Resolved :
      (effective : List WorkSchedule) (requested : Option (Option ℕ))
      → let settings = settings_of db.world org_id in
        Ensures
          (Resolved zone t (requires_schedule settings) (early_start settings) db.rules effective)
          (resolve_org_shift_schedule db zone org_id t effective requested)
  unfolding resolve_org_shift_schedule
  resolve_org_shift_schedule-Resolved effective none =
      let settings = settings_of db.world org_id in
      automatic-Resolved zone t (early_start settings) db.rules (requires_schedule settings)
        effective
  resolve_org_shift_schedule-Resolved effective (some requested) =
      let settings = settings_of db.world org_id in
      requested-Resolved (requires_schedule settings) (early_start settings) effective requested
