-- ===== src/Schedules/Steady.antt =====
-- The two ways in which src/app/services/work_schedule.py and src/app/services/manual_shift.py find the
-- window of a schedule, in a zone with a fixed offset.
use smenka_back.Prelude.{
  ℕ, ◌+◌, ◌-◌, ◌*◌, ◌/◌, ◌≤◌, ◌<◌, ◌≡◌, refl, ap, ◌∙◌, true, false, some, List, [], ◌∷◌, ◌++◌,
  arith, if◌then◌else◌, select, select-append, In-select, In, here, there, leq_trans,
}
use smenka_back.Calendar.{day}
use smenka_back.Schedules.{
  Zone, Window, WorkSchedule, schedule_duration, candidate, contains, ends_after, distance, choose,
  is_nearer, nearest, upcoming, containing_or, around, compute_scheduled_window, weekly_window_for,
  add_day, nearest_of, containing_or_else, compute_scheduled_window_with_weekly_rules,
}
use smenka_back.Schedules.Windows.{schedule_duration_bounds, nearest-best}

-- A zone east of Greenwich, with no changes of its offset.
abbrev pub east_of : ℕ → Zone
east_of offset = record { local = λ t. t + offset; utc = λ l. l - offset }

choose-snoc :
    (t : ℕ) (first : Window) (rest : List Window) (far : Window)
    → distance t (nearest t first rest) ≤ distance t far
    → nearest t first (rest ++ far ∷ []) ≡ nearest t first rest
unfolding choose
choose-snoc t first [] far h = ground arith
choose-snoc t first (w ∷ rest) far h =
    choose-snoc t (if is_nearer t w first then w else first) rest far h

module _ (offset t start_time end_time : ℕ) (small : offset ≤ day) (late : 2 * day ≤ t + offset)
    (at : start_time < day) (until : end_time < day) where
  abbrev date : ℕ
  date = (t + offset) / day

  abbrev len : ℕ
  len = schedule_duration start_time end_time

  abbrev on : ℕ → Window
  on k = candidate (east_of offset) k start_time len

  too_early : (contains t (on (date - 2)) ≡ false) × (ends_after t (on (date - 2)) ≡ false)
  unfolding candidate
  too_early =
      let (b, c) = schedule_duration_bounds start_time end_time at until in
      (ground arith, ground arith)

  too_late : (contains t (on (date + 2)) ≡ false) × (ends_after t (on (date + 2)) ≡ true)
  unfolding candidate
  too_late =
      let (b, c) = schedule_duration_bounds start_time end_time at until in
      (ground arith, ground arith)

  tomorrow : ends_after t (on (date + 1)) ≡ true
  unfolding candidate
  tomorrow = let (b, c) = schedule_duration_bounds start_time end_time at until in ground arith

  farther : distance t (on (date + 1)) ≤ distance t (on (date + 2))
  unfolding candidate
  farther = omega arith

  abbrev three : List Window
  three = around (east_of offset) date start_time len

  same_holding :
      select (contains t) (on (date - 2) ∷ three ++ on (date + 2) ∷ []) ≡ select (contains t) three
  same_holding = rw (too_early.0, too_late.0)

  same_coming :
      select (ends_after t) (on (date - 2) ∷ three ++ on (date + 2) ∷ [])
      ≡ select (ends_after t) three ++ on (date + 2) ∷ []
  same_coming = rw too_early.1 (
      select-append (ends_after t) three (on (date + 2) ∷ [])
      ∙ ap (λ l. select (ends_after t) three ++ l) last)
    where
      last : select (ends_after t) (on (date + 2) ∷ []) ≡ on (date + 2) ∷ []
      last = rw too_late.1

  coming_tomorrow : In (on (date + 1)) (select (ends_after t) three)
  coming_tomorrow =
      In-select (ends_after t) (there (on (date - 1)) (there (on date) (here []))) tomorrow

  same_nearest :
      (coming : List Window)
      → In (on (date + 1)) coming
      → nearest_of t (coming ++ on (date + 2) ∷ []) ≡ some (upcoming t coming (on (date + 2)))
  same_nearest [] i = elim i [ ]
  same_nearest (w ∷ rest) i = ap some (
      choose-snoc t w rest (on (date + 2))
        (leq_trans (nearest-best t w (on (date + 1)) rest i) farther))

  same_choice :
      (holding : List Window)
      → containing_or_else holding
          (nearest_of t (select (ends_after t) three ++ on (date + 2) ∷ []))
        ≡ some (containing_or holding (upcoming t (select (ends_after t) three) (on (date + 2))))
  same_choice (w ∷ rest) = refl
  same_choice [] = same_nearest (select (ends_after t) three) coming_tomorrow

  abbrev five : List Window
  five = on (date - 2) ∷ three ++ on (date + 2) ∷ []

  agree :
      containing_or_else (select (contains t) five) (nearest_of t (select (ends_after t) five))
      ≡ some (
          containing_or
            (select (contains t) three)
            (upcoming t (select (ends_after t) three) (on (date + 2))))
  agree =
      ap (λ l. containing_or_else l (nearest_of t (select (ends_after t) five))) same_holding
      ∙ ap (λ l. containing_or_else (select (contains t) three) (nearest_of t l)) same_coming
      ∙ same_choice (select (contains t) three)

-- In a zone east of Greenwich whose offset does not change, a schedule with no rules of the week has the
-- same window by the rules, as a shift that is started or moved to another schedule takes it, as without
-- them, as a shift that is entered by hand takes it.
pub compute_scheduled_window_with_weekly_rules-compute_scheduled_window :
    (offset started_at : ℕ) (schedule : WorkSchedule)
    → offset ≤ day
    → 2 * day ≤ started_at + offset
    → schedule.start_time < day
    → schedule.end_time < day
    → compute_scheduled_window_with_weekly_rules (east_of offset) started_at schedule []
      ≡ some (
          compute_scheduled_window
            (east_of offset)
            started_at
            schedule.start_time
            schedule.end_time)
unfolding compute_scheduled_window_with_weekly_rules compute_scheduled_window add_day
    weekly_window_for
compute_scheduled_window_with_weekly_rules-compute_scheduled_window offset t schedule small late at
      until =
    agree offset t schedule.start_time schedule.end_time small late at until
