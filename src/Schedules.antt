-- ===== src/Schedules.antt =====
-- Work schedules: src/app/models/work_schedule.py and the windows of src/app/services/work_schedule.py. The
-- zone database is a parameter: `Zone`. A time of day is in microseconds, and dates stand two days after
-- the first one at least.
pub mod Windows
pub mod Steady
pub mod Tables
pub mod Choice
pub mod Start
pub mod Valid
use smenka_back.Prelude.{
  ℕ, ◌+◌, ◌-◌, ◌*◌, ◌/◌, ◌%◌, Bool, true, ◌&&◌, Option, none, some, List, [], ◌∷◌, String, ltb, leb,
  ◌==◌, if◌then◌else◌, find, select,
}
use smenka_back.Calendar.{minute, day}
use smenka_back.Access.{is_some}

pub record WorkSchedule : Type 0 where
  pub id : ℕ
  pub organization_id : ℕ
  pub name : String
  pub start_time : ℕ
  pub end_time : ℕ
  pub is_paused : Bool

pub record WeeklyRule : Type 0 where
  pub work_schedule_id : ℕ
  pub weekday : ℕ
  pub is_enabled : Bool
  pub start_time : Option ℕ
  pub end_time : Option ℕ

-- `ZoneInfo`: the wall clock of a moment, and the moment of a wall clock.
pub record Zone : Type 0 where
  pub local : ℕ → ℕ
  pub utc : ℕ → ℕ

-- An interval of UTC moments.
pub record Window : Type 0 where
  pub start : ℕ
  pub end : ℕ

unfoldable pub schedule_duration : ℕ → ℕ → ℕ
schedule_duration start_time end_time =
    if ltb start_time end_time then end_time - start_time else day - (start_time - end_time)

-- The window that starts on a date; `duration` is added to the wall clock.
unfoldable pub candidate : Zone → ℕ → ℕ → ℕ → Window
candidate zone date start_time duration = record {
  start = zone.utc (date * day + start_time);
  end = zone.utc (date * day + start_time + duration);
}

abbrev pub contains : ℕ → Window → Bool
contains t w = leb w.start t && leb t w.end

abbrev pub ends_after : ℕ → Window → Bool
ends_after t w = ltb t w.end

abbrev pub distance : ℕ → Window → ℕ
distance t w = (t - w.start) + (w.start - t)

-- The first of the best ones, as `max` and `min` choose it.
unfoldable pub choose : (Window → Window → Bool) → Window → List Window → Window
choose better best [] = best
choose better best (w ∷ rest) = choose better (if better w best then w else best) rest

-- `max(pairs, key=start)`
abbrev pub starts_later : Window → Window → Bool
starts_later w best = ltb best.start w.start

abbrev pub latest_start : Window → List Window → Window
latest_start = choose starts_later

-- `min(pairs, key=distance)`
abbrev pub is_nearer : ℕ → Window → Window → Bool
is_nearer t w best = ltb (distance t w) (distance t best)

abbrev pub nearest : ℕ → Window → List Window → Window
nearest t = choose (is_nearer t)

-- The nearest window that has not ended; `last` if there is none.
abbrev pub upcoming : ℕ → List Window → Window → Window
upcoming t [] last = last
upcoming t (w ∷ rest) last = nearest t w rest

abbrev pub containing_or : List Window → Window → Window
containing_or [] otherwise = otherwise
containing_or (w ∷ rest) otherwise = latest_start w rest

-- The candidates of the day before, of the day and of the day after.
abbrev pub around : Zone → ℕ → ℕ → ℕ → List Window
around zone date start_time duration =
    candidate zone (date - 1) start_time duration
    ∷ candidate zone date start_time duration
    ∷ candidate zone (date + 1) start_time duration
    ∷ []

unfoldable pub compute_scheduled_window : Zone → ℕ → ℕ → ℕ → Window
compute_scheduled_window zone started_at start_time end_time =
    let duration = schedule_duration start_time end_time in
    let date = zone.local started_at / day in
    let candidates = around zone date start_time duration in
    containing_or (select (contains started_at) candidates) (
      upcoming started_at (select (ends_after started_at) candidates)
        (candidate zone (date + 2) start_time duration))

-- `date.isoweekday()`; day 0 is a Monday.
abbrev pub isoweekday : ℕ → ℕ
isoweekday date = date % 7 + 1

-- The times of a rule; `none` is a day off.
abbrev pub enabled_times : Bool → Option ℕ → Option ℕ → Option (ℕ × ℕ)
enabled_times true (some start_time) (some end_time) = some (start_time, end_time)
enabled_times _ _ _ = none

abbrev pub rule_times : WorkSchedule → Option WeeklyRule → Option (ℕ × ℕ)
rule_times schedule none = some (schedule.start_time, schedule.end_time)
rule_times schedule (some r) = enabled_times r.is_enabled r.start_time r.end_time

-- `rules` are the rows of the schedule, at most one for a weekday.
unfoldable pub weekly_window_for : WorkSchedule → List WeeklyRule → ℕ → Option (ℕ × ℕ)
weekly_window_for schedule rules weekday =
    rule_times schedule (find (λ r. r.weekday == weekday) rules)

abbrev pub add_candidate : Zone → ℕ → Option (ℕ × ℕ) → List Window → List Window
add_candidate zone date none rest = rest
add_candidate zone date (some times) rest =
    candidate zone date times.0 (schedule_duration times.0 times.1) ∷ rest

unfoldable pub add_day : Zone → WorkSchedule → List WeeklyRule → ℕ → List Window → List Window
add_day zone schedule rules date rest =
    add_candidate zone date (weekly_window_for schedule rules (isoweekday date)) rest

-- The candidates of five days: those of `for offset in (-2, -1, 0, 1, 2)` that are not days off.
abbrev pub weekly_candidates : Zone → WorkSchedule → List WeeklyRule → ℕ → List Window
weekly_candidates zone schedule rules date = add_day zone schedule rules (date - 2) (
    add_day zone schedule rules (date - 1) (
      add_day zone schedule rules date
        (add_day zone schedule rules (date + 1) (add_day zone schedule rules (date + 2) []))))

-- `min(future)`; `none` if there is no window to come.
abbrev pub nearest_of : ℕ → List Window → Option Window
nearest_of t [] = none
nearest_of t (w ∷ rest) = some (nearest t w rest)

abbrev pub containing_or_else : List Window → Option Window → Option Window
containing_or_else [] otherwise = otherwise
containing_or_else (w ∷ rest) otherwise = some (latest_start w rest)

unfoldable pub compute_scheduled_window_with_weekly_rules :
    Zone → ℕ → WorkSchedule → List WeeklyRule → Option Window
compute_scheduled_window_with_weekly_rules zone started_at schedule rules =
    let date = zone.local started_at / day in
    let candidates = weekly_candidates zone schedule rules date in
    containing_or_else (select (contains started_at) candidates) (
      if is_some (weekly_window_for schedule rules (isoweekday date))
      then nearest_of started_at (select (ends_after started_at) candidates)
      else none)

-- `now >= next_start_at - timedelta(minutes=early_start_minutes)`
unfoldable pub is_schedule_startable : ℕ → ℕ → ℕ → Bool
is_schedule_startable now next_start_at early_start_minutes =
    leb next_start_at (now + early_start_minutes * minute)
