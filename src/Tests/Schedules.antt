-- ===== src/Tests/Schedules.antt =====
-- Work schedules at concrete inputs.
use smenka_back.Prelude.{◌*◌, ◌+◌, ◌≡◌, refl, true, false, none, some, [], ◌∷◌, ok, Ensures, arith}
use smenka_back.Calendar.{day, minute, calendar}
use smenka_back.Access.{get_organization, ensure_admin_or_owner}
use smenka_back.Billing.Entitlements.{entitlements}
use smenka_back.Shifts.{settings_of}
use smenka_back.Schedules.{
  WorkSchedule, WeeklyRule, Zone, schedule_duration, candidate, choose, compute_scheduled_window,
  isoweekday, weekly_window_for, add_day, weekly_candidates,
  compute_scheduled_window_with_weekly_rules,
}
use smenka_back.Schedules.Windows.{Promises, compute_scheduled_window_with_weekly_rules-Promises}
use smenka_back.Schedules.Steady.{
  east_of, compute_scheduled_window_with_weekly_rules-compute_scheduled_window,
}
use smenka_back.Schedules.Tables.{
  Tables, RuleInput, check_admin, get_schedule, parse_rules, replace_weekly_rules,
}
use smenka_back.Schedules.Choice.{resolve_org_shift_schedule}
use smenka_back.Schedules.Start.{Resolved, resolve_org_shift_schedule-Resolved}
use smenka_back.Schedules.Valid.{IsValid, replaces, start, next, Reach-IsValid}
use smenka_back.Tests.Fixtures.{db}
use smenka_back.Tests.Shifts.{at_work}

-- From 22 to 6 o'clock.
abbrev nights : WorkSchedule
nights = record {
  id = 40;
  organization_id = 1;
  name = "nights";
  start_time = 1320 * minute;
  end_time = 360 * minute;
  is_paused = false;
}

-- Sunday is a day off.
abbrev sunday_off : WeeklyRule
sunday_off = record {
  work_schedule_id = 40;
  weekday = 7;
  is_enabled = false;
  start_time = none;
  end_time = none;
}

abbrev moscow : Zone
moscow = east_of (180 * minute)

-- At 3 o'clock of Friday, the window is that of Thursday.
night_window :
    compute_scheduled_window_with_weekly_rules moscow (4 * day) nights (sunday_off ∷ [])
    ≡ some (record { start = 3 * day + 1140 * minute; end = 4 * day + 180 * minute })
unfolding compute_scheduled_window_with_weekly_rules candidate schedule_duration add_day
    weekly_window_for choose
night_window = refl

compute_scheduled_window_with_weekly_rules-Promises_example :
    Promises
      (4 * day)
      (weekly_candidates moscow nights (sunday_off ∷ []) 4)
      (weekly_window_for nights (sunday_off ∷ []) (isoweekday 4))
      (compute_scheduled_window_with_weekly_rules moscow (4 * day) nights (sunday_off ∷ []))
compute_scheduled_window_with_weekly_rules-Promises_example =
    compute_scheduled_window_with_weekly_rules-Promises moscow (4 * day) nights (sunday_off ∷ [])

compute_scheduled_window_with_weekly_rules-compute_scheduled_window_example :
    compute_scheduled_window_with_weekly_rules (east_of (180 * minute)) (4 * day) nights []
    ≡ some
        (compute_scheduled_window (east_of (180 * minute)) (4 * day) (1320 * minute) (360 * minute))
compute_scheduled_window_with_weekly_rules-compute_scheduled_window_example =
    compute_scheduled_window_with_weekly_rules-compute_scheduled_window (180 * minute) (4 * day)
      nights (omega arith) (omega arith) (omega arith) (omega arith)

abbrev pub office : Tables
office = record { billing = db; world = at_work; schedules = nights ∷ []; rules = [] }

resolve_org_shift_schedule-Resolved_example :
    Ensures
      (Resolved moscow (4 * day) true 15 office.rules (nights ∷ []))
      (resolve_org_shift_schedule office moscow 1 (4 * day) (nights ∷ []) none)
unfolding settings_of
resolve_org_shift_schedule-Resolved_example =
    resolve_org_shift_schedule-Resolved office moscow 1 (4 * day) (nights ∷ []) none

abbrev off : RuleInput
off = record { weekday = some 7; is_enabled = false; start_time = none; end_time = none }

abbrev with_rule : Tables
with_rule = record office { rules = sunday_off ∷ [] }

replace_runs :
    replace_weekly_rules office 1 40 10 (off ∷ []) (5 * day) ≡ ok (with_rule, sunday_off ∷ [])
unfolding calendar entitlements get_organization ensure_admin_or_owner check_admin get_schedule
    parse_rules replace_weekly_rules
replace_runs = refl

office-IsValid : IsValid office
office-IsValid = record { spans = (refl, tt); rules = tt; one_rule = λ k d. omega arith }

Reach-IsValid_example : IsValid with_rule
Reach-IsValid_example =
    Reach-IsValid
      (next start (replaces 1 40 10 (off ∷ []) (5 * day) with_rule (sunday_off ∷ []) replace_runs))
      office-IsValid
