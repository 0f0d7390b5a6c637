-- ===== src/Schedules/Choice.antt =====
-- The schedule of a shift: `change_shift_schedule` of src/app/services/work_schedule.py, and
-- `_resolve_org_shift_schedule` of src/app/services/shift.py, with the schedules that are effective for the
-- member as an argument.
use smenka_back.Prelude.{
  ℕ, Bool, true, false, not, ◌&&◌, Option, none, some, List, [], ◌∷◌, ltb, ◌==◌, if◌then◌else◌,
  find, length, Result, ok, ◌>>=◌, ◌>>◌, raise_if, or_raise, shift_not_found, schedule_not_found,
  schedule_not_available, schedule_window_closed, schedule_required,
}
use smenka_back.Shifts.{Shift, World, OrganizationSettings, save_shift, settings_of}
use smenka_back.Schedules.{
  WorkSchedule, WeeklyRule, Zone, Window, compute_scheduled_window_with_weekly_rules,
  is_schedule_startable,
}
use smenka_back.Schedules.Tables.{Tables, check_admin, get_schedule, rules_of}

abbrev pub in_org : Option ℕ → ℕ → Bool
in_org none org_id = false
in_org (some k) org_id = k == org_id

unfoldable pub get_org_shift : World → ℕ → ℕ → Result Shift
get_org_shift w org_id shift_id =
    or_raise
      (find (λ s. s.id == shift_id && in_org s.organization_id org_id && not s.is_deleted) w.shifts)
      shift_not_found

abbrev pub without_schedule : Shift → Shift
without_schedule s = record s {
  work_schedule_id = none;
  schedule_name = none;
  scheduled_start_at = none;
  scheduled_end_at = none;
}

abbrev pub with_schedule : Shift → WorkSchedule → Window → Shift
with_schedule s schedule w = record s {
  work_schedule_id = some schedule.id;
  schedule_name = some schedule.name;
  scheduled_start_at = some w.start;
  scheduled_end_at = some w.end;
}

unfoldable pub reschedule : Tables → Zone → ℕ → Shift → Option ℕ → Result Shift
reschedule db zone org_id s none = ok (without_schedule s)
reschedule db zone org_id s (some schedule_id) = do
  schedule ← get_schedule db.schedules org_id schedule_id
  w ←
      or_raise
        (compute_scheduled_window_with_weekly_rules zone s.started_at schedule
          (rules_of db.rules schedule.id))
        schedule_not_available
  ok (with_schedule s schedule w)

unfoldable pub change_shift_schedule :
    Tables → Zone → ℕ → ℕ → ℕ → Option ℕ → ℕ → Result (Tables × Shift)
change_shift_schedule db zone org_id shift_id requester_id schedule_id now = do
  check_admin db.billing org_id requester_id now
  s ← get_org_shift db.world org_id shift_id
  s' ← reschedule db zone org_id s schedule_id
  ok (record db { world = save_shift s' db.world }, s')

abbrev pub requires_schedule : Option OrganizationSettings → Bool
requires_schedule none = false
requires_schedule (some s) = s.require_schedule

abbrev pub early_start : Option OrganizationSettings → ℕ
early_start none = 0
early_start (some s) = s.early_start_minutes

-- A schedule with the window of a moment.
pub record Planned : Type 0 where
  pub schedule : WorkSchedule
  pub window : Window

module _ (zone : Zone) (started_at early : ℕ) (rules : List WeeklyRule) where
  unfoldable pub window_of : WorkSchedule → Option Window
  window_of s = compute_scheduled_window_with_weekly_rules zone started_at s (rules_of rules s.id)

  abbrev pub add_startable : WorkSchedule → Option Window → List Planned → List Planned
  add_startable s none rest = rest
  add_startable s (some w) rest =
      if is_schedule_startable started_at w.start early
      then record { schedule = s; window = w } ∷ rest
      else rest

  unfoldable pub startable_schedules : List WorkSchedule → List Planned
  startable_schedules [] = []
  startable_schedules (s ∷ effective) =
      add_startable s (window_of s) (startable_schedules effective)

abbrev pub is_empty {ℓ} : {A : Type ℓ} → List A → Bool
is_empty [] = true
is_empty (x ∷ xs) = false

-- The only one, if there is exactly one.
abbrev pub only_one : List Planned → Option Planned
only_one (p ∷ []) = some p
only_one _ = none

-- A request for a schedule; `none` is a text that is no id.
unfoldable pub resolve_requested :
    Tables → Zone → ℕ → ℕ → Bool → ℕ → List WorkSchedule → Option ℕ → Result (Option Planned)
resolve_requested db zone org_id started_at require early effective requested = do
  schedule_id ← or_raise requested schedule_not_found
  _ ← get_schedule db.schedules org_id schedule_id
  chosen ← or_raise (find (λ s. s.id == schedule_id) effective) schedule_not_available
  w ← or_raise (window_of zone started_at early db.rules chosen) schedule_not_available
  if is_schedule_startable started_at w.start early
      then ok (some (record { schedule = chosen; window = w }))
      else raise_if require schedule_window_closed >> ok none

unfoldable pub resolve_automatic : Bool → List WorkSchedule → List Planned → Result (Option Planned)
resolve_automatic require effective found = do
  raise_if (require && is_empty effective) schedule_required
  raise_if (require && is_empty found) schedule_window_closed
  raise_if (require && ltb 1 (length found)) schedule_required
  ok (only_one found)

abbrev pub resolve_with :
    Tables
    → Zone
    → ℕ
    → ℕ
    → Bool
    → ℕ
    → List WorkSchedule
    → Option (Option ℕ)
    → Result (Option Planned)
resolve_with db zone org_id started_at require early effective (some requested) =
    resolve_requested db zone org_id started_at require early effective requested
resolve_with db zone org_id started_at require early effective none =
    resolve_automatic require effective
      (startable_schedules zone started_at early db.rules effective)

unfoldable pub resolve_org_shift_schedule :
    Tables → Zone → ℕ → ℕ → List WorkSchedule → Option (Option ℕ) → Result (Option Planned)
resolve_org_shift_schedule db zone org_id started_at effective requested =
    let settings = settings_of db.world org_id in
    resolve_with db zone org_id started_at (requires_schedule settings) (early_start settings)
      effective requested
