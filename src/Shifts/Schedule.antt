-- ===== src/Shifts/Schedule.antt =====
-- The automatic ends of shifts and pauses: `_auto_finish_stale_for_user` of src/app/services/shift.py and
-- the tasks of src/app/tasks/shifts.py.
use smenka_back.Prelude.{
  ℕ, ◌+◌, ◌*◌, Bool, true, false, not, ◌&&◌, Option, none, some, List, [], ◌∷◌, map, leb, ltb, ◌==◌,
  if◌then◌else◌,
}
use smenka_back.Calendar.{minute}
use smenka_back.Access.{is_some}
use smenka_back.Shifts.{
  is_paused, is_finished, is_open, settings_of, close, ended, ShiftStatus, ShiftFinishReason, Pause,
  Shift, OrganizationSettings, World,
}

abbrev pub is_running : Shift → Bool
is_running s = not (is_finished s.status) && not s.is_deleted

-- `scheduled_end_at <= now`
abbrev pub is_past : Option ℕ → ℕ → Bool
is_past none now = false
is_past (some at) now = leb at now

abbrev pub is_stale : Shift → ℕ → Bool
is_stale s now = is_running s && is_some s.organization_id && is_past s.scheduled_end_at now

abbrev pub auto_finish_on : Option OrganizationSettings → Bool
auto_finish_on none = true
auto_finish_on (some s) = s.auto_finish_by_schedule

abbrev pub auto_finish_enabled : World → Option ℕ → Bool
auto_finish_enabled w none = false
auto_finish_enabled w (some org_id) = auto_finish_on (settings_of w org_id)

abbrev pub finish_at_schedule : Shift → Bool → Option ℕ → Shift
finish_at_schedule s incomplete none = s
finish_at_schedule s incomplete (some at) = ended s incomplete ShiftFinishReason.auto_schedule at at

-- The body of both loops that finish shifts by the schedule.
abbrev pub auto_finish : World → ℕ → (ℕ → Bool) → Shift → Shift
auto_finish w now incomplete s =
    if is_stale s now && auto_finish_enabled w s.organization_id
    then finish_at_schedule s (incomplete s.id) s.scheduled_end_at
    else s

unfoldable pub auto_finish_stale_for_user : World → ℕ → ℕ → (ℕ → Bool) → World
auto_finish_stale_for_user w user_id now incomplete = record w {
  shifts = map (λ s. if s.user_id == user_id then auto_finish w now incomplete s else s) w.shifts;
}

unfoldable pub auto_finish_stale_shifts : World → ℕ → (ℕ → Bool) → World
auto_finish_stale_shifts w now incomplete = record w {
  shifts = map (auto_finish w now incomplete) w.shifts;
}

-- Ends the first open pause that is longer than `limit`; `true` if there is one.
unfoldable pub expire_pause : ℕ → ℕ → List Pause → List Pause × Bool
expire_pause limit now [] = ([], false)
expire_pause limit now (p ∷ ps) =
    let rest = expire_pause limit now ps in
    if is_open p && ltb (p.started_at + limit) now
    then (close (p.started_at + limit) p ∷ ps, true)
    else (p ∷ rest.0, rest.1)

abbrev pub expire_limit : Option ℕ → ℕ → Shift → Shift
expire_limit none now s = s
expire_limit (some minutes) now s =
    let expired = expire_pause (minutes * minute) now s.pauses in
    record s { pauses = expired.0; status = if expired.1 then ShiftStatus.active else s.status }

abbrev pub max_pause_of : Option OrganizationSettings → Option ℕ
max_pause_of none = none
max_pause_of (some s) = s.max_pause_minutes

abbrev pub expire_in : World → ℕ → Option ℕ → Shift → Shift
expire_in w now none s = s
expire_in w now (some org_id) s = expire_limit (max_pause_of (settings_of w org_id)) now s

abbrev pub auto_finish_pause : World → ℕ → Shift → Shift
auto_finish_pause w now s =
    if is_paused s.status && not s.is_deleted then expire_in w now s.organization_id s else s

unfoldable pub auto_finish_stale_pauses : World → ℕ → World
auto_finish_stale_pauses w now = record w { shifts = map (auto_finish_pause w now) w.shifts }
