-- ===== src/Shifts/Start.antt =====
-- `start_shift` of src/app/services/shift.py.
use smenka_back.Prelude.{
  ℕ, Bool, true, false, ◌&&◌, Option, none, some, [], String, ◌∷◌, ◌++◌, ◌==◌, select, Result, ok,
  ◌>>=◌, ◌>>◌, raise_if, one_or_none, shift_already_active,
}
use smenka_back.Access.{is_some}
use smenka_back.Shifts.{ShiftStatus, Shift, World}
use smenka_back.Shifts.Schedule.{is_running, auto_finish_stale_for_user}

abbrev pub same_context : Option ℕ → Option ℕ → Bool
same_context none none = true
same_context (some a) (some b) = a == b
same_context _ _ = false

-- The running shifts of a user in an organization, or the personal ones.
abbrev pub is_running_of : ℕ → Option ℕ → Shift → Bool
is_running_of user_id org s =
    s.user_id == user_id && is_running s && same_context s.organization_id org

-- The location and the window of the schedule that a new shift gets.
pub record Window : Type 0 where
  pub work_location_id : Option ℕ
  pub work_schedule_id : Option ℕ
  pub schedule_name : Option String
  pub scheduled_start_at : Option ℕ
  pub scheduled_end_at : Option ℕ

abbrev pub new_shift : ℕ → ℕ → Option ℕ → Window → ℕ → Shift
new_shift shift_id user_id org window now = record {
  id = shift_id;
  user_id = user_id;
  organization_id = org;
  work_location_id = window.work_location_id;
  started_at = now;
  finished_at = none;
  status = ShiftStatus.active;
  has_incomplete_required_checklists = false;
  is_deleted = false;
  work_schedule_id = window.work_schedule_id;
  schedule_name = window.schedule_name;
  scheduled_start_at = window.scheduled_start_at;
  scheduled_end_at = window.scheduled_end_at;
  finish_reason = none;
  created_by_user_id = none;
  edited_by_user_id = none;
  edited_at = none;
  deleted_by_user_id = none;
  deleted_at = none;
  manual_note = none;
  pauses = [];
}

-- `resolved` is the answer of the checks of the location and of the schedule.
unfoldable pub start_shift :
    World → ℕ → Option ℕ → Result Window → (ℕ → Bool) → ℕ → ℕ → ℕ → Result (World × Shift)
start_shift w user_id org resolved incomplete stale_now now shift_id = do
  let swept = auto_finish_stale_for_user w user_id stale_now incomplete
  existing ← one_or_none (select (is_running_of user_id org) swept.shifts)
  raise_if (is_some existing) shift_already_active
  window ← resolved
  let s = new_shift shift_id user_id org window now
  ok (record swept { shifts = swept.shifts ++ s ∷ [] }, s)
