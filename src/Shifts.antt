-- ===== src/Shifts.antt =====
-- Shifts and their pauses: src/app/models/shift.py and the operations of src/app/services/shift.py on a
-- shift that runs. Times, new ids, and what the checklists answer are arguments.
pub mod Clock
pub mod Schedule
pub mod Start
pub mod Worked
pub mod Sound
pub mod Rows
pub mod Exclusive
pub mod Life
use smenka_back.Prelude.{
  ℕ, ◌+◌, ◌*◌, ◌/◌, ◌-◌, Bool, true, false, not, ◌&&◌, ◌||◌, Option, none, some, List, [], ◌∷◌,
  ◌++◌, map, String, ℤ, pos, negsuc, sub_ℕ, ◌-ℤ◌, leb, ltb, ◌==◌, if◌then◌else◌, find, select,
  update, length, Result, ok, err, ◌>>=◌, ◌>>◌, raise_if, or_raise, one_or_none, shift_not_found,
  shift_already_active, shift_not_active, shift_not_paused, shift_already_finished,
  max_pauses_reached,
}
use smenka_back.Calendar.{second, minute}
use smenka_back.Access.{is_some}

pub data ShiftStatus : Type 0 where
  active paused finished : ShiftStatus

pub data ShiftFinishReason : Type 0 where
  manual auto_schedule : ShiftFinishReason

pub record Pause : Type 0 where
  pub id : ℕ
  pub started_at : ℕ
  pub finished_at : Option ℕ

-- `pauses` is the relationship, by `started_at`. The columns of the photo are left out.
pub record Shift : Type 0 where
  pub id : ℕ
  pub user_id : ℕ
  pub organization_id : Option ℕ
  pub work_location_id : Option ℕ
  pub started_at : ℕ
  pub finished_at : Option ℕ
  pub status : ShiftStatus
  pub has_incomplete_required_checklists : Bool
  pub is_deleted : Bool
  pub work_schedule_id : Option ℕ
  pub schedule_name : Option String
  pub scheduled_start_at : Option ℕ
  pub scheduled_end_at : Option ℕ
  pub finish_reason : Option ShiftFinishReason
  pub created_by_user_id : Option ℕ
  pub edited_by_user_id : Option ℕ
  pub edited_at : Option ℕ
  pub deleted_by_user_id : Option ℕ
  pub deleted_at : Option ℕ
  pub manual_note : Option String
  pub pauses : List Pause

pub record OrganizationSettings : Type 0 where
  pub organization_id : ℕ
  pub max_pauses_per_shift : Option ℕ
  pub max_pause_minutes : Option ℕ
  pub auto_finish_by_schedule : Bool
  pub overtime_request_days : ℕ
  pub require_schedule : Bool
  pub early_start_minutes : ℕ

pub record World : Type 0 where
  pub shifts : List Shift
  pub settings : List OrganizationSettings

abbrev pub is_active : ShiftStatus → Bool
is_active ShiftStatus.active = true
is_active _ = false

abbrev pub is_paused : ShiftStatus → Bool
is_paused ShiftStatus.paused = true
is_paused _ = false

abbrev pub is_finished : ShiftStatus → Bool
is_finished ShiftStatus.finished = true
is_finished _ = false

abbrev pub is_open : Pause → Bool
is_open p = not (is_some p.finished_at)

-- A shift of the user with this id that is not deleted.
unfoldable pub get_shift_with_pauses : World → ℕ → ℕ → Result Shift
get_shift_with_pauses w shift_id user_id =
    or_raise (find (λ s. s.id == shift_id && s.user_id == user_id && not s.is_deleted) w.shifts)
      shift_not_found

unfoldable pub save_shift : Shift → World → World
save_shift s w = record w { shifts = update (λ r. r.id == s.id) (λ _. s) w.shifts }

unfoldable pub settings_of : World → ℕ → Option OrganizationSettings
settings_of w org_id = find (λ s. s.organization_id == org_id) w.settings

abbrev pub at_limit : Option ℕ → ℕ → Bool
at_limit none pauses = false
at_limit (some limit) pauses = leb limit pauses

abbrev pub limit_of : Option OrganizationSettings → Option ℕ
limit_of none = none
limit_of (some s) = s.max_pauses_per_shift

abbrev pub pause_limit : World → Option ℕ → Option ℕ
pause_limit w none = none
pause_limit w (some org_id) = limit_of (settings_of w org_id)

abbrev pub add_pause : Shift → ℕ → ℕ → Shift
add_pause s pause_id now = record s {
  status = ShiftStatus.paused;
  pauses = s.pauses ++ record { id = pause_id; started_at = now; finished_at = none } ∷ [];
}

unfoldable pub pause_shift : World → ℕ → ℕ → ℕ → ℕ → Result (World × Shift)
pause_shift w shift_id user_id pause_id now = do
  s ← get_shift_with_pauses w shift_id user_id
  raise_if (not (is_active s.status)) shift_not_active
  raise_if (at_limit (pause_limit w s.organization_id) (length s.pauses)) max_pauses_reached
  let s' = add_pause s pause_id now
  ok (save_shift s' w, s')

abbrev pub close : ℕ → Pause → Pause
close at p = record p { finished_at = some at }

-- Ends the first pause that is not ended.
unfoldable pub close_first : ℕ → List Pause → List Pause
close_first now [] = []
close_first now (p ∷ ps) = if is_open p then close now p ∷ ps else p ∷ close_first now ps

-- Ends every pause that is not ended.
unfoldable pub close_all : ℕ → List Pause → List Pause
close_all at [] = []
close_all at (p ∷ ps) = (if is_open p then close at p else p) ∷ close_all at ps

abbrev pub resumed : Shift → ℕ → Shift
resumed s now = record s { status = ShiftStatus.active; pauses = close_first now s.pauses }

unfoldable pub resume_shift : World → ℕ → ℕ → ℕ → Result (World × Shift)
resume_shift w shift_id user_id now = do
  s ← get_shift_with_pauses w shift_id user_id
  raise_if (not (is_paused s.status)) shift_not_paused
  let s' = resumed s now
  ok (save_shift s' w, s')

abbrev pub ended : Shift → Bool → ShiftFinishReason → ℕ → ℕ → Shift
ended s incomplete reason pauses_at at = record s {
  has_incomplete_required_checklists = incomplete;
  pauses = close_all pauses_at s.pauses;
  status = ShiftStatus.finished;
  finished_at = some at;
  finish_reason = some reason;
}

-- The clock is read once for the pauses, and again for the shift.
unfoldable pub finish_shift : World → ℕ → ℕ → Bool → ℕ → ℕ → Result (World × Shift)
finish_shift w shift_id user_id incomplete pauses_at now = do
  s ← get_shift_with_pauses w shift_id user_id
  raise_if (is_finished s.status) shift_already_finished
  let s' = ended s incomplete ShiftFinishReason.manual pauses_at now
  ok (save_shift s' w, s')
