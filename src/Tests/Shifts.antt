-- ===== src/Tests/Shifts.antt =====
-- Shifts and overtime requests at concrete inputs.
use smenka_back.Prelude.{
  ◌*◌, ◌-◌, ◌/◌, ◌≡◌, refl, true, false, none, some, [], ◌∷◌, ok, arith, In, here,
}
use smenka_back.Calendar.{second, minute, day}
use smenka_back.Shifts.{
  ShiftStatus, Pause, Shift, World, get_shift_with_pauses, save_shift, settings_of, add_pause,
  pause_shift,
}
use smenka_back.Shifts.Clock.{calculate_worked_seconds}
use smenka_back.Shifts.Schedule.{finish_at_schedule}
use smenka_back.Shifts.Worked.{calculate_worked_seconds-paused, finish_at_schedule-overcounts}
use smenka_back.Overtime.{
  OvertimeStatus, OvertimeRequest, Tables, get_own_shift, new_request, insert_request,
  create_overtime_request, reviewed,
}
use smenka_back.Overtime.Live.{OneLive}
use smenka_back.Overtime.Final.{
  creates, Reach as OvertimeReach, start as begin, next as then_step, Reach-OneLive, Reach-Keeps,
}
use smenka_back.Tests.Fixtures.{db}

-- A shift of the shop that runs from 8 to at most 16 o'clock by its plan.
abbrev pub running : Shift
running = record {
  id = 1;
  user_id = 11;
  organization_id = some 1;
  work_location_id = none;
  started_at = 480 * minute;
  finished_at = none;
  status = ShiftStatus.active;
  has_incomplete_required_checklists = false;
  is_deleted = false;
  work_schedule_id = none;
  schedule_name = none;
  scheduled_start_at = some (480 * minute);
  scheduled_end_at = some (960 * minute);
  finish_reason = none;
  created_by_user_id = none;
  edited_by_user_id = none;
  edited_at = none;
  deleted_by_user_id = none;
  deleted_at = none;
  manual_note = none;
  pauses = [];
}

abbrev pub at_work : World
at_work = record {
  shifts = running ∷ [];
  settings =
      record {
        organization_id = 1;
        max_pauses_per_shift = some 1;
        max_pause_minutes = some 30;
        auto_finish_by_schedule = true;
        overtime_request_days = 7;
        require_schedule = true;
        early_start_minutes = 15;
      }
      ∷ [];
}

abbrev on_break : Shift
on_break = add_pause running 3 (600 * minute)

unfoldable run : Unit {0}
unfolding get_shift_with_pauses save_shift settings_of pause_shift get_own_shift
    create_overtime_request
run = tt

calculate_worked_seconds-paused_example :
    calculate_worked_seconds on_break (610 * minute)
    ≡ calculate_worked_seconds on_break (700 * minute)
calculate_worked_seconds-paused_example =
    calculate_worked_seconds-paused on_break (610 * minute) (700 * minute) refl refl

abbrev pub rested : Shift
rested = record running {
  finished_at = some (900 * minute);
  status = ShiftStatus.finished;
  pauses = record { id = 3; started_at = 600 * minute; finished_at = some (630 * minute) } ∷ [];
}

-- A pause that begins at 16:01, a minute after the planned end.
abbrev late_break : Pause
late_break = record { id = 4; started_at = 961 * minute; finished_at = none }

finish_at_schedule-overcounts_example :
    calculate_worked_seconds
      (finish_at_schedule
        (record running { status = ShiftStatus.paused; pauses = late_break ∷ [] })
        false
        (some (960 * minute)))
      day
    ≡ (961 * minute - 480 * minute) / second
finish_at_schedule-overcounts_example =
    finish_at_schedule-overcounts
      (record running { status = ShiftStatus.paused; pauses = late_break ∷ [] }) late_break false
      (960 * minute) day refl refl (omega arith) (omega arith)

-- The day's shift ended an hour early, and a request was turned down.
abbrev refused : OvertimeRequest
refused = reviewed (new_request 30 1 45 "stayed") OvertimeStatus.rejected none 10 (950 * minute)

abbrev office : Tables
office = record {
  billing = db;
  world = record at_work { shifts = rested ∷ [] };
  requests = refused ∷ [];
}

request_runs :
    create_overtime_request office 1 11 20 "again" (960 * minute) 31
    ≡ ok (insert_request (new_request 31 1 20 "again") office, new_request 31 1 20 "again")
unfolding run
request_runs = refl

office-OneLive : OneLive office
office-OneLive = record { unique_ids = λ k. ground arith; one_live = λ k. ground arith }

asking : OvertimeReach office (insert_request (new_request 31 1 20 "again") office)
asking = then_step begin (
    creates 1 11 20 "again" (960 * minute) 31 (insert_request (new_request 31 1 20 "again") office)
      (new_request 31 1 20 "again") refl request_runs)

Reach-OneLive_example : OneLive (insert_request (new_request 31 1 20 "again") office)
Reach-OneLive_example = Reach-OneLive asking office-OneLive

Reach-Keeps_example : In refused (insert_request (new_request 31 1 20 "again") office).requests
Reach-Keeps_example = Reach-Keeps refused asking office-OneLive (here []) refl
