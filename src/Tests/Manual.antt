-- ===== src/Tests/Manual.antt =====
-- Shifts that an administrator enters and edits, at concrete inputs.
use smenka_back.Prelude.{
  ◌*◌, ◌-◌, ◌/◌, ◌≡◌, refl, false, none, some, [], ◌∷◌, ok, here, there, arith, true,
}
use smenka_back.Calendar.{second, minute, day, calendar}
use smenka_back.Access.{find_member, get_organization, ensure_admin_or_owner}
use smenka_back.Billing.Entitlements.{entitlements}
use smenka_back.Shifts.{Pause, Shift, save_shift}
use smenka_back.Shifts.Clock.{calculate_worked_seconds}
use smenka_back.Shifts.Rows.{Exclusive}
use smenka_back.Schedules.Steady.{east_of}
use smenka_back.Manual.{
  AuditAction, ChangeAction, State, get_member_by_user, get_manual_shift, resolve_manual_schedule,
  close_or_drop,
}
use smenka_back.Manual.Intervals.{
  validate_started_at_not_future, validate_interval, check_overlap, insert_pause, sort_pauses,
  check_pauses, validate_pauses,
}
use smenka_back.Manual.Edits.{
  with_world, report, check_access, NewShift, entered, add_shift, create_manual_shift, ShiftFields,
  check_new_interval, new_pauses, edited, update_manual_shift,
}
use smenka_back.Manual.Disjoint.{Apart, creates, start, next, Reach-Apart}
use smenka_back.Manual.Pauses.{Entered, create_manual_shift-Entered}
use smenka_back.Manual.Life.{Fine, by_hand, start as begin, next as then_step, Reach-Fine}
use smenka_back.Manual.Outside.{EndsBefore, update_manual_shift-undercounts}
use smenka_back.Tests.Shifts.{at_work, running, rested}
use smenka_back.Tests.Schedules.{office}

-- One finished shift of the employee.
abbrev closed : State
closed = record {
  tables = record office { world = record at_work { shifts = rested ∷ [] } };
  audit_logs = [];
  notifications = [];
}

-- The next day from 8 to 16 o'clock, with half an hour off.
abbrev body : NewShift
body = record {
  user_id = 11;
  started_at = 1920 * minute;
  finished_at = 2400 * minute;
  work_location_id = none;
  work_schedule_id = none;
  pauses = record { id = 8; started_at = 2000 * minute; finished_at = 2030 * minute } ∷ [];
  note = none;
}

abbrev missed : Shift
missed = entered 2 1 10 body none none

abbrev after : State
after =
    report (with_world closed (add_shift missed closed.tables.world)) 1 10 missed
      AuditAction.shift_manual_create ChangeAction.created

unfoldable run : Unit {0}
unfolding calendar entitlements find_member get_organization ensure_admin_or_owner save_shift
    get_member_by_user get_manual_shift resolve_manual_schedule close_or_drop
    validate_started_at_not_future validate_interval check_overlap insert_pause sort_pauses
    check_pauses validate_pauses check_access create_manual_shift check_new_interval new_pauses
    update_manual_shift
run = tt

create_runs : create_manual_shift closed (east_of 0) 1 10 body (5 * day) 2 ≡ ok (after, missed)
unfolding run
create_runs = refl

create_manual_shift-Entered_example : Entered body (5 * day) missed
create_manual_shift-Entered_example =
    create_manual_shift-Entered closed (east_of 0) 1 10 body (5 * day) 2 after missed create_runs

one_row : Apart closed
one_row a b (here _) (here _) other = absurd (other refl)
one_row a b (here _) (there _ none_left) other = elim none_left [ ]
one_row a b (there _ none_left) _ other = elim none_left [ ]

Reach-Apart_example : Apart after
Reach-Apart_example =
    Reach-Apart
      (next start (creates (east_of 0) 1 10 body (5 * day) 2 after missed refl create_runs)) one_row

closed-Exclusive : Exclusive closed.tables.world
closed-Exclusive = record { unique_ids = λ k. ground arith; one_running = λ u o. ground arith }

closed-Fine : Fine closed.tables.world
closed-Fine = (((refl, refl), tt), closed-Exclusive, ((λ _. refl), tt))

Reach-Fine_example : Fine after.tables.world
Reach-Fine_example =
    Reach-Fine
      (then_step begin
        (by_hand (creates (east_of 0) 1 10 body (5 * day) 2 after missed refl create_runs)))
      closed-Fine

abbrev tea : Pause
tea = record { id = 3; started_at = 600 * minute; finished_at = some (630 * minute) }

-- A running shift that had a pause from 10:00 to 10:30.
abbrev resumed : Shift
resumed = record running { pauses = tea ∷ [] }

abbrev open_state : State
open_state = record closed {
  tables = record office { world = record at_work { shifts = resumed ∷ [] } };
}

-- It is ended at 9 o'clock.
abbrev early_end : ShiftFields
early_end = record {
  started_at = none;
  finished_at = some (540 * minute);
  work_location_id = none;
  pauses = none;
  note = none;
}

abbrev cut : Shift
cut = edited resumed early_end true none (tea ∷ []) 10 (5 * day)

abbrev cut_state : State
cut_state =
    report (with_world open_state (record at_work { shifts = cut ∷ [] })) 1 10 cut
      AuditAction.shift_manual_update ChangeAction.updated

update_runs : update_manual_shift open_state 1 1 10 early_end (5 * day) ≡ ok (cut_state, cut)
unfolding run
update_runs = refl

resumed_found : get_manual_shift open_state.tables.world 1 1 false ≡ ok resumed
unfolding run
resumed_found = refl

resumed-EndsBefore : EndsBefore resumed tea early_end (540 * minute) (600 * minute) (630 * minute)
resumed-EndsBefore = record {
  running = refl;
  only = refl;
  began = refl;
  ended = refl;
  no_start = refl;
  no_pauses = refl;
  new_end = refl;
  ordered = (omega arith, omega arith, omega arith);
}

-- An hour of work, of which half an hour is taken off for the pause after it.
update_manual_shift-undercounts_example :
    calculate_worked_seconds cut day
    ≡ (540 * minute - 480 * minute - (630 * minute - 600 * minute)) / second
update_manual_shift-undercounts_example =
    update_manual_shift-undercounts open_state 1 1 10 early_end (5 * day) day resumed tea
      (540 * minute) (600 * minute) (630 * minute) cut_state cut resumed_found resumed-EndsBefore
      update_runs
