-- ===== src/Manual/Edits.antt =====
-- `create_manual_shift`, `update_manual_shift`, `delete_shift` and `restore_shift` of
-- src/app/services/manual_shift.py.
use smenka_back.Prelude.{
  ℕ, Bool, true, false, not, ◌&&◌, ◌||◌, Option, none, some, List, [], ◌∷◌, ◌++◌, map, String, ◌==◌,
  if◌then◌else◌, Result, ok, err, ◌>>=◌, ◌>>◌, validation_error,
}
use smenka_back.Access.{Directory, get_organization, ensure_admin_or_owner, is_some}
use smenka_back.Billing.Tables.{Db}
use smenka_back.Billing.Entitlements.{require_active_subscription}
use smenka_back.Shifts.{
  ShiftStatus, ShiftFinishReason, Pause, Shift, World, is_finished, save_shift, close_all,
}
use smenka_back.Schedules.{Zone}
use smenka_back.Schedules.Tables.{given}
use smenka_back.Schedules.Choice.{Planned}
use smenka_back.Manual.{
  AuditAction, ChangeAction, State, get_member_by_user, get_manual_shift, resolve_location,
  resolve_manual_schedule, PauseInput, pause_of, inputs_of, close_or_drop,
}
use smenka_back.Manual.Intervals.{
  validate_started_at_not_future, validate_interval, check_overlap, validate_pauses,
  validate_started_at_against_open_pauses,
}

abbrev pub with_world : State → World → State
with_world st w = record st { tables = record (st.tables) { world = w } }

-- `audit_service.record` and `_notify_shift_changed`.
abbrev pub report : State → ℕ → ℕ → Shift → AuditAction → ChangeAction → State
report st org_id requester_id s action change = record st {
  audit_logs =
      st.audit_logs
      ++ record {
        action = action;
        organization_id = org_id;
        actor_user_id = requester_id;
        resource_id = s.id;
      }
        ∷ [];
  notifications =
      st.notifications
      ++ record { organization_id = org_id; user_id = s.user_id; action = change; shift_id = s.id }
        ∷ [];
}

unfoldable pub check_access : Db → ℕ → ℕ → ℕ → Result (Unit {0})
check_access db org_id requester_id now = do
  org ← get_organization db.directory org_id
  ensure_admin_or_owner db.directory org requester_id false
  require_active_subscription db org requester_id now

-- The body of a request to create.
pub record NewShift : Type 0 where
  pub user_id : ℕ
  pub started_at : ℕ
  pub finished_at : ℕ
  pub work_location_id : Option ℕ
  pub work_schedule_id : Option ℕ
  pub pauses : List PauseInput
  pub note : Option String

-- The columns of the schedule; `none` without one.
abbrev pub planned_id : Option Planned → Option ℕ
planned_id none = none
planned_id (some p) = some p.schedule.id

abbrev pub planned_name : Option Planned → Option String
planned_name none = none
planned_name (some p) = some p.schedule.name

abbrev pub planned_start : Option Planned → Option ℕ
planned_start none = none
planned_start (some p) = some p.window.start

abbrev pub planned_end : Option Planned → Option ℕ
planned_end none = none
planned_end (some p) = some p.window.end

abbrev pub entered : ℕ → ℕ → ℕ → NewShift → Option ℕ → Option Planned → Shift
entered shift_id org_id requester_id body location planned = record {
  id = shift_id;
  user_id = body.user_id;
  organization_id = some org_id;
  work_location_id = location;
  started_at = body.started_at;
  finished_at = some body.finished_at;
  status = ShiftStatus.finished;
  has_incomplete_required_checklists = false;
  is_deleted = false;
  work_schedule_id = planned_id planned;
  schedule_name = planned_name planned;
  scheduled_start_at = planned_start planned;
  scheduled_end_at = planned_end planned;
  finish_reason = some ShiftFinishReason.manual;
  created_by_user_id = some requester_id;
  edited_by_user_id = none;
  edited_at = none;
  deleted_by_user_id = none;
  deleted_at = none;
  manual_note = body.note;
  pauses = map pause_of body.pauses;
}

abbrev pub add_shift : Shift → World → World
add_shift s w = record w { shifts = w.shifts ++ s ∷ [] }

unfoldable pub create_manual_shift :
    State → Zone → ℕ → ℕ → NewShift → ℕ → ℕ → Result (State × Shift)
create_manual_shift st zone org_id requester_id body now shift_id = do
  check_access st.tables.billing org_id requester_id now
  get_member_by_user st.tables.billing.directory org_id body.user_id
  validate_interval body.started_at body.finished_at now
  validate_pauses body.pauses body.started_at body.finished_at
  location ← resolve_location st.tables.billing.directory org_id body.work_location_id
  check_overlap st.tables.world org_id body.user_id body.started_at body.finished_at none
  planned ← resolve_manual_schedule st.tables zone org_id body.started_at body.work_schedule_id
  let s = entered shift_id org_id requester_id body location planned
  let st' = with_world st (add_shift s st.tables.world)
  ok (report st' org_id requester_id s AuditAction.shift_manual_create ChangeAction.created, s)

-- The fields of a request to edit. `none` is a field that is absent, or null where null means the same.
pub record ShiftFields : Type 0 where
  pub started_at : Option ℕ
  pub finished_at : Option ℕ
  pub work_location_id : Option (Option ℕ)
  pub pauses : Option (List PauseInput)
  pub note : Option (Option String)

abbrev pub first_of : Option ℕ → Option ℕ → Option ℕ
first_of none old = old
first_of (some new) old = some new

abbrev pub is_finishing : Shift → ShiftFields → Bool
is_finishing s fields = not (is_finished s.status) && is_some fields.finished_at

-- An open shift without an end in the request stays open.
abbrev pub new_finished_at : Shift → ShiftFields → Option ℕ
new_finished_at s fields =
    if is_finished s.status then first_of fields.finished_at s.finished_at else fields.finished_at

abbrev pub same_moment : Option ℕ → Option ℕ → Bool
same_moment none none = true
same_moment (some a) (some b) = a == b
same_moment _ _ = false

abbrev pub interval_changed : Shift → ShiftFields → Bool
interval_changed s fields =
    not (given fields.started_at s.started_at == s.started_at)
    || not (same_moment (new_finished_at s fields) s.finished_at)

abbrev pub validate_new : ℕ → Option ℕ → ℕ → Result (Unit {0})
validate_new started_at none now = validate_started_at_not_future started_at now
validate_new started_at (some end) now = validate_interval started_at end now

unfoldable pub check_new_interval : World → ℕ → Shift → Bool → ℕ → Option ℕ → ℕ → Result (Unit {0})
check_new_interval w org_id s changed started_at finished_at now =
    if changed
    then validate_new started_at finished_at now
      >> check_overlap w org_id s.user_id started_at (given finished_at now) (some s.id)
    else ok tt

abbrev pub new_location : Directory → ℕ → Option ℕ → Option (Option ℕ) → Result (Option ℕ)
new_location dir org_id old none = ok old
new_location dir org_id old (some location) = resolve_location dir org_id location

-- The pauses of the edited shift: replaced, ended with the shift, or checked against its new interval.
unfoldable pub new_pauses :
    Shift → Option (List PauseInput) → Bool → Bool → ℕ → Option ℕ → Result (List Pause)
new_pauses s (some inputs) finishing changed started_at none = err validation_error
new_pauses s (some inputs) finishing changed started_at (some end) =
    validate_pauses inputs started_at end >> ok (map pause_of inputs)
new_pauses s none finishing changed started_at (some end) =
    if finishing
    then ok (close_or_drop end s.pauses)
    else if changed
    then (inputs_of s.pauses >>= λ inputs. validate_pauses inputs started_at end >> ok s.pauses)
    else ok s.pauses
new_pauses s none finishing changed started_at none =
    if changed
    then validate_started_at_against_open_pauses started_at s.pauses >> ok s.pauses
    else ok s.pauses

abbrev pub edited : Shift → ShiftFields → Bool → Option ℕ → List Pause → ℕ → ℕ → Shift
edited s fields finishing location pauses requester_id now = record s {
  started_at = given fields.started_at s.started_at;
  finished_at = new_finished_at s fields;
  work_location_id = location;
  pauses = pauses;
  status = if finishing then ShiftStatus.finished else s.status;
  finish_reason = if finishing then some ShiftFinishReason.manual else s.finish_reason;
  manual_note = given fields.note s.manual_note;
  edited_by_user_id = some requester_id;
  edited_at = some now;
}

unfoldable pub update_manual_shift : State → ℕ → ℕ → ℕ → ShiftFields → ℕ → Result (State × Shift)
update_manual_shift st org_id shift_id requester_id fields now = do
  check_access st.tables.billing org_id requester_id now
  s ← get_manual_shift st.tables.world org_id shift_id false
  let finishing = is_finishing s fields
  let changed = interval_changed s fields
  let started_at = given fields.started_at s.started_at
  let finished_at = new_finished_at s fields
  check_new_interval st.tables.world org_id s changed started_at finished_at now
  location ←
      new_location st.tables.billing.directory org_id s.work_location_id fields.work_location_id
  pauses ← new_pauses s fields.pauses finishing changed started_at finished_at
  let s' = edited s fields finishing location pauses requester_id now
  let st' = with_world st (save_shift s' st.tables.world)
  ok (report st' org_id requester_id s' AuditAction.shift_manual_update ChangeAction.updated, s')

-- A shift that runs is ended first.
abbrev pub ended_by_hand : Shift → ℕ → Shift
ended_by_hand s now = if is_finished s.status then s else record s {
  pauses = close_all now s.pauses;
  status = ShiftStatus.finished;
  finished_at = some now;
  finish_reason = some ShiftFinishReason.manual;
}

abbrev pub deleted : Shift → ℕ → ℕ → Shift
deleted s requester_id now = record (ended_by_hand s now) {
  is_deleted = true;
  deleted_by_user_id = some requester_id;
  deleted_at = some now;
}

unfoldable pub delete_shift : State → ℕ → ℕ → ℕ → ℕ → Result (State × Shift)
delete_shift st org_id shift_id requester_id now = do
  check_access st.tables.billing org_id requester_id now
  s ← get_manual_shift st.tables.world org_id shift_id false
  let s' = deleted s requester_id now
  let st' = with_world st (save_shift s' st.tables.world)
  ok (report st' org_id requester_id s' AuditAction.shift_delete ChangeAction.deleted, s')

abbrev pub restored : Shift → Shift
restored s = record s { is_deleted = false; deleted_by_user_id = none; deleted_at = none }

unfoldable pub restore_shift : State → ℕ → ℕ → ℕ → ℕ → Result (State × Shift)
restore_shift st org_id shift_id requester_id now = do
  check_access st.tables.billing org_id requester_id now
  s ← get_manual_shift st.tables.world org_id shift_id true
  if not s.is_deleted
      then ok (st, s)
      else check_overlap st.tables.world org_id s.user_id s.started_at (given s.finished_at now)
          (some s.id)
        >> (let s' = restored s in
            let st' = with_world st (save_shift s' st.tables.world) in
            ok (
              report st' org_id requester_id s' AuditAction.shift_restore ChangeAction.restored,
              s',
            ))
