-- ===== src/Manual.antt =====
-- Shifts that an administrator enters, edits, deletes and restores: src/app/services/manual_shift.py, over the
-- shifts (`Shifts`) and the schedules (`Schedules`). One operation reads the clock once here, and an entry of
-- the audit log or a notification is its action, the person and the shift.
pub mod Intervals
pub mod Edits
pub mod Pauses
pub mod Clash
pub mod Disjoint
pub mod Writes
pub mod Gone
pub mod Outside
pub mod Life
use smenka_back.Prelude.{
  ℕ, ◌+◌, ◌-◌, ◌*◌, Bool, true, false, not, ◌&&◌, ◌||◌, Option, none, some, List, [], ◌∷◌, ◌++◌,
  map, String, ltb, leb, ◌==◌, if◌then◌else◌, find, any, Result, ok, err, ◌>>=◌, ◌>>◌, raise_if,
  or_raise, crash, member_not_found, shift_not_found, work_location_not_found,
}
use smenka_back.Calendar.{second, minute}
use smenka_back.Access.{Directory, find_member, is_some}
use smenka_back.Shifts.{
  ShiftStatus, ShiftFinishReason, Pause, Shift, World, is_finished, is_open, close, close_all,
}
use smenka_back.Schedules.{Zone, Window, compute_scheduled_window}
use smenka_back.Schedules.Tables.{get_schedule}
use smenka_back.Schedules.Tables
use smenka_back.Schedules.Choice.{Planned, in_org}

pub data AuditAction : Type 0 where
  shift_manual_create shift_manual_update shift_delete shift_restore : AuditAction

pub record AuditLog : Type 0 where
  pub action : AuditAction
  pub organization_id : ℕ
  pub actor_user_id : ℕ
  pub resource_id : ℕ

pub data ChangeAction : Type 0 where
  created updated deleted restored : ChangeAction

pub record Notification : Type 0 where
  pub organization_id : ℕ
  pub user_id : ℕ
  pub action : ChangeAction
  pub shift_id : ℕ

-- The tables that the operations read and write.
pub record State : Type 0 where
  pub tables : Tables.Tables
  pub audit_logs : List AuditLog
  pub notifications : List Notification

abbrev pub max_shift_duration : ℕ
max_shift_duration = 48 * 60 * minute

abbrev pub clock_skew : ℕ
clock_skew = 60 * second

unfoldable pub get_member_by_user : Directory → ℕ → ℕ → Result (Unit {0})
get_member_by_user dir org_id user_id =
    raise_if (not (is_some (find_member dir org_id user_id))) member_not_found

unfoldable pub get_manual_shift : World → ℕ → ℕ → Bool → Result Shift
get_manual_shift w org_id shift_id include_deleted =
    or_raise
      (find
        (λ s.
          s.id == shift_id
          && in_org s.organization_id org_id
          && (include_deleted || not s.is_deleted))
        w.shifts)
      shift_not_found

-- A location of the organization.
unfoldable pub require_org_location : Directory → ℕ → ℕ → Result ℕ
require_org_location dir org_id work_location_id = do
  raise_if
      (not (any (λ l. l.id == work_location_id && l.organization_id == org_id) dir.work_locations))
      work_location_not_found
  ok work_location_id

abbrev pub resolve_location : Directory → ℕ → Option ℕ → Result (Option ℕ)
resolve_location dir org_id none = ok none
resolve_location dir org_id (some k) = require_org_location dir org_id k >>= λ id. ok (some id)

-- The schedule with its own hours, whatever the weekday.
unfoldable pub resolve_manual_schedule :
    Tables.Tables → Zone → ℕ → ℕ → Option ℕ → Result (Option Planned)
resolve_manual_schedule db zone org_id started_at none = ok none
resolve_manual_schedule db zone org_id started_at (some schedule_id) = do
  schedule ← get_schedule db.schedules org_id schedule_id
  ok (
      some (record {
        schedule = schedule;
        window = compute_scheduled_window zone started_at schedule.start_time schedule.end_time;
      }))

-- A pause of a request; `id` is the id that its row gets.
pub record PauseInput : Type 0 where
  pub id : ℕ
  pub started_at : ℕ
  pub finished_at : ℕ

abbrev pub pause_of : PauseInput → Pause
pause_of p = record { id = p.id; started_at = p.started_at; finished_at = some p.finished_at }

-- `ensure_utc(p.finished_at)` of a row whose `finished_at` is NULL is an exception.
abbrev pub input_of : ℕ → ℕ → Option ℕ → Result PauseInput
input_of id started_at none = err crash
input_of id started_at (some finished_at) =
    ok (record { id = id; started_at = started_at; finished_at = finished_at })

unfoldable pub inputs_of : List Pause → Result (List PauseInput)
inputs_of [] = ok []
inputs_of (p ∷ ps) = do q ← input_of p.id p.started_at p.finished_at; qs ← inputs_of ps; ok (q ∷ qs)

-- An open pause ends with the shift if it began before, and is removed else.
unfoldable pub close_or_drop : ℕ → List Pause → List Pause
close_or_drop at [] = []
close_or_drop at (p ∷ ps) =
    let rest = close_or_drop at ps in
    if is_open p then (if ltb p.started_at at then close at p ∷ rest else rest) else p ∷ rest
