-- ===== src/Schedules/Tables.antt =====
-- The operations on schedules of src/app/services/work_schedule.py, and the schedule that a shift starts
-- with: `_resolve_org_shift_schedule` of src/app/services/shift.py. The schedules that are effective for
-- a member are an argument.
use smenka_back.Prelude.{
  ℕ, Bool, true, false, not, ◌&&◌, ◌||◌, Option, none, some, List, [], ◌∷◌, ◌++◌, map, String, leb,
  ◌==◌, if◌then◌else◌, find, select, update, any, Result, ok, ◌>>=◌, ◌>>◌, raise_if, or_raise,
  validation_error, schedule_not_found, schedule_invalid_time,
}
use smenka_back.Access.{get_organization, ensure_admin_or_owner, is_some}
use smenka_back.Billing.Tables.{Db}
use smenka_back.Billing.Entitlements.{require_active_subscription}
use smenka_back.Shifts.{Shift, World}
use smenka_back.Schedules.{WorkSchedule, WeeklyRule}

-- The tables that the operations read, and the schedules, rules and shifts that they write.
pub record Tables : Type 0 where
  pub billing : Db
  pub world : World
  pub schedules : List WorkSchedule
  pub rules : List WeeklyRule

unfoldable pub check_admin : Db → ℕ → ℕ → ℕ → Result (Unit {0})
check_admin db org_id requester_id now = do
  org ← get_organization db.directory org_id
  ensure_admin_or_owner db.directory org requester_id true
  require_active_subscription db org requester_id now

unfoldable pub get_schedule : List WorkSchedule → ℕ → ℕ → Result WorkSchedule
get_schedule schedules org_id schedule_id =
    or_raise (find (λ s. s.id == schedule_id && s.organization_id == org_id) schedules)
      schedule_not_found

abbrev pub rules_of : List WeeklyRule → ℕ → List WeeklyRule
rules_of rules schedule_id = select (λ r. r.work_schedule_id == schedule_id) rules

unfoldable pub create_schedule :
    Tables → ℕ → ℕ → String → ℕ → ℕ → ℕ → ℕ → Result (Tables × WorkSchedule)
create_schedule db org_id requester_id name start_time end_time now schedule_id = do
  check_admin db.billing org_id requester_id now
  raise_if (start_time == end_time) schedule_invalid_time
  let s : WorkSchedule = record {
    id = schedule_id;
    organization_id = org_id;
    name = name;
    start_time = start_time;
    end_time = end_time;
    is_paused = false;
  }
  ok (record db { schedules = db.schedules ++ s ∷ [] }, s)

-- `none` is a field that is absent.
pub record ScheduleFields : Type 0 where
  pub name : Option String
  pub start_time : Option ℕ
  pub end_time : Option ℕ
  pub is_paused : Option Bool

abbrev pub given {ℓ} : {A : Type ℓ} → Option A → A → A
given none old = old
given (some new) old = new

unfoldable pub save_schedule : WorkSchedule → Tables → Tables
save_schedule s db = record db { schedules = update (λ r. r.id == s.id) (λ _. s) db.schedules }

abbrev pub with_fields : WorkSchedule → ScheduleFields → WorkSchedule
with_fields s fields = record s {
  name = given fields.name s.name;
  start_time = given fields.start_time s.start_time;
  end_time = given fields.end_time s.end_time;
  is_paused = given fields.is_paused s.is_paused;
}

unfoldable pub update_schedule :
    Tables → ℕ → ℕ → ℕ → ScheduleFields → ℕ → Result (Tables × WorkSchedule)
update_schedule db org_id schedule_id requester_id fields now = do
  check_admin db.billing org_id requester_id now
  s ← get_schedule db.schedules org_id schedule_id
  let s' = with_fields s fields
  raise_if (s'.start_time == s'.end_time) schedule_invalid_time
  ok (save_schedule s' db, s')

abbrev pub is_of : ℕ → Option ℕ → Bool
is_of schedule_id none = false
is_of schedule_id (some k) = k == schedule_id

-- `ON DELETE SET NULL`
abbrev pub unlinked : ℕ → Shift → Shift
unlinked schedule_id s =
    if is_of schedule_id s.work_schedule_id then record s { work_schedule_id = none } else s

-- The foreign keys of the rules and of the shifts follow.
unfoldable pub delete_schedule : Tables → ℕ → ℕ → ℕ → ℕ → Result Tables
delete_schedule db org_id schedule_id requester_id now = do
  check_admin db.billing org_id requester_id now
  s ← get_schedule db.schedules org_id schedule_id
  ok (record db {
    schedules = select (λ r. not (r.id == s.id)) db.schedules;
    rules = select (λ r. not (r.work_schedule_id == s.id)) db.rules;
    world = record (db.world) { shifts = map (unlinked s.id) db.world.shifts };
  })

-- A rule of a request; `none` is a weekday that is no integer.
pub record RuleInput : Type 0 where
  pub weekday : Option ℕ
  pub is_enabled : Bool
  pub start_time : Option ℕ
  pub end_time : Option ℕ

abbrev pub same_bool : Bool → Bool → Bool
same_bool true b = b
same_bool false b = not b

abbrev pub bad_times : Bool → Option ℕ → Option ℕ → Bool
bad_times enabled start_time end_time =
    not (same_bool enabled (is_some start_time && is_some end_time))
    || (not enabled && (is_some start_time || is_some end_time))

abbrev pub same_time : Option ℕ → Option ℕ → Bool
same_time none none = true
same_time (some a) (some b) = a == b
same_time _ _ = false

abbrev pub has_seen : List ℕ → ℕ → Bool
has_seen seen weekday = any (λ k. k == weekday) seen

abbrev pub rule_of : ℕ → ℕ → RuleInput → WeeklyRule
rule_of schedule_id weekday r = record {
  work_schedule_id = schedule_id;
  weekday = weekday;
  is_enabled = r.is_enabled;
  start_time = r.start_time;
  end_time = r.end_time;
}

-- The loop over the rules of the request.
unfoldable pub parse_rules : ℕ → List ℕ → List RuleInput → Result (List WeeklyRule)
parse_rules schedule_id seen [] = ok []
parse_rules schedule_id seen (r ∷ inputs) = do
  weekday ← or_raise r.weekday validation_error
  raise_if (has_seen seen weekday || not (leb 1 weekday && leb weekday 7)) validation_error
  raise_if (bad_times r.is_enabled r.start_time r.end_time) validation_error
  raise_if (r.is_enabled && same_time r.start_time r.end_time) validation_error
  rest ← parse_rules schedule_id (weekday ∷ seen) inputs
  ok (rule_of schedule_id weekday r ∷ rest)

unfoldable pub replace_weekly_rules :
    Tables → ℕ → ℕ → ℕ → List RuleInput → ℕ → Result (Tables × List WeeklyRule)
replace_weekly_rules db org_id schedule_id requester_id inputs now = do
  check_admin db.billing org_id requester_id now
  s ← get_schedule db.schedules org_id schedule_id
  parsed ← parse_rules schedule_id [] inputs
  let others = select (λ r. not (r.work_schedule_id == schedule_id)) db.rules
  ok (record db { rules = others ++ parsed }, parsed)
