-- ===== src/Overtime.antt =====
-- Requests to count overtime: src/app/services/overtime.py and src/app/models/shift_overtime_request.py,
-- over the shifts (`Shifts`) and the billing tables (`Billing`).
pub mod Live
pub mod Final
use smenka_back.Prelude.{
  ℕ, ◌+◌, ◌*◌, Bool, true, false, not, ◌&&◌, Option, none, some, List, [], ◌∷◌, ◌++◌, String, ltb,
  leb, ◌==◌, if◌then◌else◌, find, select, update, any, Result, ok, err, ◌>>=◌, ◌>>◌, raise_if,
  or_raise, one_or_none, shift_not_found, overtime_not_applicable, overtime_period_expired,
  overtime_already_requested, overtime_request_not_found, overtime_already_reviewed,
  validation_error,
}
use smenka_back.Calendar.{day}
use smenka_back.Access.{Directory, Organization, get_organization, ensure_admin_or_owner, is_some}
use smenka_back.Shifts.{Shift, World, OrganizationSettings, is_finished, settings_of}
use smenka_back.Billing.Tables.{Db}
use smenka_back.Billing.Entitlements.{require_active_subscription}

abbrev pub default_overtime_request_days : ℕ
default_overtime_request_days = 7

pub data OvertimeStatus : Type 0 where
  pending approved rejected : OvertimeStatus

pub record OvertimeRequest : Type 0 where
  pub id : ℕ
  pub shift_id : ℕ
  pub minutes : ℕ
  pub comment : String
  pub status : OvertimeStatus
  pub reviewed_by_user_id : Option ℕ
  pub reviewed_at : Option ℕ
  pub review_comment : Option String

-- The tables that the service reads, and the requests that it writes.
pub record Tables : Type 0 where
  pub billing : Db
  pub world : World
  pub requests : List OvertimeRequest

abbrev pub is_pending : OvertimeStatus → Bool
is_pending OvertimeStatus.pending = true
is_pending _ = false

abbrev pub is_approved : OvertimeStatus → Bool
is_approved OvertimeStatus.approved = true
is_approved _ = false

abbrev pub is_live : OvertimeStatus → Bool
is_live OvertimeStatus.pending = true
is_live OvertimeStatus.approved = true
is_live OvertimeStatus.rejected = false

abbrev pub is_live_of : ℕ → OvertimeRequest → Bool
is_live_of shift_id r = r.shift_id == shift_id && is_live r.status

unfoldable pub get_own_shift : World → ℕ → ℕ → Result Shift
get_own_shift w shift_id user_id =
    or_raise (find (λ s. s.id == shift_id && s.user_id == user_id && not s.is_deleted) w.shifts)
      shift_not_found

abbrev pub days_of : Option OrganizationSettings → ℕ
days_of none = default_overtime_request_days
days_of (some s) = s.overtime_request_days

-- The organization and the end of a finished shift that did not go past its plan.
abbrev pub ended_in_plan : Bool → Option ℕ → Option ℕ → Option ℕ → Option (ℕ × ℕ)
ended_in_plan true (some org_id) (some planned) (some finished) =
    if ltb planned finished then none else some (org_id, finished)
ended_in_plan _ _ _ _ = none

abbrev pub overtime_base : Shift → Option (ℕ × ℕ)
overtime_base s =
    ended_in_plan (is_finished s.status) s.organization_id s.scheduled_end_at s.finished_at

abbrev pub new_request : ℕ → ℕ → ℕ → String → OvertimeRequest
new_request request_id shift_id minutes comment = record {
  id = request_id;
  shift_id = shift_id;
  minutes = minutes;
  comment = comment;
  status = OvertimeStatus.pending;
  reviewed_by_user_id = none;
  reviewed_at = none;
  review_comment = none;
}

abbrev pub insert_request : OvertimeRequest → Tables → Tables
insert_request r db = record db { requests = db.requests ++ r ∷ [] }

unfoldable pub create_overtime_request :
    Tables → ℕ → ℕ → ℕ → String → ℕ → ℕ → Result (Tables × OvertimeRequest)
create_overtime_request db shift_id user_id minutes comment now request_id = do
  s ← get_own_shift db.world shift_id user_id
  base ← or_raise (overtime_base s) overtime_not_applicable
  raise_if (ltb (base.1 + days_of (settings_of db.world base.0) * day) now) overtime_period_expired
  existing ← one_or_none (select (is_live_of shift_id) db.requests)
  raise_if (is_some existing) overtime_already_requested
  let r = new_request request_id shift_id minutes comment
  ok (insert_request r db, r)

abbrev pub delete_request : OvertimeRequest → Tables → Tables
delete_request r db = record db { requests = select (λ q. not (q.id == r.id)) db.requests }

unfoldable pub delete_own_overtime_request : Tables → ℕ → ℕ → Result Tables
delete_own_overtime_request db shift_id user_id = do
  s ← get_own_shift db.world shift_id user_id
  found ← one_or_none (select (is_live_of s.id) db.requests)
  r ← or_raise found overtime_request_not_found
  raise_if (not (is_pending r.status)) overtime_already_reviewed
  ok (delete_request r db)

-- `approved` and `rejected`; `none` is any other text.
abbrev pub review_status : Option OvertimeStatus → Option OvertimeStatus
review_status (some OvertimeStatus.approved) = some OvertimeStatus.approved
review_status (some OvertimeStatus.rejected) = some OvertimeStatus.rejected
review_status _ = none

abbrev pub in_org : Option ℕ → ℕ → Bool
in_org none org_id = false
in_org (some k) org_id = k == org_id

-- The join with the shifts of the organization that are not deleted.
abbrev pub is_reviewable : World → ℕ → ℕ → OvertimeRequest → Bool
is_reviewable w org_id request_id r =
    r.id == request_id
    && any (λ s. s.id == r.shift_id && in_org s.organization_id org_id && not s.is_deleted) w.shifts

abbrev pub reviewed : OvertimeRequest → OvertimeStatus → Option String → ℕ → ℕ → OvertimeRequest
reviewed r status comment requester_id now = record r {
  status = status;
  review_comment = comment;
  reviewed_by_user_id = some requester_id;
  reviewed_at = some now;
}

unfoldable pub save_request : OvertimeRequest → Tables → Tables
save_request r db = record db { requests = update (λ q. q.id == r.id) (λ _. r) db.requests }

unfoldable pub review_overtime_request :
    Tables
    → ℕ
    → ℕ
    → ℕ
    → Option OvertimeStatus
    → Option String
    → ℕ
    → Result (Tables × OvertimeRequest)
review_overtime_request db org_id request_id requester_id status comment now = do
  org ← get_organization db.billing.directory org_id
  ensure_admin_or_owner db.billing.directory org requester_id true
  require_active_subscription db.billing org requester_id now
  new_status ← or_raise (review_status status) validation_error
  r ←
      or_raise (find (is_reviewable db.world org_id request_id) db.requests)
        overtime_request_not_found
  raise_if (not (is_pending r.status)) overtime_already_reviewed
  let r' = reviewed r new_status comment requester_id now
  ok (save_request r' db, r')

-- `get_approved_overtime_minutes_by_shift`: the pairs of which the dict is made.
unfoldable pub approved_minutes : (ℕ → Bool) → List OvertimeRequest → List (ℕ × ℕ)
approved_minutes wanted [] = []
approved_minutes wanted (r ∷ rest) =
    let later = approved_minutes wanted rest in
    if wanted r.shift_id && is_approved r.status then (r.shift_id, r.minutes) ∷ later else later
