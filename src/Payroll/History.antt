-- ===== src/Payroll/History.antt =====
-- The history of rates: `create_rate`, `list_rates`, `update_rate`, `delete_rate`, `get_current_rates`
-- and `_load_rates_asc` of src/app/services/payroll.py. A request runs alone here, so its own check stands
-- for the UNIQUE constraint on (member_id, effective_from), which closes the race of two requests.
pub mod Unique
pub mod Current
pub mod Edits
use smenka_back.Prelude.{
  ℕ, Bool, true, not, ◌&&◌, Option, none, some, List, [], ◌∷◌, ◌++◌, String, leb, ltb, ◌==◌,
  if◌then◌else◌, find, select, update, Result, ok, ◌>>=◌, ◌>>◌, raise_if, or_raise, one_or_none,
  member_not_found, rate_effective_from_taken, rate_not_found,
}
use smenka_back.Access.{
  Directory, OrganizationMember, get_organization, ensure_admin_or_owner, is_some,
}
use smenka_back.Billing.Tables.{Db}
use smenka_back.Billing.Entitlements.{require_active_subscription}
use smenka_back.Payroll.{RateType, MemberRate}

-- The tables that the operations read, and the rates that they write.
pub record Tables : Type 0 where
  pub billing : Db
  pub rates : List MemberRate

unfoldable pub get_member : Directory → ℕ → ℕ → Result OrganizationMember
get_member dir org_id member_id =
    or_raise (find (λ m. m.id == member_id && m.organization_id == org_id) dir.members)
      member_not_found

-- The rates of a member from a date; `exclude_id` leaves one row out.
abbrev pub at_date : ℕ → ℕ → MemberRate → Bool
at_date member_id effective_from r = r.member_id == member_id && r.effective_from == effective_from

abbrev pub is_other : Option ℕ → MemberRate → Bool
is_other none r = true
is_other (some id) r = not (r.id == id)

unfoldable pub ensure_no_rate_at : Tables → ℕ → ℕ → Option ℕ → Result (Unit {0})
ensure_no_rate_at db member_id effective_from exclude_id = do
  taken ←
      one_or_none
        (select (λ r. at_date member_id effective_from r && is_other exclude_id r) db.rates)
  raise_if (is_some taken) rate_effective_from_taken

-- The fields of a new rate.
pub record NewRate : Type 0 where
  pub rate_amount_minor : ℕ
  pub rate_type : RateType
  pub currency : String
  pub effective_from : ℕ
  pub note : Option String

abbrev pub new_rate : ℕ → ℕ → NewRate → MemberRate
new_rate rate_id member_id fields = record {
  id = rate_id;
  member_id = member_id;
  rate_amount_minor = fields.rate_amount_minor;
  rate_type = fields.rate_type;
  currency = fields.currency;
  effective_from = fields.effective_from;
  note = fields.note;
}

abbrev pub insert_rate : MemberRate → Tables → Tables
insert_rate r db = record db { rates = db.rates ++ r ∷ [] }

unfoldable pub create_rate : Tables → ℕ → ℕ → ℕ → NewRate → ℕ → ℕ → Result (Tables × MemberRate)
create_rate db org_id member_id requester_id fields now rate_id = do
  org ← get_organization db.billing.directory org_id
  ensure_admin_or_owner db.billing.directory org requester_id true
  require_active_subscription db.billing org requester_id now
  m ← get_member db.billing.directory org_id member_id
  ensure_no_rate_at db m.id fields.effective_from none
  let r = new_rate rate_id m.id fields
  ok (insert_rate r db, r)

unfoldable pub get_rate : Tables → ℕ → ℕ → Result MemberRate
get_rate db member_id rate_id =
    or_raise (find (λ r. r.id == rate_id && r.member_id == member_id) db.rates) rate_not_found

-- The fields of a request; `none` is a field that is absent or null. Only `note` can be set to null.
pub record RateFields : Type 0 where
  pub rate_amount_minor : Option ℕ
  pub rate_type : Option RateType
  pub currency : Option String
  pub effective_from : Option ℕ
  pub note : Option (Option String)

abbrev pub value_else {ℓ} : {A : Type ℓ} → Option A → A → A
value_else none old = old
value_else (some new) old = new

abbrev pub with_fields : MemberRate → RateFields → MemberRate
with_fields r fields = record r {
  rate_amount_minor = value_else fields.rate_amount_minor r.rate_amount_minor;
  rate_type = value_else fields.rate_type r.rate_type;
  currency = value_else fields.currency r.currency;
  effective_from = value_else fields.effective_from r.effective_from;
  note = value_else fields.note r.note;
}

abbrev pub ensure_date_free : Tables → MemberRate → Option ℕ → Result (Unit {0})
ensure_date_free db r none = ok tt
ensure_date_free db r (some date) =
    if date == r.effective_from then ok tt else ensure_no_rate_at db r.member_id date (some r.id)

unfoldable pub save_rate : MemberRate → Tables → Tables
save_rate r db = record db { rates = update (λ q. q.id == r.id) (λ _. r) db.rates }

unfoldable pub update_rate : Tables → ℕ → ℕ → ℕ → ℕ → RateFields → ℕ → Result (Tables × MemberRate)
update_rate db org_id member_id rate_id requester_id fields now = do
  org ← get_organization db.billing.directory org_id
  ensure_admin_or_owner db.billing.directory org requester_id true
  require_active_subscription db.billing org requester_id now
  m ← get_member db.billing.directory org_id member_id
  r ← get_rate db m.id rate_id
  ensure_date_free db r fields.effective_from
  let r' = with_fields r fields
  ok (save_rate r' db, r')

abbrev pub remove_rate : MemberRate → Tables → Tables
remove_rate r db = record db { rates = select (λ q. not (q.id == r.id)) db.rates }

unfoldable pub delete_rate : Tables → ℕ → ℕ → ℕ → ℕ → ℕ → Result Tables
delete_rate db org_id member_id rate_id requester_id now = do
  org ← get_organization db.billing.directory org_id
  ensure_admin_or_owner db.billing.directory org requester_id true
  require_active_subscription db.billing org requester_id now
  m ← get_member db.billing.directory org_id member_id
  r ← get_rate db m.id rate_id
  ok (remove_rate r db)

-- `ORDER BY effective_from`
unfoldable pub insert_by_date : MemberRate → List MemberRate → List MemberRate
insert_by_date r [] = r ∷ []
insert_by_date r (q ∷ rest) =
    if leb r.effective_from q.effective_from then r ∷ q ∷ rest else q ∷ insert_by_date r rest

unfoldable pub order_by_date : List MemberRate → List MemberRate
order_by_date [] = []
order_by_date (r ∷ rest) = insert_by_date r (order_by_date rest)

abbrev pub rates_of : ℕ → List MemberRate → List MemberRate
rates_of member_id rates = select (λ r. r.member_id == member_id) rates

-- The entry of a member in the dict of histories.
unfoldable pub load_rates_asc : List MemberRate → ℕ → List MemberRate
unfolding insert_by_date order_by_date
load_rates_asc rates member_id = order_by_date (rates_of member_id rates)

-- The row with the latest date among those of the member that are not after the moment.
abbrev pub later_row : MemberRate → Option MemberRate → MemberRate
later_row r none = r
later_row r (some q) = if ltb r.effective_from q.effective_from then q else r

unfoldable pub latest : ℕ → List MemberRate → Option MemberRate
latest moment [] = none
latest moment (r ∷ rest) =
    let later = latest moment rest in
    if leb r.effective_from moment then some (later_row r later) else later

-- The entry of a member in the dict of current rates.
unfoldable pub current_rate : List MemberRate → ℕ → ℕ → Option MemberRate
current_rate rates member_id moment = latest moment (rates_of member_id rates)

abbrev pub add_entry : ℕ → Option MemberRate → List (ℕ × MemberRate) → List (ℕ × MemberRate)
add_entry member_id none entries = entries
add_entry member_id (some r) entries = (member_id, r) ∷ entries

-- The dict as pairs, the members that have no current rate left out.
unfoldable pub get_current_rates : List MemberRate → List ℕ → ℕ → List (ℕ × MemberRate)
get_current_rates rates [] moment = []
get_current_rates rates (k ∷ ids) moment =
    add_entry k (current_rate rates k moment) (get_current_rates rates ids moment)

-- `rates.get(member_id)`
unfoldable pub entry_of : List (ℕ × MemberRate) → ℕ → Option MemberRate
entry_of [] member_id = none
entry_of ((k, r) ∷ entries) member_id =
    if k == member_id then some r else entry_of entries member_id
