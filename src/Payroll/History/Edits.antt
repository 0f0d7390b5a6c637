-- ===== src/Payroll/History/Edits.antt =====
-- Any sequence of the operations of src/app/services/payroll.py on the history of rates.
use smenka_back.Prelude.{
  ℕ, ◌≡◌, refl, true, not, ◌&&◌, Option, none, some, arith, ◌==◌, Bool-cases, inl, inr, ◌⊎◌, find,
  count, ok, >>=-Ensures, Ensures, returns, ensured,
}
use smenka_back.Access.{get_organization, ensure_admin_or_owner}
use smenka_back.Billing.Entitlements.{require_active_subscription}
use smenka_back.Payroll.{MemberRate}
use smenka_back.Payroll.History.{
  Tables, get_member, at_date, ensure_no_rate_at, NewRate, new_rate, create_rate, get_rate,
  RateFields, with_fields, ensure_date_free, update_rate, delete_rate,
}
use smenka_back.Payroll.History.Unique.{
  has_id, Unique, date_free, insert-Unique, remove-Unique, save-Unique,
}

create-Unique :
    (db : Tables) (org_id member_id requester : ℕ) (fields : NewRate) (now rate_id : ℕ)
    → count (has_id rate_id) db.rates ≡ 0
    → Unique db.rates
    → Ensures
        (λ (r : Tables × MemberRate). Unique r.0.rates)
        (create_rate db org_id member_id requester fields now rate_id)
unfolding create_rate
create-Unique db org_id member_id requester fields now rate_id fresh x =
    >>=-Ensures (get_organization db.billing.directory org_id) _ λ org _.
      >>=-Ensures (ensure_admin_or_owner db.billing.directory org requester true) _ λ _ _.
        >>=-Ensures (require_active_subscription db.billing org requester now) _ λ _ _.
          >>=-Ensures (get_member db.billing.directory org_id member_id) _ λ m _.
            >>=-Ensures (ensure_no_rate_at db m.id fields.effective_from none) _ λ _ free.
              returns _ (
                insert-Unique db x (new_rate rate_id m.id fields) fresh
                  (date_free db m.id fields.effective_from none free))

found_rate :
    (db : Tables) (member_id rate_id : ℕ) (r : MemberRate)
    → get_rate db member_id rate_id ≡ ok r
    → find (λ q. q.id == rate_id && q.member_id == member_id) db.rates ≡ some r
unfolding get_rate
found_rate db member_id rate_id r e = ground arith

-- A check that passes leaves the date as it is, or has it free.
moved :
    (db : Tables) (r : MemberRate) (fields : RateFields) (date : Option ℕ)
    → fields.effective_from ≡ date
    → ensure_date_free db r date ≡ ok tt
    → ((with_fields r fields).effective_from ≡ r.effective_from)
      ⊎ (count
            (λ q. at_date r.member_id (with_fields r fields).effective_from q && not (q.id == r.id))
            db.rates
          ≡ 0)
moved db r fields none e h = inl (rw e)
moved db r fields (some date) e h = elim (Bool-cases (date == r.effective_from)) [
  | inl same ↦ inl (rw e (ground arith))
  | inr other ↦
      let free : ensure_no_rate_at db r.member_id date (some r.id) ≡ ok tt = rw other at h in
      inr (rw e (date_free db r.member_id date (some r.id) free))
]

update-Unique :
    (db : Tables) (org_id member_id rate_id requester : ℕ) (fields : RateFields) (now : ℕ)
    → Unique db.rates
    → Ensures
        (λ (r : Tables × MemberRate). Unique r.0.rates)
        (update_rate db org_id member_id rate_id requester fields now)
unfolding update_rate
update-Unique db org_id member_id rate_id requester fields now x =
    >>=-Ensures (get_organization db.billing.directory org_id) _ λ org _.
      >>=-Ensures (ensure_admin_or_owner db.billing.directory org requester true) _ λ _ _.
        >>=-Ensures (require_active_subscription db.billing org requester now) _ λ _ _.
          >>=-Ensures (get_member db.billing.directory org_id member_id) _ λ m _.
            >>=-Ensures (get_rate db m.id rate_id) _ λ r found.
              >>=-Ensures (ensure_date_free db r fields.effective_from) _ λ _ free. returns _ (
                save-Unique db x (λ q. q.id == rate_id && q.member_id == m.id) r
                  (with_fields r fields) (found_rate db m.id rate_id r found) refl refl
                  (moved db r fields fields.effective_from refl free))

delete-Unique :
    (db : Tables) (org_id member_id rate_id requester now : ℕ)
    → Unique db.rates
    → Ensures
        (λ (d : Tables). Unique d.rates)
        (delete_rate db org_id member_id rate_id requester now)
unfolding delete_rate
delete-Unique db org_id member_id rate_id requester now x =
    >>=-Ensures (get_organization db.billing.directory org_id) _ λ org _.
      >>=-Ensures (ensure_admin_or_owner db.billing.directory org requester true) _ λ _ _.
        >>=-Ensures (require_active_subscription db.billing org requester now) _ λ _ _.
          >>=-Ensures (get_member db.billing.directory org_id member_id) _
            λ m _. >>=-Ensures (get_rate db m.id rate_id) _ λ r _. returns _ (remove-Unique db x r)

-- A step that succeeds; a failed one is rolled back. A new rate has a fresh id.
pub data Step (db : Tables) : Tables → Type 0 where
  creates :
      (org_id member_id requester : ℕ) (fields : NewRate) (now rate_id : ℕ) (db' : Tables)
      (r : MemberRate)
      → count (has_id rate_id) db.rates ≡ 0
      → create_rate db org_id member_id requester fields now rate_id ≡ ok (db', r)
      → Step db db'
  updates :
      (org_id member_id rate_id requester : ℕ) (fields : RateFields) (now : ℕ) (db' : Tables)
      (r : MemberRate)
      → update_rate db org_id member_id rate_id requester fields now ≡ ok (db', r)
      → Step db db'
  deletes :
      (org_id member_id rate_id requester now : ℕ) (db' : Tables)
      → delete_rate db org_id member_id rate_id requester now ≡ ok db'
      → Step db db'

pub data Reach (db : Tables) : Tables → Type 0 where
  start : Reach db db
  next : {mid end : Tables} → Reach db mid → Step mid end → Reach db end

Step-Unique : {db db' : Tables} → Step db db' → Unique db.rates → Unique db'.rates
Step-Unique {db} (creates o m u fields now k db' r fresh e) x =
    ensured (db', r) (create-Unique db o m u fields now k fresh x) e
Step-Unique {db} (updates o m k u fields now db' r e) x =
    ensured (db', r) (update-Unique db o m k u fields now x) e
Step-Unique {db} (deletes o m k u now db' e) x = ensured db' (delete-Unique db o m k u now x) e

-- Whatever rates are created, edited and deleted, in whatever order, a member never has two rates from
-- the same date, and no two rates have one id, if it was so at the start.
pub Reach-Unique : {db db' : Tables} → Reach db db' → Unique db.rates → Unique db'.rates
Reach-Unique start x = x
Reach-Unique (next before step) x = Step-Unique step (Reach-Unique before x)
