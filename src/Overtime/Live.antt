-- ===== src/Overtime/Live.antt =====
-- The pending and approved requests of a shift, in the operations of src/app/services/overtime.py.
use smenka_back.Prelude.{
  ℕ, ◌+◌, ◌*◌, ◌≤◌, ◌≡◌, refl, subst, Bool, true, not, Option, none, some, List, [], ◌∷◌, String,
  arith, ltb, ◌==◌, find, select, count, leq_trans, select-count, count-select_le, insert-one,
  count-update_le, update-keys, ok, raise_if, allowed, or_raise, one_or_none, >>=-Ensures, Ensures,
  returns, overtime_not_applicable, overtime_period_expired, overtime_already_requested,
  overtime_request_not_found, overtime_already_reviewed, validation_error,
}
use smenka_back.Calendar.{day}
use smenka_back.Access.{get_organization, ensure_admin_or_owner, is_some}
use smenka_back.Shifts.{settings_of}
use smenka_back.Billing.Entitlements.{require_active_subscription}
use smenka_back.Overtime.{
  OvertimeStatus, OvertimeRequest, Tables, is_pending, is_live_of, get_own_shift, days_of,
  overtime_base, new_request, insert_request, create_overtime_request, delete_request,
  delete_own_overtime_request, review_status, is_reviewable, reviewed, save_request,
  review_overtime_request,
}

abbrev by_id : OvertimeRequest → ℕ
by_id r = r.id

abbrev pub has_id : ℕ → OvertimeRequest → Bool
has_id k r = r.id == k

-- Ids are a primary key, and each shift has at most one live request.
pub record OneLive (db : Tables) : Type 0 where
  pub unique_ids : (k : ℕ) → count (has_id k) db.requests ≤ 1
  pub one_live : (shift_id : ℕ) → count (is_live_of shift_id) db.requests ≤ 1

none_live :
    (rows : List OvertimeRequest) (found : Option OvertimeRequest)
    → one_or_none rows ≡ ok found
    → raise_if (is_some found) overtime_already_requested ≡ ok tt
    → rows ≡ []
none_live [] found e h = refl
none_live (x ∷ []) none e h = cc
none_live (x ∷ []) (some s) e h = cc
none_live (x ∷ y ∷ rows) found e h = cc

insert-OneLive :
    (db : Tables) (r : OvertimeRequest)
    → count (has_id r.id) db.requests ≡ 0
    → count (is_live_of r.shift_id) db.requests ≡ 0
    → OneLive db
    → OneLive (insert_request r db)
insert-OneLive db r fresh idle x = record {
  unique_ids = λ k. insert-one (has_id k) r db.requests (x.unique_ids k) (λ t. fresh_at k t);
  one_live = λ k. insert-one (is_live_of k) r db.requests (x.one_live k) (λ t. idle_at k t);
}
  where
    fresh_at : (k : ℕ) → has_id k r ≡ true → count (has_id k) db.requests ≡ 0
    fresh_at k t =
        let same : r.id ≡ k = ground arith in
        subst (λ j. count (has_id j) db.requests ≡ 0) same fresh

    idle_at : (k : ℕ) → is_live_of k r ≡ true → count (is_live_of k) db.requests ≡ 0
    idle_at k t =
        let same : r.shift_id ≡ k = ground arith in
        subst (λ j. count (is_live_of j) db.requests ≡ 0) same idle

pub create-OneLive :
    (db : Tables) (shift_id user_id minutes : ℕ) (comment : String) (now request_id : ℕ)
    → count (has_id request_id) db.requests ≡ 0
    → OneLive db
    → Ensures
        (λ (r : Tables × OvertimeRequest). OneLive r.0)
        (create_overtime_request db shift_id user_id minutes comment now request_id)
unfolding create_overtime_request
create-OneLive db shift_id user_id minutes comment now request_id fresh x =
    >>=-Ensures (get_own_shift db.world shift_id user_id) _ λ s _.
      >>=-Ensures (or_raise (overtime_base s) overtime_not_applicable) _ λ base _.
        >>=-Ensures
          (raise_if (ltb (base.1 + days_of (settings_of db.world base.0) * day) now)
            overtime_period_expired)
          _
          λ _ _.
            >>=-Ensures (one_or_none (select (is_live_of shift_id) db.requests)) _
              λ existing chosen.
                >>=-Ensures (raise_if (is_some existing) overtime_already_requested) _ λ _ idle.
                  returns _ (
                    insert-OneLive db (new_request request_id shift_id minutes comment) fresh
                      (select-count (is_live_of shift_id) db.requests
                        (none_live _ existing chosen idle))
                      x)

delete-OneLive : (db : Tables) (r : OvertimeRequest) → OneLive db → OneLive (delete_request r db)
delete-OneLive db r x = record {
  unique_ids = λ k. leq_trans (count-select_le (has_id k) _ db.requests) (x.unique_ids k);
  one_live = λ k. leq_trans (count-select_le (is_live_of k) _ db.requests) (x.one_live k);
}

pub delete_own-OneLive :
    (db : Tables) (shift_id user_id : ℕ)
    → OneLive db
    → Ensures OneLive (delete_own_overtime_request db shift_id user_id)
unfolding delete_own_overtime_request
delete_own-OneLive db shift_id user_id x =
    >>=-Ensures (get_own_shift db.world shift_id user_id) _ λ s _.
      >>=-Ensures (one_or_none (select (is_live_of s.id) db.requests)) _ λ found _.
        >>=-Ensures (or_raise found overtime_request_not_found) _ λ r _.
          >>=-Ensures (raise_if (not (is_pending r.status)) overtime_already_reviewed) _
            λ _ _. returns _ (delete-OneLive db r x)

-- A pending request is live, so a review makes no new live one.
review_keeps :
    (r : OvertimeRequest) (st : OvertimeStatus) (comment : Option String) (requester now k : ℕ)
    → is_pending r.status ≡ true
    → is_live_of k (reviewed r st comment requester now) ≡ true
    → is_live_of k r ≡ true
review_keeps r st comment requester now k waiting h = ground arith

found_row :
    (found : Option OvertimeRequest) (r : OvertimeRequest)
    → or_raise found overtime_request_not_found ≡ ok r
    → found ≡ some r
found_row found r e = ground arith

save-OneLive :
    (db : Tables) (f : OvertimeRequest → Bool) (r r' : OvertimeRequest)
    → find f db.requests ≡ some r
    → r'.id ≡ r.id
    → ((k : ℕ) → is_live_of k r' ≡ true → is_live_of k r ≡ true)
    → OneLive db
    → OneLive (save_request r' db)
unfolding save_request
save-OneLive db f r r' e same keeps x = record {
  unique_ids = λ k. rw (update-keys by_id k r' db.requests) (x.unique_ids k);
  one_live = λ k.
      leq_trans
        (count-update_le by_id (is_live_of k) f r r' db.requests e same (keeps k)
          (x.unique_ids r'.id))
        (x.one_live k);
}

pub review-OneLive :
    (db : Tables) (org_id request_id requester : ℕ) (status : Option OvertimeStatus)
    (comment : Option String) (now : ℕ)
    → OneLive db
    → Ensures
        (λ (r : Tables × OvertimeRequest). OneLive r.0)
        (review_overtime_request db org_id request_id requester status comment now)
unfolding review_overtime_request
review-OneLive db org_id request_id requester status comment now x =
    >>=-Ensures (get_organization db.billing.directory org_id) _ λ org _.
      >>=-Ensures (ensure_admin_or_owner db.billing.directory org requester true) _ λ _ _.
        >>=-Ensures (require_active_subscription db.billing org requester now) _ λ _ _.
          >>=-Ensures (or_raise (review_status status) validation_error) _ λ st _.
            >>=-Ensures
              (or_raise (find (is_reviewable db.world org_id request_id) db.requests)
                overtime_request_not_found)
              _
              λ r found.
                >>=-Ensures (raise_if (not (is_pending r.status)) overtime_already_reviewed) _
                  λ _ waiting. returns _ (
                    save-OneLive db (is_reviewable db.world org_id request_id) r
                      (reviewed r st comment requester now) (found_row _ r found) refl
                      (λ k.
                        review_keeps r st comment requester now k
                          (allowed (is_pending r.status) overtime_already_reviewed waiting))
                      x)
