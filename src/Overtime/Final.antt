-- ===== src/Overtime/Final.antt =====
-- The life of the overtime requests: any sequence of the operations of src/app/services/overtime.py.
use smenka_back.Prelude.{
  ℕ, ◌+◌, ◌*◌, ◌≡◌, sym, ap, ◌∙◌, subst, Bool, true, false, not, Option, none, some, List, [], ◌∷◌,
  String, arith, ltb, ◌==◌, Bool-cases, inl, inr, find, select, count, find-In, In, here, In-append,
  In-select, In-update, select-In, same_row, ok, raise_if, allowed, or_raise, one_or_none,
  >>=-Ensures, Ensures, returns, ensured, overtime_not_applicable, overtime_period_expired,
  overtime_already_requested, overtime_request_not_found, overtime_already_reviewed,
  validation_error,
}
use smenka_back.Calendar.{day}
use smenka_back.Access.{get_organization, ensure_admin_or_owner, is_some}
use smenka_back.Shifts.{settings_of}
use smenka_back.Billing.Entitlements.{require_active_subscription}
use smenka_back.Overtime.{
  OvertimeStatus, OvertimeRequest, Tables, is_pending, is_live_of, get_own_shift, days_of,
  overtime_base, new_request, create_overtime_request, delete_own_overtime_request, review_status,
  is_reviewable, reviewed, save_request, review_overtime_request,
}
use smenka_back.Overtime.Live.{has_id, OneLive, create-OneLive, delete_own-OneLive, review-OneLive}

-- A step that succeeds; a failed one is rolled back. A new request has a fresh id.
pub data Step (db : Tables) : Tables → Type 0 where
  creates :
      (shift_id user_id minutes : ℕ) (comment : String) (now request_id : ℕ) (db' : Tables)
      (r : OvertimeRequest)
      → count (has_id request_id) db.requests ≡ 0
      → create_overtime_request db shift_id user_id minutes comment now request_id ≡ ok (db', r)
      → Step db db'
  deletes :
      (shift_id user_id : ℕ) (db' : Tables)
      → delete_own_overtime_request db shift_id user_id ≡ ok db'
      → Step db db'
  reviews :
      (org_id request_id requester : ℕ) (status : Option OvertimeStatus) (comment : Option String)
      (now : ℕ) (db' : Tables) (r : OvertimeRequest)
      → review_overtime_request db org_id request_id requester status comment now ≡ ok (db', r)
      → Step db db'

pub data Reach (db : Tables) : Tables → Type 0 where
  start : Reach db db
  next : {mid end : Tables} → Reach db mid → Step mid end → Reach db end

abbrev pub IsReviewed : OvertimeRequest → Type 0
IsReviewed q = is_pending q.status ≡ false

-- A reviewed row that is still there.
abbrev pub Keeps : Tables → OvertimeRequest → Tables → Type 0
Keeps db q db' = In q db.requests → IsReviewed q → In q db'.requests

create-Keeps :
    (db : Tables) (q : OvertimeRequest) (shift_id user_id minutes : ℕ) (comment : String)
    (now request_id : ℕ)
    → Ensures
        (λ (r : Tables × OvertimeRequest). Keeps db q r.0)
        (create_overtime_request db shift_id user_id minutes comment now request_id)
unfolding create_overtime_request
create-Keeps db q shift_id user_id minutes comment now request_id =
    >>=-Ensures (get_own_shift db.world shift_id user_id) _ λ s _.
      >>=-Ensures (or_raise (overtime_base s) overtime_not_applicable) _ λ base _.
        >>=-Ensures
          (raise_if (ltb (base.1 + days_of (settings_of db.world base.0) * day) now)
            overtime_period_expired)
          _
          λ _ _.
            >>=-Ensures (one_or_none (select (is_live_of shift_id) db.requests)) _ λ existing _.
              >>=-Ensures (raise_if (is_some existing) overtime_already_requested) _ λ _ _.
                returns _
                  (λ i _. In-append (new_request request_id shift_id minutes comment ∷ []) i)

-- A pending row has another id than a reviewed one.
other_id :
    (db : Tables) (q r : OvertimeRequest)
    → OneLive db
    → In q db.requests
    → In r db.requests
    → IsReviewed q
    → is_pending r.status ≡ true
    → (q.id == r.id) ≡ false
other_id db q r x i j done waiting = elim (Bool-cases (q.id == r.id)) [
  | inl same ↦
      let e : q.id ≡ r.id = ground arith in
      let row : q ≡ r = same_row (λ t. t.id) i j e (x.unique_ids q.id) in
      let clash : true ≡ false = sym waiting ∙ ap (λ t. is_pending t.status) (sym row) ∙ done in cc
  | inr differ ↦ differ
]

only_row :
    (rows : List OvertimeRequest) (found : Option OvertimeRequest) (r : OvertimeRequest)
    → one_or_none rows ≡ ok found
    → or_raise found overtime_request_not_found ≡ ok r
    → In r rows
only_row [] none r e h = cc
only_row [] (some s) r e h = cc
only_row (x ∷ []) none r e h = cc
only_row (x ∷ []) (some s) r e h =
    let same : x ≡ r = cc in subst (λ t. In t (x ∷ [])) same (here [])
only_row (x ∷ y ∷ rows) found r e h = cc

chosen-In :
    (f : OvertimeRequest → Bool) (rows : List OvertimeRequest) (found : Option OvertimeRequest)
    (r : OvertimeRequest)
    → one_or_none (select f rows) ≡ ok found
    → or_raise found overtime_request_not_found ≡ ok r
    → In r rows
chosen-In f rows found r e h = (select-In f rows (only_row (select f rows) found r e h)).0

delete-Keeps :
    (db : Tables) (q : OvertimeRequest) (shift_id user_id : ℕ)
    → OneLive db
    → Ensures (λ (d : Tables). Keeps db q d) (delete_own_overtime_request db shift_id user_id)
unfolding delete_own_overtime_request
delete-Keeps db q shift_id user_id x =
    >>=-Ensures (get_own_shift db.world shift_id user_id) _ λ s _.
      >>=-Ensures (one_or_none (select (is_live_of s.id) db.requests)) _ λ found chosen.
        >>=-Ensures (or_raise found overtime_request_not_found) _ λ r there_is.
          >>=-Ensures (raise_if (not (is_pending r.status)) overtime_already_reviewed) _
            λ _ waiting. returns _ (λ i done.
              In-select (λ t. not (t.id == r.id)) i
                (ap not (
                  other_id db q r x i
                    (chosen-In (is_live_of s.id) db.requests found r chosen there_is) done
                    (allowed (is_pending r.status) overtime_already_reviewed waiting))))

save-Keeps :
    (db : Tables) (q r : OvertimeRequest)
    → In q db.requests
    → (q.id == r.id) ≡ false
    → In q (save_request r db).requests
unfolding save_request
save-Keeps db q r i e = In-update (λ t. t.id == r.id) r i e

found-In :
    (f : OvertimeRequest → Bool) (rows : List OvertimeRequest) (r : OvertimeRequest)
    → or_raise (find f rows) overtime_request_not_found ≡ ok r
    → In r rows
found-In f rows r e = find-In f r rows (ground arith)

review-Keeps :
    (db : Tables) (q : OvertimeRequest) (org_id request_id requester : ℕ)
    (status : Option OvertimeStatus) (comment : Option String) (now : ℕ)
    → OneLive db
    → Ensures
        (λ (r : Tables × OvertimeRequest). Keeps db q r.0)
        (review_overtime_request db org_id request_id requester status comment now)
unfolding review_overtime_request
review-Keeps db q org_id request_id requester status comment now x =
    >>=-Ensures (get_organization db.billing.directory org_id) _ λ org _.
      >>=-Ensures (ensure_admin_or_owner db.billing.directory org requester true) _ λ _ _.
        >>=-Ensures (require_active_subscription db.billing org requester now) _ λ _ _.
          >>=-Ensures (or_raise (review_status status) validation_error) _ λ st _.
            >>=-Ensures
              (or_raise (find (is_reviewable db.world org_id request_id) db.requests)
                overtime_request_not_found)
              _
              λ r found.
                >>=-Ensures (raise_if (not (is_pending r.status)) overtime_already_reviewed) _
                  λ _ waiting. returns _ (λ i done.
                    save-Keeps db q (reviewed r st comment requester now) i (
                      other_id db q r x i
                        (found-In (is_reviewable db.world org_id request_id) db.requests r found)
                        done (allowed (is_pending r.status) overtime_already_reviewed waiting)))

Step-Keeps : (q : OvertimeRequest) {db db' : Tables} → Step db db' → OneLive db → Keeps db q db'
Step-Keeps q {db} (creates k u minutes comment now id db' r fresh e) x =
    ensured (db', r) (create-Keeps db q k u minutes comment now id) e
Step-Keeps q {db} (deletes k u db' e) x = ensured db' (delete-Keeps db q k u x) e
Step-Keeps q {db} (reviews org id u status comment now db' r e) x =
    ensured (db', r) (review-Keeps db q org id u status comment now x) e

Step-OneLive : {db db' : Tables} → Step db db' → OneLive db → OneLive db'
Step-OneLive {db} (creates k u minutes comment now id db' r fresh e) x =
    ensured (db', r) (create-OneLive db k u minutes comment now id fresh x) e
Step-OneLive {db} (deletes k u db' e) x = ensured db' (delete_own-OneLive db k u x) e
Step-OneLive {db} (reviews org id u status comment now db' r e) x =
    ensured (db', r) (review-OneLive db org id u status comment now x) e

-- Whatever requests are made, withdrawn and reviewed, in whatever order, a shift has at most one
-- request that is pending or approved, if it was so at the start and ids are unique there.
pub Reach-OneLive : {db db' : Tables} → Reach db db' → OneLive db → OneLive db'
Reach-OneLive start x = x
Reach-OneLive (next before step) x = Step-OneLive step (Reach-OneLive before x)

-- A request that is approved or rejected stays in the table as it is, through any steps.
pub Reach-Keeps :
    (q : OvertimeRequest) {db db' : Tables}
    → Reach db db'
    → OneLive db
    → In q db.requests
    → IsReviewed q
    → In q db'.requests
Reach-Keeps q start x i done = i
Reach-Keeps q (next before step) x i done =
    Step-Keeps q step (Reach-OneLive before x) (Reach-Keeps q before x i done) done
