-- ===== src/Manual/Disjoint.antt =====
-- The intervals of a person's shifts in an organization, under the operations of
-- src/app/services/manual_shift.py.
use smenka_back.Prelude.{
  ℕ, ◌≡◌, refl, Bool, true, false, not, ◌||◌, Option, none, some, List, [], ◌∷◌, ◌++◌, arith,
  Bool-cases, inl, inr, ◌⊎◌, In, here, ok, >>=-Ensures, >>=-eq-ok, if-Ensures, Ensures, returns,
  ensured, there, ap, sym, count,
}
use smenka_back.Shifts.{Pause, Shift}
use smenka_back.Schedules.{Zone}
use smenka_back.Schedules.Tables.{given}
use smenka_back.Schedules.Choice.{Planned}
use smenka_back.Manual.{
  State, get_member_by_user, get_manual_shift, resolve_location, resolve_manual_schedule,
}
use smenka_back.Manual.Intervals.{validate_interval, check_overlap, validate_pauses}
use smenka_back.Manual.Edits.{
  check_access, NewShift, entered, add_shift, create_manual_shift, ShiftFields, is_finishing,
  new_finished_at, same_moment, interval_changed, validate_new, check_new_interval, new_location,
  new_pauses, edited, update_manual_shift, deleted, delete_shift, restored, restore_shift,
}
use smenka_back.Manual.Clash.{
  Disjoint, one_change, first_or_rest, person_free, no_clash, found_shift, deleted_apart, Clear,
  save-Disjoint, checked-Clear,
}
use smenka_back.Shifts.Rows.{has_id}

abbrev pub Apart : State → Type 0
Apart st = Disjoint st.tables.world

added_row :
    (s' : Shift) (rows : List Shift) (a : Shift) → In a (rows ++ s' ∷ []) → (a ≡ s') ⊎ In a rows
added_row s' [] a i = elim (first_or_rest i) [ inl e ↦ inl e | inr j ↦ elim j [ ] ]
added_row s' (r ∷ rows) a i = elim (first_or_rest i) [
  | inl e ↦ inr (rw e (here rows))
  | inr j ↦ elim (added_row s' rows a j) [ inl e ↦ inl e | inr k ↦ inr (there r k) ]
]

same_moment_eq : (a b : Option ℕ) → same_moment a b ≡ true → a ≡ b
same_moment_eq none none h = refl
same_moment_eq none (some b) h = cc
same_moment_eq (some a) none h = cc
same_moment_eq (some a) (some b) h = ap some (ground arith)

unchanged :
    (s : Shift) (fields : ShiftFields)
    → interval_changed s fields ≡ false
    → (given fields.started_at s.started_at ≡ s.started_at)
      × (new_finished_at s fields ≡ s.finished_at)
unchanged s fields h = (ground arith, same_moment_eq _ _ (second_false _ _ h))
  where
    second_false : (a b : Bool) → (not a || not b) ≡ false → b ≡ true
    second_false a b h = ground arith

module _ (st : State) (x : Apart st) where
  create-Apart :
      (zone : Zone) (org_id requester : ℕ) (body : NewShift) (now shift_id : ℕ)
      → Ensures
          (λ (r : State × Shift). Apart r.0)
          (create_manual_shift st zone org_id requester body now shift_id)
  unfolding create_manual_shift
  create-Apart zone org_id requester body now shift_id =
      >>=-Ensures (check_access st.tables.billing org_id requester now) _ λ _ _.
        >>=-Ensures (get_member_by_user st.tables.billing.directory org_id body.user_id) _ λ _ _.
          >>=-Ensures (validate_interval body.started_at body.finished_at now) _ λ _ _.
            >>=-Ensures (validate_pauses body.pauses body.started_at body.finished_at) _ λ _ _.
              >>=-Ensures
                (resolve_location st.tables.billing.directory org_id body.work_location_id) _
                λ location _.
                  >>=-Ensures
                    (check_overlap st.tables.world org_id body.user_id body.started_at
                      body.finished_at none)
                    _
                    λ _ free.
                      >>=-Ensures
                        (resolve_manual_schedule st.tables zone org_id body.started_at
                          body.work_schedule_id)
                        _ λ planned _. returns _ (added location planned free)
    where
      added :
          (location : Option ℕ) (planned : Option Planned)
          → check_overlap st.tables.world org_id body.user_id body.started_at body.finished_at none
            ≡ ok tt
          → Disjoint
              (add_shift (entered shift_id org_id requester body location planned) st.tables.world)
      added location planned free =
          let s' = entered shift_id org_id requester body location planned in
          one_change st.tables.world (add_shift s' st.tables.world) s'
            (λ a i. added_row s' st.tables.world.shifts a i)
            (λ b i other. no_clash org_id body.finished_at none s' b refl refl refl (
              person_free org_id body.user_id body.started_at body.finished_at none st.tables.world
                free b i))
            x

  edited-Clear :
      (org_id : ℕ) (s : Shift) (fields : ShiftFields) (location : Option ℕ) (pauses : List Pause)
      (requester now : ℕ)
      → In s st.tables.world.shifts
      → s.organization_id ≡ some org_id
      → check_new_interval st.tables.world org_id s
          (interval_changed s fields)
          (given fields.started_at s.started_at)
          (new_finished_at s fields)
          now
        ≡ ok tt
      → Clear st.tables.world
          (edited s fields (is_finishing s fields) location pauses requester now)
  unfolding check_new_interval
  edited-Clear org_id s fields location pauses requester now i eo h =
      elim (Bool-cases (interval_changed s fields)) [
        | inl moved ↦
            let (_, _, free) = >>=-eq-ok (validate_new _ _ now) _ (rw moved at h) in
            checked-Clear st.tables.world org_id now
              (edited s fields (is_finishing s fields) location pauses requester now) eo free
        | inr still ↦
            let (e, k) = unchanged s fields still in
            λ b j other. rw (e, k) (x s b i j (λ q. other (sym q)))
      ]

  update-Apart :
      (org_id shift_id requester : ℕ) (fields : ShiftFields) (now : ℕ)
      → Ensures
          (λ (r : State × Shift). Apart r.0)
          (update_manual_shift st org_id shift_id requester fields now)
  unfolding update_manual_shift
  update-Apart org_id shift_id requester fields now =
      >>=-Ensures (check_access st.tables.billing org_id requester now) _ λ _ _.
        >>=-Ensures (get_manual_shift st.tables.world org_id shift_id false) _ λ s found.
          >>=-Ensures
            (check_new_interval st.tables.world org_id s (interval_changed s fields)
              (given fields.started_at s.started_at) (new_finished_at s fields) now)
            _
            λ _ checked.
              >>=-Ensures
                (new_location st.tables.billing.directory org_id s.work_location_id
                  fields.work_location_id)
                _
                λ location _.
                  >>=-Ensures
                    (new_pauses s fields.pauses (is_finishing s fields) (interval_changed s fields)
                      (given fields.started_at s.started_at) (new_finished_at s fields))
                    _
                    λ pauses _.
                      let (i, eo) = found_shift st.tables.world org_id shift_id false s found in
                      returns _ (
                        save-Disjoint st.tables.world
                          (edited s fields (is_finishing s fields) location pauses requester now)
                          (edited-Clear org_id s fields location pauses requester now i eo checked)
                          x)

  delete-Apart :
      (org_id shift_id requester now : ℕ)
      → Ensures (λ (r : State × Shift). Apart r.0) (delete_shift st org_id shift_id requester now)
  unfolding delete_shift
  delete-Apart org_id shift_id requester now =
      >>=-Ensures (check_access st.tables.billing org_id requester now) _ λ _ _.
        >>=-Ensures (get_manual_shift st.tables.world org_id shift_id false) _ λ s _. returns _ (
          save-Disjoint st.tables.world (deleted s requester now)
            (λ b _ _. deleted_apart (deleted s requester now) b refl) x)

  restore-Apart :
      (org_id shift_id requester now : ℕ)
      → Ensures (λ (r : State × Shift). Apart r.0) (restore_shift st org_id shift_id requester now)
  unfolding restore_shift
  restore-Apart org_id shift_id requester now =
      >>=-Ensures (check_access st.tables.billing org_id requester now) _ λ _ _.
        >>=-Ensures (get_manual_shift st.tables.world org_id shift_id true) _ λ s found.
          if-Ensures (not s.is_deleted) _ _ (λ _. returns _ x)
            (λ _.
              >>=-Ensures
                (check_overlap st.tables.world org_id s.user_id s.started_at
                  (given s.finished_at now) (some s.id))
                _
                λ _ free.
                  let (_, eo) = found_shift st.tables.world org_id shift_id true s found in
                  returns _ (
                    save-Disjoint st.tables.world (restored s)
                      (checked-Clear st.tables.world org_id now (restored s) eo free) x))

-- A step that succeeds; a failed one is rolled back. A new shift has a fresh id.
pub data Step (st : State) : State → Type 0 where
  creates :
      (zone : Zone) (org_id requester : ℕ) (body : NewShift) (now shift_id : ℕ) (st' : State)
      (s : Shift)
      → count (has_id shift_id) st.tables.world.shifts ≡ 0
      → create_manual_shift st zone org_id requester body now shift_id ≡ ok (st', s)
      → Step st st'
  updates :
      (org_id shift_id requester : ℕ) (fields : ShiftFields) (now : ℕ) (st' : State) (s : Shift)
      → update_manual_shift st org_id shift_id requester fields now ≡ ok (st', s)
      → Step st st'
  deletes :
      (org_id shift_id requester now : ℕ) (st' : State) (s : Shift)
      → delete_shift st org_id shift_id requester now ≡ ok (st', s)
      → Step st st'
  restores :
      (org_id shift_id requester now : ℕ) (st' : State) (s : Shift)
      → restore_shift st org_id shift_id requester now ≡ ok (st', s)
      → Step st st'

pub data Reach (st : State) : State → Type 0 where
  start : Reach st st
  next : {mid end : State} → Reach st mid → Step mid end → Reach st end

Step-Apart : {st st' : State} → Step st st' → Apart st → Apart st'
Step-Apart {st} (creates zone o u body now k st' s fresh e) x =
    ensured (st', s) (create-Apart st x zone o u body now k) e
Step-Apart {st} (updates o k u fields now st' s e) x =
    ensured (st', s) (update-Apart st x o k u fields now) e
Step-Apart {st} (deletes o k u now st' s e) x = ensured (st', s) (delete-Apart st x o k u now) e
Step-Apart {st} (restores o k u now st' s e) x = ensured (st', s) (restore-Apart st x o k u now) e

-- Whatever shifts an administrator enters, edits, deletes and restores, in whatever order: no two ended
-- shifts of one person in one organization that are not deleted overlap, if it was so at the start. Two of
-- them may touch.
pub Reach-Apart : {st st' : State} → Reach st st' → Apart st → Apart st'
Reach-Apart start x = x
Reach-Apart (next before step) x = Step-Apart step (Reach-Apart before x)
