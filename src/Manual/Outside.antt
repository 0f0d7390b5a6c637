-- ===== src/Manual/Outside.antt =====
-- What `update_manual_shift` of src/app/services/manual_shift.py makes of a pause after the new end of a shift.
use smenka_back.Prelude.{
  ℕ, ◌-◌, ◌/◌, ◌≤◌, ◌≡◌, refl, sym, Bool, false, Option, none, some, List, [], ◌∷◌, sub_ℕ, ◌-ℤ◌,
  arith, ok, ok-injective, >>=-Ensures, Ensures, returns, ensured,
}
use smenka_back.Calendar.{second}
use smenka_back.Shifts.{Pause, Shift, is_finished, is_open}
use smenka_back.Shifts.Clock.{minus_pauses, whole_seconds, calculate_worked_seconds}
use smenka_back.Schedules.Tables.{given}
use smenka_back.Manual.{State, get_manual_shift, close_or_drop}
use smenka_back.Manual.Edits.{
  check_access, ShiftFields, is_finishing, new_finished_at, interval_changed, check_new_interval,
  new_location, new_pauses, edited, update_manual_shift,
}

-- A running shift whose only pause is over, and an edit that gives an end before that pause, and nothing
-- else of its times.
pub record EndsBefore (s : Shift) (p : Pause) (fields : ShiftFields) (end from until : ℕ)
    : Type 0 where
  pub running : is_finished s.status ≡ false
  pub only : s.pauses ≡ p ∷ []
  pub began : p.started_at ≡ from
  pub ended : p.finished_at ≡ some until
  pub no_start : fields.started_at ≡ none
  pub no_pauses : fields.pauses ≡ none
  pub new_end : fields.finished_at ≡ some end
  pub ordered : (s.started_at ≤ end) × (end ≤ from) × (from ≤ until)

outside_time :
    (start end from until : ℕ)
    → start ≤ end
    → from ≤ until
    → whole_seconds (sub_ℕ end start -ℤ sub_ℕ until from) ≡ (end - start - (until - from)) / second
unfolding ◌-ℤ◌
outside_time start end from until h k = ground arith

kept_pauses :
    (s : Shift) (p : Pause) (fields : ShiftFields) (end from until : ℕ) (changed : Bool)
    (started_at : ℕ) (pauses : List Pause)
    → EndsBefore s p fields end from until
    → new_pauses s fields.pauses
        (is_finishing s fields)
        changed
        started_at
        (new_finished_at s fields)
      ≡ ok pauses
    → pauses ≡ p ∷ []
unfolding new_pauses close_or_drop
kept_pauses s p fields end from until changed started_at pauses x e =
    let closed : is_open p ≡ false = rw x.ended refl in
    let k : ok (p ∷ []) ≡ ok pauses = rw (x.no_pauses, x.running, x.new_end, x.only, closed) at e in
    sym (ok-injective (p ∷ []) pauses k)

outside_worked :
    (s : Shift) (p : Pause) (fields : ShiftFields) (end from until : ℕ) (location : Option ℕ)
    (pauses : List Pause) (requester now later : ℕ)
    → EndsBefore s p fields end from until
    → pauses ≡ p ∷ []
    → calculate_worked_seconds
        (edited s fields (is_finishing s fields) location pauses requester now)
        later
      ≡ (end - s.started_at - (until - from)) / second
unfolding calculate_worked_seconds minus_pauses
outside_worked s p fields end from until location pauses requester now later x e =
    rw (x.no_start, x.running, x.new_end, e, x.ended, x.began)
      (outside_time s.started_at end from until x.ordered.0 x.ordered.2)

undercount :
    (st : State) (org_id shift_id requester : ℕ) (fields : ShiftFields) (now later : ℕ) (s : Shift)
    (p : Pause) (end from until : ℕ)
    → get_manual_shift st.tables.world org_id shift_id false ≡ ok s
    → EndsBefore s p fields end from until
    → Ensures
        (λ (r : State × Shift).
          calculate_worked_seconds r.1 later ≡ (end - s.started_at - (until - from)) / second)
        (update_manual_shift st org_id shift_id requester fields now)
unfolding update_manual_shift
undercount st org_id shift_id requester fields now later s p end from until read x =
    >>=-Ensures (check_access st.tables.billing org_id requester now) _ λ _ _. rw read (
      >>=-Ensures
        (check_new_interval st.tables.world org_id s (interval_changed s fields)
          (given fields.started_at s.started_at) (new_finished_at s fields) now)
        _
        λ _ _.
          >>=-Ensures
            (new_location st.tables.billing.directory org_id s.work_location_id
              fields.work_location_id)
            _
            λ location _.
              >>=-Ensures
                (new_pauses s fields.pauses (is_finishing s fields) (interval_changed s fields)
                  (given fields.started_at s.started_at) (new_finished_at s fields))
                _
                λ pauses e. returns _ (
                  outside_worked s p fields end from until location pauses requester now later x (
                    kept_pauses s p fields end from until (interval_changed s fields)
                      (given fields.started_at s.started_at) pauses x e)))

-- An edit that ends a running shift before its only pause, which is over, takes the pause off the worked time
-- although it lies outside the shift: the worked seconds are those of the shift less those of the pause.
pub update_manual_shift-undercounts :
    (st : State) (org_id shift_id requester : ℕ) (fields : ShiftFields) (now later : ℕ) (s : Shift)
    (p : Pause) (end from until : ℕ) (st' : State) (s' : Shift)
    → get_manual_shift st.tables.world org_id shift_id false ≡ ok s
    → EndsBefore s p fields end from until
    → update_manual_shift st org_id shift_id requester fields now ≡ ok (st', s')
    → calculate_worked_seconds s' later ≡ (end - s.started_at - (until - from)) / second
update_manual_shift-undercounts st org_id shift_id requester fields now later s p end from until st'
      s' read x e =
    ensured (st', s')
      (undercount st org_id shift_id requester fields now later s p end from until read x) e
