-- ===== src/Shifts/Exclusive.antt =====
-- The running shifts of a user, in the operations of src/app/services/shift.py and
-- src/app/tasks/shifts.py.
use smenka_back.Prelude.{
  ℕ, ◌≡◌, refl, Bool, not, Option, arith, ◌==◌, if◌then◌else◌, select, length, count, count-map_le,
  select-count, Result, raise_if, allowed, one_or_none, >>=-Ensures, Ensures, returns,
  shift_not_active, shift_not_paused, shift_already_finished, shift_already_active,
  max_pauses_reached,
}
use smenka_back.Access.{is_some}
use smenka_back.Shifts.{
  ShiftFinishReason, Shift, World, is_active, is_paused, is_finished, get_shift_with_pauses,
  at_limit, pause_limit, add_pause, pause_shift, resumed, resume_shift, ended, finish_shift,
}
use smenka_back.Shifts.Schedule.{
  auto_finish, auto_finish_stale_for_user, auto_finish_stale_shifts, auto_finish_stale_pauses,
}
use smenka_back.Shifts.Start.{is_running_of, Window, new_shift, start_shift}
use smenka_back.Shifts.Rows.{
  has_id, Exclusive, Succeeds, id_kept, map-Exclusive, save-Exclusive, itself, rewrites,
  ended-Succeeds, if-Succeeds, auto_finish-Succeeds, not_finished, is_running_status,
  auto_finish_pause-Succeeds, none_selected, insert-Exclusive,
}

-- The bulk steps.
pub sweep_user-Exclusive :
    (w : World) (user_id now : ℕ) (incomplete : ℕ → Bool)
    → Exclusive w
    → Exclusive (auto_finish_stale_for_user w user_id now incomplete)
unfolding auto_finish_stale_for_user
sweep_user-Exclusive w user_id now incomplete x =
    map-Exclusive w _ _ refl
      (λ s.
        if-Succeeds (s.user_id == user_id) s _ s (λ _. auto_finish-Succeeds w now incomplete s)
          (itself s))
      x

pub sweep-Exclusive :
    (w : World) (now : ℕ) (incomplete : ℕ → Bool)
    → Exclusive w
    → Exclusive (auto_finish_stale_shifts w now incomplete)
unfolding auto_finish_stale_shifts
sweep-Exclusive w now incomplete x =
    map-Exclusive w _ _ refl (auto_finish-Succeeds w now incomplete) x

pub pauses-Exclusive :
    (w : World) (now : ℕ) → Exclusive w → Exclusive (auto_finish_stale_pauses w now)
unfolding auto_finish_stale_pauses
pauses-Exclusive w now x = map-Exclusive w _ _ refl (auto_finish_pause-Succeeds w now) x

-- The operations of a user.
pub pause_shift-Exclusive :
    (w : World) (shift_id user_id pause_id now : ℕ)
    → Exclusive w
    → Ensures (λ (r : World × Shift). Exclusive r.0) (pause_shift w shift_id user_id pause_id now)
unfolding pause_shift
pause_shift-Exclusive w shift_id user_id pause_id now x =
    >>=-Ensures (get_shift_with_pauses w shift_id user_id) _ λ s found.
      >>=-Ensures (raise_if (not (is_active s.status)) shift_not_active) _ λ _ running.
        >>=-Ensures
          (raise_if (at_limit (pause_limit w s.organization_id) (length s.pauses))
            max_pauses_reached)
          _
          λ _ _. returns _ (
            save-Exclusive w shift_id user_id s (add_pause s pause_id now) found
              (rewrites s (add_pause s pause_id now) refl refl refl refl (
                is_running_status s.status (allowed (is_active s.status) shift_not_active running)))
              x)

pub resume_shift-Exclusive :
    (w : World) (shift_id user_id now : ℕ)
    → Exclusive w
    → Ensures (λ (r : World × Shift). Exclusive r.0) (resume_shift w shift_id user_id now)
unfolding resume_shift
resume_shift-Exclusive w shift_id user_id now x =
    >>=-Ensures (get_shift_with_pauses w shift_id user_id) _ λ s found.
      >>=-Ensures (raise_if (not (is_paused s.status)) shift_not_paused) _ λ _ stopped. returns _ (
        save-Exclusive w shift_id user_id s (resumed s now) found
          (rewrites s (resumed s now) refl refl refl refl
            (not_finished s.status (allowed (is_paused s.status) shift_not_paused stopped)))
          x)

pub finish_shift-Exclusive :
    (w : World) (shift_id user_id : ℕ) (incomplete : Bool) (pauses_at now : ℕ)
    → Exclusive w
    → Ensures
        (λ (r : World × Shift). Exclusive r.0)
        (finish_shift w shift_id user_id incomplete pauses_at now)
unfolding finish_shift
finish_shift-Exclusive w shift_id user_id incomplete pauses_at now x =
    let reason = ShiftFinishReason.manual in
    >>=-Ensures (get_shift_with_pauses w shift_id user_id) _ λ s found.
      >>=-Ensures (raise_if (is_finished s.status) shift_already_finished) _ λ _ _. returns _ (
        save-Exclusive w shift_id user_id s (ended s incomplete reason pauses_at now) found
          (ended-Succeeds s incomplete reason pauses_at now) x)

sweep_user-absent :
    (w : World) (user_id now : ℕ) (incomplete : ℕ → Bool) (k : ℕ)
    → count (has_id k) w.shifts ≡ 0
    → count (has_id k) (auto_finish_stale_for_user w user_id now incomplete).shifts ≡ 0
unfolding auto_finish_stale_for_user
sweep_user-absent w user_id now incomplete k h =
    let step : Shift → Shift =
      λ s. if s.user_id == user_id then auto_finish w now incomplete s else s in
    let kept : (s : Shift) → Succeeds s (step s) = λ s.
      if-Succeeds (s.user_id == user_id) s _ s (λ _. auto_finish-Succeeds w now incomplete s)
        (itself s) in
    let fewer =
      count-map_le (has_id k) step w.shifts (λ s. id_kept k s (step s) (kept s).same_id) in
    omega (arith, fewer, h)

pub start_shift-Exclusive :
    (w : World) (user_id : ℕ) (org : Option ℕ) (resolved : Result Window) (incomplete : ℕ → Bool)
    (stale_now now shift_id : ℕ)
    → count (has_id shift_id) w.shifts ≡ 0
    → Exclusive w
    → Ensures
        (λ (r : World × Shift). Exclusive r.0)
        (start_shift w user_id org resolved incomplete stale_now now shift_id)
unfolding start_shift
start_shift-Exclusive w user_id org resolved incomplete stale_now now shift_id fresh x =
    let swept = auto_finish_stale_for_user w user_id stale_now incomplete in
    >>=-Ensures (one_or_none (select (is_running_of user_id org) swept.shifts)) _ λ existing chosen.
      >>=-Ensures (raise_if (is_some existing) shift_already_active) _ λ _ idle.
        >>=-Ensures resolved _ λ window _. returns _ (
          insert-Exclusive swept _ user_id org (new_shift shift_id user_id org window now) refl refl
            refl (sweep_user-absent w user_id stale_now incomplete shift_id fresh)
            (select-count (is_running_of user_id org) swept.shifts
              (none_selected _ existing chosen idle))
            (sweep_user-Exclusive w user_id stale_now incomplete x))
