-- ===== src/Manual/Gone.antt =====
-- A deleted shift is finished, and the operations of src/app/services/shift.py and src/app/tasks/shifts.py
-- leave it so.
use smenka_back.Prelude.{
  ℕ, ◌≡◌, refl, Bool, true, false, not, ◌&&◌, Option, none, some, List, [], ◌∷◌, map, arith, ◌==◌,
  if◌then◌else◌, select, length, find, find-passes, All, All-append, All-update, Result, ok,
  raise_if, or_raise-some, one_or_none, >>=-Ensures, Ensures, returns, ensured, shift_not_found,
  shift_not_active, shift_not_paused, shift_already_finished, shift_already_active,
  max_pauses_reached,
}
use smenka_back.Access.{is_some}
use smenka_back.Shifts.{
  ShiftFinishReason, Shift, World, is_active, is_paused, is_finished, get_shift_with_pauses,
  save_shift, at_limit, pause_limit, add_pause, pause_shift, resumed, resume_shift, ended,
  finish_shift, settings_of,
}
use smenka_back.Shifts.Schedule.{
  is_stale, auto_finish_enabled, finish_at_schedule, auto_finish, auto_finish_stale_for_user,
  auto_finish_stale_shifts, expire_limit, max_pause_of, expire_in, auto_finish_stale_pauses,
}
use smenka_back.Shifts.Start.{is_running_of, Window, new_shift, start_shift}
use smenka_back.Shifts.Life.{Step, starts, pauses, resumes, finishes, schedule_task, pause_task}

abbrev pub IsGone : Shift → Type 0
IsGone s = s.is_deleted ≡ true → is_finished s.status ≡ true

abbrev pub AllGone : World → Type 0
AllGone w = All IsGone w.shifts

if-IsGone :
    (b : Bool) (s s' : Shift) → (b ≡ true → IsGone s) → IsGone s' → IsGone (if b then s else s')
if-IsGone true s s' h k = h refl
if-IsGone false s s' h k = k

scheduled-IsGone :
    (s : Shift) (incomplete : Bool) (at : Option ℕ)
    → IsGone s
    → IsGone (finish_at_schedule s incomplete at)
scheduled-IsGone s incomplete none h = h
scheduled-IsGone s incomplete (some at) h = λ _. refl

auto_finish-IsGone :
    (w : World) (now : ℕ) (incomplete : ℕ → Bool) (s : Shift)
    → IsGone s
    → IsGone (auto_finish w now incomplete s)
auto_finish-IsGone w now incomplete s h =
    if-IsGone (is_stale s now && auto_finish_enabled w s.organization_id) _ s
      (λ _. scheduled-IsGone s (incomplete s.id) s.scheduled_end_at h) h

expired-IsGone :
    (w : World) (now : ℕ) (org : Option ℕ) (s : Shift)
    → s.is_deleted ≡ false
    → IsGone (expire_in w now org s)
expired-IsGone w now none s h = λ k. cc
expired-IsGone w now (some org_id) s h = limited (max_pause_of (settings_of w org_id))
  where
    limited : (limit : Option ℕ) → IsGone (expire_limit limit now s)
    limited none = λ k. cc
    limited (some minutes) = λ k. cc

map-AllGone :
    (f : Shift → Shift) (xs : List Shift)
    → ((s : Shift) → IsGone s → IsGone (f s))
    → All IsGone xs
    → All IsGone (map f xs)
map-AllGone f [] step h = tt
map-AllGone f (s ∷ xs) step h = (step s h.0, map-AllGone f xs step h.1)

not_gone :
    (w : World) (shift_id user_id : ℕ) (s : Shift)
    → get_shift_with_pauses w shift_id user_id ≡ ok s
    → s.is_deleted ≡ false
unfolding get_shift_with_pauses
not_gone w shift_id user_id s h =
    let wanted : Shift → Bool = λ r. r.id == shift_id && r.user_id == user_id && not r.is_deleted in
    let e : find wanted w.shifts ≡ some s = or_raise-some _ s shift_not_found h in
    let passes : wanted s ≡ true = find-passes wanted s w.shifts e in ground arith

pub save-AllGone : (w : World) (s : Shift) → IsGone s → AllGone w → AllGone (save_shift s w)
unfolding save_shift
save-AllGone w s hs h = All-update IsGone (λ r. r.id == s.id) s w.shifts h hs

live-IsGone : (s : Shift) → s.is_deleted ≡ false → IsGone s
live-IsGone s h k = cc

pause-AllGone :
    (w : World) (shift_id user_id pause_id now : ℕ)
    → AllGone w
    → Ensures (λ (r : World × Shift). AllGone r.0) (pause_shift w shift_id user_id pause_id now)
unfolding pause_shift
pause-AllGone w shift_id user_id pause_id now h =
    >>=-Ensures (get_shift_with_pauses w shift_id user_id) _ λ s found.
      >>=-Ensures (raise_if (not (is_active s.status)) shift_not_active) _ λ _ _.
        >>=-Ensures
          (raise_if (at_limit (pause_limit w s.organization_id) (length s.pauses))
            max_pauses_reached)
          _
          λ _ _. returns _ (
            save-AllGone w (add_pause s pause_id now)
              (live-IsGone (add_pause s pause_id now) (not_gone w shift_id user_id s found)) h)

resume-AllGone :
    (w : World) (shift_id user_id now : ℕ)
    → AllGone w
    → Ensures (λ (r : World × Shift). AllGone r.0) (resume_shift w shift_id user_id now)
unfolding resume_shift
resume-AllGone w shift_id user_id now h =
    >>=-Ensures (get_shift_with_pauses w shift_id user_id) _ λ s found.
      >>=-Ensures (raise_if (not (is_paused s.status)) shift_not_paused) _ λ _ _. returns _ (
        save-AllGone w (resumed s now)
          (live-IsGone (resumed s now) (not_gone w shift_id user_id s found)) h)

finish-AllGone :
    (w : World) (shift_id user_id : ℕ) (incomplete : Bool) (pauses_at now : ℕ)
    → AllGone w
    → Ensures
        (λ (r : World × Shift). AllGone r.0)
        (finish_shift w shift_id user_id incomplete pauses_at now)
unfolding finish_shift
finish-AllGone w shift_id user_id incomplete pauses_at now h =
    >>=-Ensures (get_shift_with_pauses w shift_id user_id) _ λ s _.
      >>=-Ensures (raise_if (is_finished s.status) shift_already_finished) _ λ _ _.
        returns _
          (save-AllGone w (ended s incomplete ShiftFinishReason.manual pauses_at now) (λ _. refl) h)

start-AllGone :
    (w : World) (user_id : ℕ) (org : Option ℕ) (resolved : Result Window) (incomplete : ℕ → Bool)
    (stale_now now shift_id : ℕ)
    → AllGone w
    → Ensures
        (λ (r : World × Shift). AllGone r.0)
        (start_shift w user_id org resolved incomplete stale_now now shift_id)
unfolding start_shift auto_finish_stale_for_user
start-AllGone w user_id org resolved incomplete stale_now now shift_id h =
    let swept = auto_finish_stale_for_user w user_id stale_now incomplete in
    >>=-Ensures (one_or_none (select (is_running_of user_id org) swept.shifts)) _ λ existing _.
      >>=-Ensures (raise_if (is_some existing) shift_already_active) _ λ _ _.
        >>=-Ensures resolved _ λ window _. returns _ (
          All-append IsGone swept.shifts (new_shift shift_id user_id org window now ∷ [])
            (map-AllGone _ w.shifts
              (λ s k.
                if-IsGone (s.user_id == user_id) _ s
                  (λ _. auto_finish-IsGone w stale_now incomplete s k) k)
              h)
            ((λ k. cc), tt))

pub Step-AllGone : {w w' : World} → Step w w' → AllGone w → AllGone w'
unfolding auto_finish_stale_shifts auto_finish_stale_pauses
Step-AllGone {w} (starts u org resolved incomplete stale_now now k w' s fresh e) h =
    ensured (w', s) (start-AllGone w u org resolved incomplete stale_now now k h) e
Step-AllGone {w} (pauses k u pause_id now w' s e) h =
    ensured (w', s) (pause-AllGone w k u pause_id now h) e
Step-AllGone {w} (resumes k u now w' s e) h = ensured (w', s) (resume-AllGone w k u now h) e
Step-AllGone {w} (finishes k u incomplete pauses_at now w' s e) h =
    ensured (w', s) (finish-AllGone w k u incomplete pauses_at now h) e
Step-AllGone {w} (schedule_task now incomplete) h =
    map-AllGone _ w.shifts (auto_finish-IsGone w now incomplete) h
Step-AllGone {w} (pause_task now) h =
    map-AllGone _ w.shifts
      (λ s k.
        if-IsGone (is_paused s.status && not s.is_deleted) _ s
          (λ live.
            expired-IsGone w now s.organization_id s
              (second_true (is_paused s.status) s.is_deleted live))
          k)
      h
  where
    second_true : (a b : Bool) → (a && not b) ≡ true → b ≡ false
    second_true a b h = ground arith
