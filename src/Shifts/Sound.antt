-- ===== src/Shifts/Sound.antt =====
-- The status of a shift and its pauses, in the operations of src/app/services/shift.py and
-- src/app/tasks/shifts.py.
use smenka_back.Prelude.{
  ℕ, ◌+◌, ◌*◌, ◌≡◌, refl, Bool, true, false, not, ◌&&◌, Option, none, some, List, [], ◌∷◌, map,
  arith, ◌==◌, if◌then◌else◌, select, length, count, count-append, All, All-append, All-find,
  All-update, Result, ok, raise_if, allowed, first_true, one_or_none, >>=-Ensures, Ensures, returns,
  shift_not_active, shift_not_paused, shift_already_finished, shift_already_active,
  max_pauses_reached,
}
use smenka_back.Calendar.{minute}
use smenka_back.Access.{is_some}
use smenka_back.Shifts.{
  ShiftStatus, ShiftFinishReason, Pause, Shift, World, is_active, is_paused, is_finished, is_open,
  get_shift_with_pauses, save_shift, at_limit, pause_limit, add_pause, pause_shift, close_first,
  close_all, resumed, resume_shift, ended, finish_shift, settings_of,
}
use smenka_back.Shifts.Schedule.{
  is_stale, auto_finish_enabled, finish_at_schedule, auto_finish, auto_finish_stale_for_user,
  auto_finish_stale_shifts, expire_pause, expire_limit, max_pause_of, expire_in, auto_finish_pause,
  auto_finish_stale_pauses,
}
use smenka_back.Shifts.Start.{is_running_of, Window, new_shift, start_shift}

abbrev pub open_pauses : Shift → ℕ
open_pauses s = count is_open s.pauses

-- The end and the open pauses that a status stands for.
abbrev pub Fits : ShiftStatus → Option ℕ → ℕ → Type 0
Fits ShiftStatus.active finished_at opened = (finished_at ≡ none) × (opened ≡ 0)
Fits ShiftStatus.paused finished_at opened = (finished_at ≡ none) × (opened ≡ 1)
Fits ShiftStatus.finished finished_at opened = (is_some finished_at ≡ true) × (opened ≡ 0)

abbrev pub IsSound : Shift → Type 0
IsSound s = Fits s.status s.finished_at (open_pauses s)

abbrev pub AllSound : World → Type 0
AllSound w = All IsSound w.shifts

pub close_all-open : (at : ℕ) (ps : List Pause) → count is_open (close_all at ps) ≡ 0
unfolding close_all
close_all-open at [] = refl
close_all-open at (p ∷ ps) = ground (arith, close_all-open at ps)

close_first-open :
    (at : ℕ) (ps : List Pause) → count is_open ps ≡ 1 → count is_open (close_first at ps) ≡ 0
unfolding close_first
close_first-open at [] h = omega (arith, h)
close_first-open at (p ∷ ps) h = ground (arith, close_first-open at ps)

-- An expiry ends one open pause, and reports whether it did.
expire_pause-open :
    (limit now : ℕ) (ps : List Pause)
    → count is_open (expire_pause limit now ps).0 + (if (expire_pause limit now ps).1 then 1 else 0)
      ≡ count is_open ps
unfolding expire_pause
expire_pause-open limit now [] = refl
expire_pause-open limit now (p ∷ ps) = ground (arith, expire_pause-open limit now ps)

active-Fits :
    (st : ShiftStatus) (f : Option ℕ) (n : ℕ)
    → is_active st ≡ true
    → Fits st f n
    → (f ≡ none) × (n ≡ 0)
active-Fits ShiftStatus.active f n e h = h
active-Fits ShiftStatus.paused f n e h = cc
active-Fits ShiftStatus.finished f n e h = cc

paused-Fits :
    (st : ShiftStatus) (f : Option ℕ) (n : ℕ)
    → is_paused st ≡ true
    → Fits st f n
    → (f ≡ none) × (n ≡ 1)
paused-Fits ShiftStatus.active f n e h = cc
paused-Fits ShiftStatus.paused f n e h = h
paused-Fits ShiftStatus.finished f n e h = cc

add_pause-IsSound :
    (s : Shift) (pause_id now : ℕ)
    → is_active s.status ≡ true
    → IsSound s
    → IsSound (add_pause s pause_id now)
add_pause-IsSound s pause_id now e h =
    let fits = active-Fits s.status s.finished_at (open_pauses s) e h in
    let p : Pause = record { id = pause_id; started_at = now; finished_at = none } in
    (fits.0, omega (arith, count-append is_open s.pauses (p ∷ []), fits.1))

resumed-IsSound :
    (s : Shift) (now : ℕ) → is_paused s.status ≡ true → IsSound s → IsSound (resumed s now)
resumed-IsSound s now e h =
    let fits = paused-Fits s.status s.finished_at (open_pauses s) e h in
    (fits.0, close_first-open now s.pauses fits.1)

ended-IsSound :
    (s : Shift) (incomplete : Bool) (reason : ShiftFinishReason) (pauses_at at : ℕ)
    → IsSound (ended s incomplete reason pauses_at at)
ended-IsSound s incomplete reason pauses_at at = (refl, close_all-open pauses_at s.pauses)

scheduled-IsSound :
    (s : Shift) (incomplete : Bool) (at : Option ℕ)
    → IsSound s
    → IsSound (finish_at_schedule s incomplete at)
scheduled-IsSound s incomplete none h = h
scheduled-IsSound s incomplete (some at) h =
    ended-IsSound s incomplete ShiftFinishReason.auto_schedule at at

if-IsSound :
    (b : Bool) (s s' : Shift) → (b ≡ true → IsSound s) → IsSound s' → IsSound (if b then s else s')
if-IsSound true s s' h h' = h refl
if-IsSound false s s' h h' = h'

auto_finish-IsSound :
    (w : World) (now : ℕ) (incomplete : ℕ → Bool) (s : Shift)
    → IsSound s
    → IsSound (auto_finish w now incomplete s)
auto_finish-IsSound w now incomplete s h =
    if-IsSound (is_stale s now && auto_finish_enabled w s.organization_id) _ s
      (λ _. scheduled-IsSound s (incomplete s.id) s.scheduled_end_at h) h

expired-Fits :
    (b : Bool) (f : Option ℕ) (n m : ℕ) (st : ShiftStatus)
    → m + (if b then 1 else 0) ≡ n
    → is_paused st ≡ true
    → Fits st f n
    → Fits (if b then ShiftStatus.active else st) f m
expired-Fits true f n m st e p h =
    let fits = paused-Fits st f n p h in (fits.0, omega (arith, e, fits.1))
expired-Fits false f n m ShiftStatus.active e p h = cc
expired-Fits false f n m ShiftStatus.paused e p h = (h.0, omega (arith, e, h.1))
expired-Fits false f n m ShiftStatus.finished e p h = cc

expire_limit-IsSound :
    (limit : Option ℕ) (now : ℕ) (s : Shift)
    → is_paused s.status ≡ true
    → IsSound s
    → IsSound (expire_limit limit now s)
expire_limit-IsSound none now s p h = h
expire_limit-IsSound (some minutes) now s p h =
    expired-Fits (expire_pause (minutes * minute) now s.pauses).1 s.finished_at (open_pauses s) _
      s.status (expire_pause-open (minutes * minute) now s.pauses) p h

expire_in-IsSound :
    (w : World) (now : ℕ) (org : Option ℕ) (s : Shift)
    → is_paused s.status ≡ true
    → IsSound s
    → IsSound (expire_in w now org s)
expire_in-IsSound w now none s p h = h
expire_in-IsSound w now (some org_id) s p h =
    expire_limit-IsSound (max_pause_of (settings_of w org_id)) now s p h

auto_finish_pause-IsSound :
    (w : World) (now : ℕ) (s : Shift) → IsSound s → IsSound (auto_finish_pause w now s)
auto_finish_pause-IsSound w now s h =
    if-IsSound (is_paused s.status && not s.is_deleted) _ s
      (λ p. expire_in-IsSound w now s.organization_id s (first_true (is_paused s.status) _ p) h) h

All-map :
    {A : Type 0} (P : A → Type 0) (f : A → A) (xs : List A)
    → ((x : A) → P x → P (f x))
    → All P xs
    → All P (map f xs)
All-map P f [] step h = tt
All-map P f (x ∷ xs) step h = (step x h.0, All-map P f xs step h.1)

-- The bulk steps.
pub sweep_user-AllSound :
    (w : World) (user_id now : ℕ) (incomplete : ℕ → Bool)
    → AllSound w
    → AllSound (auto_finish_stale_for_user w user_id now incomplete)
unfolding auto_finish_stale_for_user
sweep_user-AllSound w user_id now incomplete h =
    All-map IsSound _ w.shifts
      (λ s hs.
        if-IsSound (s.user_id == user_id) _ s (λ _. auto_finish-IsSound w now incomplete s hs) hs)
      h

pub sweep-AllSound :
    (w : World) (now : ℕ) (incomplete : ℕ → Bool)
    → AllSound w
    → AllSound (auto_finish_stale_shifts w now incomplete)
unfolding auto_finish_stale_shifts
sweep-AllSound w now incomplete h =
    All-map IsSound _ w.shifts (auto_finish-IsSound w now incomplete) h

pub pauses-AllSound : (w : World) (now : ℕ) → AllSound w → AllSound (auto_finish_stale_pauses w now)
unfolding auto_finish_stale_pauses
pauses-AllSound w now h = All-map IsSound _ w.shifts (auto_finish_pause-IsSound w now) h

-- A written row that is sound keeps the table sound.
save-AllSound : (w : World) (s : Shift) → IsSound s → AllSound w → AllSound (save_shift s w)
unfolding save_shift
save-AllSound w s hs h = All-update IsSound (λ r. r.id == s.id) s w.shifts h hs

found-IsSound :
    (w : World) (shift_id user_id : ℕ) (s : Shift)
    → get_shift_with_pauses w shift_id user_id ≡ ok s
    → AllSound w
    → IsSound s
unfolding get_shift_with_pauses
found-IsSound w shift_id user_id s e h =
    All-find IsSound (λ r. r.id == shift_id && r.user_id == user_id && not r.is_deleted) s w.shifts
      h (ground arith)

-- The operations of a user.
pub pause_shift-AllSound :
    (w : World) (shift_id user_id pause_id now : ℕ)
    → AllSound w
    → Ensures (λ (r : World × Shift). AllSound r.0) (pause_shift w shift_id user_id pause_id now)
unfolding pause_shift
pause_shift-AllSound w shift_id user_id pause_id now h =
    >>=-Ensures (get_shift_with_pauses w shift_id user_id) _ λ s found.
      >>=-Ensures (raise_if (not (is_active s.status)) shift_not_active) _ λ _ running.
        >>=-Ensures
          (raise_if (at_limit (pause_limit w s.organization_id) (length s.pauses))
            max_pauses_reached)
          _
          λ _ _. returns _ (
            save-AllSound w (add_pause s pause_id now)
              (add_pause-IsSound s pause_id now
                (allowed (is_active s.status) shift_not_active running)
                (found-IsSound w shift_id user_id s found h))
              h)

pub resume_shift-AllSound :
    (w : World) (shift_id user_id now : ℕ)
    → AllSound w
    → Ensures (λ (r : World × Shift). AllSound r.0) (resume_shift w shift_id user_id now)
unfolding resume_shift
resume_shift-AllSound w shift_id user_id now h =
    >>=-Ensures (get_shift_with_pauses w shift_id user_id) _ λ s found.
      >>=-Ensures (raise_if (not (is_paused s.status)) shift_not_paused) _ λ _ stopped. returns _ (
        save-AllSound w (resumed s now)
          (resumed-IsSound s now (allowed (is_paused s.status) shift_not_paused stopped)
            (found-IsSound w shift_id user_id s found h))
          h)

pub finish_shift-AllSound :
    (w : World) (shift_id user_id : ℕ) (incomplete : Bool) (pauses_at now : ℕ)
    → AllSound w
    → Ensures
        (λ (r : World × Shift). AllSound r.0)
        (finish_shift w shift_id user_id incomplete pauses_at now)
unfolding finish_shift
finish_shift-AllSound w shift_id user_id incomplete pauses_at now h =
    >>=-Ensures (get_shift_with_pauses w shift_id user_id) _ λ s found.
      >>=-Ensures (raise_if (is_finished s.status) shift_already_finished) _ λ _ _. returns _ (
        save-AllSound w (ended s incomplete ShiftFinishReason.manual pauses_at now)
          (ended-IsSound s incomplete ShiftFinishReason.manual pauses_at now) h)

pub start_shift-AllSound :
    (w : World) (user_id : ℕ) (org : Option ℕ) (resolved : Result Window) (incomplete : ℕ → Bool)
    (stale_now now shift_id : ℕ)
    → AllSound w
    → Ensures
        (λ (r : World × Shift). AllSound r.0)
        (start_shift w user_id org resolved incomplete stale_now now shift_id)
unfolding start_shift
start_shift-AllSound w user_id org resolved incomplete stale_now now shift_id h =
    let swept = auto_finish_stale_for_user w user_id stale_now incomplete in
    >>=-Ensures (one_or_none (select (is_running_of user_id org) swept.shifts)) _ λ existing _.
      >>=-Ensures (raise_if (is_some existing) shift_already_active) _ λ _ _.
        >>=-Ensures resolved _ λ window _. returns _ (
          All-append IsSound swept.shifts (new_shift shift_id user_id org window now ∷ [])
            (sweep_user-AllSound w user_id stale_now incomplete h) ((refl, refl), tt))
