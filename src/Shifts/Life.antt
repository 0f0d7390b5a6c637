-- ===== src/Shifts/Life.antt =====
-- The life of the shifts: a step of a user or of a background task, and what each step keeps.
use smenka_back.Prelude.{ℕ, ◌≡◌, Bool, Option, Result, ok, count, ensured}
use smenka_back.Shifts.{Shift, World, pause_shift, resume_shift, finish_shift}
use smenka_back.Shifts.Schedule.{auto_finish_stale_shifts, auto_finish_stale_pauses}
use smenka_back.Shifts.Start.{Window, start_shift}
use smenka_back.Shifts.Sound.{
  AllSound, sweep-AllSound, pauses-AllSound, pause_shift-AllSound, resume_shift-AllSound,
  finish_shift-AllSound, start_shift-AllSound,
}
use smenka_back.Shifts.Rows.{has_id, Exclusive}
use smenka_back.Shifts.Exclusive.{
  sweep-Exclusive, pauses-Exclusive, pause_shift-Exclusive, resume_shift-Exclusive,
  finish_shift-Exclusive, start_shift-Exclusive,
}

-- A step that succeeds; a failed one is rolled back. A new shift has a fresh id.
pub data Step (w : World) : World → Type 0 where
  starts :
      (user_id : ℕ) (org : Option ℕ) (resolved : Result Window) (incomplete : ℕ → Bool)
      (stale_now now shift_id : ℕ) (w' : World) (s : Shift)
      → count (has_id shift_id) w.shifts ≡ 0
      → start_shift w user_id org resolved incomplete stale_now now shift_id ≡ ok (w', s)
      → Step w w'
  pauses :
      (shift_id user_id pause_id now : ℕ) (w' : World) (s : Shift)
      → pause_shift w shift_id user_id pause_id now ≡ ok (w', s)
      → Step w w'
  resumes :
      (shift_id user_id now : ℕ) (w' : World) (s : Shift)
      → resume_shift w shift_id user_id now ≡ ok (w', s)
      → Step w w'
  finishes :
      (shift_id user_id : ℕ) (incomplete : Bool) (pauses_at now : ℕ) (w' : World) (s : Shift)
      → finish_shift w shift_id user_id incomplete pauses_at now ≡ ok (w', s)
      → Step w w'
  schedule_task :
      (now : ℕ) (incomplete : ℕ → Bool) → Step w (auto_finish_stale_shifts w now incomplete)
  pause_task : (now : ℕ) → Step w (auto_finish_stale_pauses w now)

-- Every shift is sound, and the running ones are exclusive.
abbrev pub Good : World → Type 0
Good w = AllSound w × Exclusive w

pub Step-Good : {w w' : World} → Step w w' → Good w → Good w'
Step-Good {w} (starts u org resolved incomplete stale_now now k w' s fresh e) (h, x) = (
  ensured (w', s) (start_shift-AllSound w u org resolved incomplete stale_now now k h) e,
  ensured (w', s) (start_shift-Exclusive w u org resolved incomplete stale_now now k fresh x) e,
)
Step-Good {w} (pauses k u pause_id now w' s e) (h, x) = (
  ensured (w', s) (pause_shift-AllSound w k u pause_id now h) e,
  ensured (w', s) (pause_shift-Exclusive w k u pause_id now x) e,
)
Step-Good {w} (resumes k u now w' s e) (h, x) = (
  ensured (w', s) (resume_shift-AllSound w k u now h) e,
  ensured (w', s) (resume_shift-Exclusive w k u now x) e,
)
Step-Good {w} (finishes k u incomplete pauses_at now w' s e) (h, x) = (
  ensured (w', s) (finish_shift-AllSound w k u incomplete pauses_at now h) e,
  ensured (w', s) (finish_shift-Exclusive w k u incomplete pauses_at now x) e,
)
Step-Good {w} (schedule_task now incomplete) (h, x) =
    (sweep-AllSound w now incomplete h, sweep-Exclusive w now incomplete x)
Step-Good {w} (pause_task now) (h, x) = (pauses-AllSound w now h, pauses-Exclusive w now x)
