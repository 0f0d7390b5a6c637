-- ===== src/Manual/Intervals.antt =====
-- The checks of src/app/services/manual_shift.py on the interval of a shift and on its pauses.
use smenka_back.Prelude.{
  ℕ, ◌+◌, ◌-◌, Bool, true, not, ◌&&◌, ◌||◌, Option, none, some, List, [], ◌∷◌, ltb, leb, ◌==◌,
  if◌then◌else◌, any, Result, ok, ◌>>=◌, ◌>>◌, raise_if, validation_error, shift_overlap,
}
use smenka_back.Shifts.{Pause, Shift, World}
use smenka_back.Schedules.Choice.{in_org}
use smenka_back.Manual.{max_shift_duration, clock_skew, PauseInput}

unfoldable pub validate_started_at_not_future : ℕ → ℕ → Result (Unit {0})
validate_started_at_not_future started_at now =
    raise_if (ltb (now + clock_skew) started_at) validation_error

unfoldable pub validate_interval : ℕ → ℕ → ℕ → Result (Unit {0})
unfolding validate_started_at_not_future
validate_interval started_at finished_at now = do
  raise_if (leb finished_at started_at) validation_error
  raise_if (ltb max_shift_duration (finished_at - started_at)) validation_error
  validate_started_at_not_future started_at now
  raise_if (ltb (now + clock_skew) finished_at) validation_error

-- `finished_at IS NULL OR finished_at > t`
abbrev pub ends_later : Option ℕ → ℕ → Bool
ends_later none t = true
ends_later (some end) t = ltb t end

abbrev pub is_other : Option ℕ → Shift → Bool
is_other none s = true
is_other (some id) s = not (s.id == id)

abbrev pub overlaps : ℕ → ℕ → ℕ → ℕ → Option ℕ → Shift → Bool
overlaps org_id user_id started_at finished_at exclude s =
    in_org s.organization_id org_id
    && s.user_id == user_id
    && not s.is_deleted
    && ltb s.started_at finished_at
    && ends_later s.finished_at started_at
    && is_other exclude s

unfoldable pub check_overlap : World → ℕ → ℕ → ℕ → ℕ → Option ℕ → Result (Unit {0})
check_overlap w org_id user_id started_at finished_at exclude =
    raise_if (any (overlaps org_id user_id started_at finished_at exclude) w.shifts) shift_overlap

-- `sorted(pauses, key=started_at)`, which keeps the order of equal ones.
unfoldable pub insert_pause : PauseInput → List PauseInput → List PauseInput
insert_pause p [] = p ∷ []
insert_pause p (q ∷ rest) =
    if leb p.started_at q.started_at then p ∷ q ∷ rest else q ∷ insert_pause p rest

unfoldable pub sort_pauses : List PauseInput → List PauseInput
sort_pauses [] = []
sort_pauses (p ∷ ps) = insert_pause p (sort_pauses ps)

abbrev pub is_before : Option ℕ → ℕ → Bool
is_before none started = true
is_before (some prev_end) started = leb prev_end started

-- The loop over the sorted pauses; the result is `total_seconds`, in microseconds.
unfoldable pub check_pauses : ℕ → ℕ → Option ℕ → ℕ → List PauseInput → Result ℕ
check_pauses from until prev_end total [] = ok total
check_pauses from until prev_end total (p ∷ ps) = do
  raise_if (leb p.finished_at p.started_at) validation_error
  raise_if (ltb p.started_at from || ltb until p.finished_at) validation_error
  raise_if (not (is_before prev_end p.started_at)) validation_error
  check_pauses from until (some p.finished_at) (total + (p.finished_at - p.started_at)) ps

unfoldable pub validate_pauses : List PauseInput → ℕ → ℕ → Result (Unit {0})
unfolding sort_pauses insert_pause
validate_pauses pauses from until = do
  total ← check_pauses from until none 0 (sort_pauses pauses)
  raise_if (leb (until - from) total) validation_error

unfoldable pub validate_started_at_against_open_pauses : ℕ → List Pause → Result (Unit {0})
validate_started_at_against_open_pauses started_at [] = ok tt
validate_started_at_against_open_pauses started_at (p ∷ ps) =
    raise_if (ltb p.started_at started_at) validation_error
    >> validate_started_at_against_open_pauses started_at ps
