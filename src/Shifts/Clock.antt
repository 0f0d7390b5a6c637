-- ===== src/Shifts/Clock.antt =====
-- Worked and late seconds of src/app/services/shift.py.
use smenka_back.Prelude.{
  ℕ, ◌*◌, ◌/◌, ◌-◌, Option, none, some, List, [], ◌∷◌, ℤ, pos, negsuc, sub_ℕ, ◌-ℤ◌,
}
use smenka_back.Calendar.{second}
use smenka_back.Shifts.{Pause, Shift}

-- `value or now`
abbrev pub value_or : Option ℕ → ℕ → ℕ
value_or none now = now
value_or (some t) now = t

abbrev pub pause_span : Pause → ℕ → ℤ
pause_span p now = sub_ℕ (value_or p.finished_at now) p.started_at

-- The loop `total -= pause_end - pause.started_at`.
unfoldable pub minus_pauses : List Pause → ℕ → ℤ → ℤ
minus_pauses [] now total = total
minus_pauses (p ∷ ps) now total = minus_pauses ps now (total -ℤ pause_span p now)

-- `max(0, int(total))`, of a time in microseconds.
abbrev pub whole_seconds : ℤ → ℕ
whole_seconds (pos n) = n / second
whole_seconds (negsuc n) = 0

unfoldable pub calculate_worked_seconds : Shift → ℕ → ℕ
calculate_worked_seconds shift now =
    let total = sub_ℕ (value_or shift.finished_at now) shift.started_at in
    whole_seconds (minus_pauses shift.pauses now total)

-- `max(0, int(diff_seconds) - tolerance * 60)`
abbrev pub late_by : Option ℕ → ℕ → ℕ → Option ℕ
late_by none started_at tolerance = none
late_by (some planned) started_at tolerance =
    some (whole_seconds (sub_ℕ started_at planned) - tolerance * 60)

unfoldable pub compute_late_seconds : Shift → ℕ → Option ℕ
compute_late_seconds shift tolerance = late_by shift.scheduled_start_at shift.started_at tolerance
