-- ===== src/Shifts/Worked.antt =====
-- `calculate_worked_seconds` of src/app/services/shift.py.
use smenka_back.Prelude.{
  ℕ, ◌+◌, ◌-◌, ◌/◌, ◌≤◌, ◌<◌, ◌≡◌, refl, ap, Bool, true, false, none, some, List, [], ◌∷◌, ℤ, sub_ℕ,
  ◌-ℤ◌, pos_part, neg_part, int_laws, -ℤ_parts, arith, count, Bool-cases, inl, inr,
}
use smenka_back.Calendar.{second}
use smenka_back.Shifts.{Pause, Shift, is_open, close_all}
use smenka_back.Shifts.Clock.{
  value_or, pause_span, minus_pauses, whole_seconds, calculate_worked_seconds,
}
use smenka_back.Shifts.Schedule.{finish_at_schedule}

closed-span : (p : Pause) (t u : ℕ) → is_open p ≡ false → pause_span p t ≡ pause_span p u
closed-span p t u h = ground arith

open-span : (p : Pause) (t : ℕ) → is_open p ≡ true → pause_span p t ≡ sub_ℕ t p.started_at
open-span p t h = ground arith

-- Ended pauses are subtracted alike at all times.
ended-pauses :
    (t u : ℕ) (ps : List Pause) (total : ℤ)
    → count is_open ps ≡ 0
    → minus_pauses ps t total ≡ minus_pauses ps u total
unfolding minus_pauses
ended-pauses t u [] total h = refl
ended-pauses t u (p ∷ ps) total h =
    let closed : is_open p ≡ false = ground arith in
    let rest : count is_open ps ≡ 0 = ground arith in
    rw (closed-span p t u closed) (ended-pauses t u ps (total -ℤ pause_span p u) rest)

sub_ℕ_parts : (a b : ℕ) → pos_part (sub_ℕ a b) + b ≡ neg_part (sub_ℕ a b) + a
sub_ℕ_parts a b = ground arith

meet :
    (a b x y : ℤ)
    → pos_part a + neg_part b + pos_part y + neg_part x
      ≡ pos_part b + neg_part a + pos_part x + neg_part y
    → a -ℤ x ≡ b -ℤ y
meet a b x y e = omega (int_laws, e)

meets :
    (a b : ℤ) (t u from : ℕ)
    → pos_part a + neg_part b + u ≡ pos_part b + neg_part a + t
    → a -ℤ sub_ℕ t from ≡ b -ℤ sub_ℕ u from
meets a b t u from e =
    meet a b (sub_ℕ t from) (sub_ℕ u from)
      (omega (arith, e, sub_ℕ_parts t from, sub_ℕ_parts u from))

shifts_along :
    (a b k : ℤ) (t u : ℕ)
    → pos_part a + neg_part b + u ≡ pos_part b + neg_part a + t
    → pos_part (a -ℤ k) + neg_part (b -ℤ k) + u ≡ pos_part (b -ℤ k) + neg_part (a -ℤ k) + t
shifts_along a b k t u e = omega (arith, e, -ℤ_parts a k, -ℤ_parts b k)

from_start :
    (t u start : ℕ)
    → pos_part (sub_ℕ t start) + neg_part (sub_ℕ u start) + u
      ≡ pos_part (sub_ℕ u start) + neg_part (sub_ℕ t start) + t
from_start t u start = omega (arith, sub_ℕ_parts t start, sub_ℕ_parts u start)

-- With one open pause, what is left does not depend on the time.
one_open-pauses :
    (t u : ℕ) (ps : List Pause) (a b : ℤ)
    → pos_part a + neg_part b + u ≡ pos_part b + neg_part a + t
    → count is_open ps ≡ 1
    → minus_pauses ps t a ≡ minus_pauses ps u b
unfolding minus_pauses
one_open-pauses t u [] a b e h = cc h
one_open-pauses t u (p ∷ ps) a b e h = elim (Bool-cases (is_open p)) [
  | inl opened ↦
      let rest : count is_open ps ≡ 0 = ground arith in
      let left : a -ℤ sub_ℕ t p.started_at ≡ b -ℤ sub_ℕ u p.started_at =
        meets a b t u p.started_at e in
      rw (open-span p t opened, open-span p u opened, left)
        (ended-pauses t u ps (b -ℤ sub_ℕ u p.started_at) rest)
  | inr closed ↦
      let rest : count is_open ps ≡ 1 = ground arith in
      rw (closed-span p t u closed) (
        one_open-pauses t u ps (a -ℤ pause_span p u) (b -ℤ pause_span p u)
          (shifts_along a b (pause_span p u) t u e) rest)
]

-- On a pause the clock stands: with one open pause and no end, the worked seconds are the same
-- whenever they are asked for.
pub calculate_worked_seconds-paused :
    (s : Shift) (t u : ℕ)
    → s.finished_at ≡ none
    → count is_open s.pauses ≡ 1
    → calculate_worked_seconds s t ≡ calculate_worked_seconds s u
unfolding calculate_worked_seconds
calculate_worked_seconds-paused s t u running h =
    let now_t : value_or s.finished_at t ≡ t = rw running refl in
    let now_u : value_or s.finished_at u ≡ u = rw running refl in
    rw (now_t, now_u)
      (ap whole_seconds (one_open-pauses t u s.pauses _ _ (from_start t u s.started_at) h))

late_pause :
    (start end from : ℕ)
    → start ≤ end
    → end < from
    → whole_seconds (sub_ℕ end start -ℤ sub_ℕ end from) ≡ (from - start) / second
unfolding ◌-ℤ◌
late_pause start end from h k = ground arith

-- The pause order is not kept by the end by schedule: a shift that is on its only pause since a time
-- after the planned end, and is then finished by the schedule, counts as worked all the time up to
-- that pause, past its own end.
pub finish_at_schedule-overcounts :
    (s : Shift) (p : Pause) (incomplete : Bool) (end now : ℕ)
    → s.pauses ≡ p ∷ []
    → p.finished_at ≡ none
    → s.started_at ≤ end
    → end < p.started_at
    → calculate_worked_seconds (finish_at_schedule s incomplete (some end)) now
      ≡ (p.started_at - s.started_at) / second
unfolding calculate_worked_seconds minus_pauses close_all
finish_at_schedule-overcounts s p incomplete end now only opened h k =
    rw (only, opened) (late_pause s.started_at end p.started_at h k)
