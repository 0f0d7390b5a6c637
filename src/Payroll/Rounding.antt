-- ===== src/Payroll/Rounding.antt =====
-- What src/app/services/payroll.py pays for a shift.
use smenka_back.Prelude.{
  ℕ, ◌+◌, ◌*◌, ◌/◌, ◌≤◌, ◌<◌, ◌≡◌, refl, Option, none, some, List, [], ◌∷◌, ℤ, pos, ◌+ℤ◌, ◌-ℤ◌,
  ◌≤ℤ◌, int_laws, arith,
}
use smenka_back.Shifts.{Shift}
use smenka_back.Payroll.{
  RateType, MemberRate, half_up, amount_for, seconds_per_hour, shift_amount_minor, Sums, no_sums,
  plus, paid_at, rate_for_moment, of_shift, add_shifts, calc_earnings,
}

-- An hourly amount is the kopeck that is nearest to the exact one, and the upper one at a half.
pub shift_amount_minor-hourly :
    (rate : MemberRate) (seconds : ℕ)
    → rate.rate_type ≡ RateType.hourly
    → (k : ℕ) × (shift_amount_minor rate (pos seconds) ≡ pos k)
      × (2 * (k * seconds_per_hour) ≤ 2 * (seconds * rate.rate_amount_minor) + seconds_per_hour)
      × (2 * (seconds * rate.rate_amount_minor) < 2 * (k * seconds_per_hour) + seconds_per_hour)
unfolding shift_amount_minor half_up
shift_amount_minor-hourly rate seconds h = (
  (2 * (seconds * rate.rate_amount_minor) + seconds_per_hour) / (2 * seconds_per_hour),
  rw h refl,
  omega arith,
  omega arith,
)

mul_le : (a b k : ℕ) → a ≤ b → a * k ≤ b * k
mul_le a b k h = grind arith

-- More seconds are never paid less.
shift_amount_minor_mono :
    (rate : MemberRate) (a b : ℕ)
    → a ≤ b
    → shift_amount_minor rate (pos a) ≤ℤ shift_amount_minor rate (pos b)
unfolding shift_amount_minor half_up
shift_amount_minor_mono rate a b h = amounts rate.rate_type
  where
    amounts :
        (t : RateType)
        → amount_for t rate.rate_amount_minor (pos a) ≤ℤ amount_for t rate.rate_amount_minor (pos b)
    amounts RateType.hourly = omega (arith, mul_le a b rate.rate_amount_minor h)
    amounts RateType.per_shift = omega arith

-- The two parts of the gross, over any number of shifts.
abbrev pub IsSplit : Sums → Type 0
IsSplit s =
    (s.base_amount_minor +ℤ s.overtime_amount_minor ≡ s.gross_amount_minor)
    × (pos 0 ≤ℤ s.overtime_amount_minor)
    × (s.unpaid_seconds ≤ s.worked_seconds)
    × (s.unpaid_shifts_count ≤ s.shifts_count)

add_splits : (a b c x y z : ℤ) → a +ℤ b ≡ c → x +ℤ y ≡ z → a +ℤ x +ℤ (b +ℤ y) ≡ c +ℤ z
add_splits a b c x y z h k = rw (← h, ← k) (omega int_laws)

plus-IsSplit : (a b : Sums) → IsSplit a → IsSplit b → IsSplit (plus a b)
plus-IsSplit a b ha hb = (
  add_splits _ _ _ _ _ _ ha.0 hb.0,
  omega (int_laws, ha.1, hb.1),
  omega (arith, ha.2, hb.2),
  omega (arith, ha.3, hb.3),
)

not_negative : (a b : ℤ) → b ≤ℤ a → pos 0 ≤ℤ a -ℤ b
not_negative a b h = omega (int_laws, h)

split_again : (a b : ℤ) → b +ℤ (a -ℤ b) ≡ a
split_again a b = omega int_laws

paid-split :
    (found : Option MemberRate) (seconds overtime : ℕ) (planned : ℤ)
    → ((paid_at found seconds overtime planned).base
        ≤ℤ (paid_at found seconds overtime planned).gross)
      × ((paid_at found seconds overtime planned).unpaid_seconds ≤ seconds)
      × ((paid_at found seconds overtime planned).unpaid_count ≤ 1)
paid-split none seconds overtime planned = (omega arith, omega arith, omega arith)
paid-split (some rate) seconds overtime planned = (
  shift_amount_minor_mono rate seconds (seconds + overtime) (omega arith),
  omega arith,
  omega arith,
)

module _ (rates : List MemberRate) (overtime_map : List (ℕ × ℕ)) (tolerance now : ℕ) where
  of_shift-IsSplit : (s : Shift) → IsSplit (of_shift rates overtime_map tolerance now s)
  unfolding of_shift
  of_shift-IsSplit s =
      let one = paid-split (rate_for_moment rates s.started_at) _ _ _ in
      (split_again _ _, not_negative _ _ one.0, one.1, one.2)

  add_shifts-IsSplit :
      (acc : Sums) (shifts : List Shift)
      → IsSplit acc
      → IsSplit (add_shifts rates overtime_map tolerance now acc shifts)
  unfolding add_shifts
  add_shifts-IsSplit acc [] h = h
  add_shifts-IsSplit acc (s ∷ shifts) h =
      add_shifts-IsSplit (plus acc (of_shift rates overtime_map tolerance now s)) shifts
        (plus-IsSplit acc (of_shift rates overtime_map tolerance now s) h (of_shift-IsSplit s))

  -- Of any shifts: the base and the overtime amount add up to the gross, to the kopeck; the overtime
  -- never takes anything off; and the unpaid seconds and shifts are among those that are counted.
  pub calc_earnings-IsSplit :
      (shifts : List Shift) → IsSplit (calc_earnings rates overtime_map tolerance now shifts).sums
  unfolding calc_earnings
  calc_earnings-IsSplit shifts =
      add_shifts-IsSplit no_sums shifts (omega int_laws, omega arith, omega arith, omega arith)
