-- ===== src/Payroll/Adding.antt =====
-- The laws of adding the sums of src/app/services/payroll.py.
use smenka_back.Prelude.{
  ℕ, ◌+◌, ◌≡◌, refl, sym, ap, ◌∙◌, List, [], ◌∷◌, ◌++◌, ℤ, pos, ◌+ℤ◌, int_laws, arith,
}
use smenka_back.Shifts.{Shift}
use smenka_back.Payroll.{MemberRate, Sums, no_sums, plus, of_shift, add_shifts}

+ℤ_comm : (a b : ℤ) → a +ℤ b ≡ b +ℤ a
+ℤ_comm a b = omega int_laws

+ℤ_assoc : (a b c : ℤ) → a +ℤ b +ℤ c ≡ a +ℤ (b +ℤ c)
+ℤ_assoc a b c = omega int_laws

+ℤ_zero : (a : ℤ) → a +ℤ pos 0 ≡ a
+ℤ_zero a = omega int_laws

add_comm : (a b : ℕ) → a + b ≡ b + a
add_comm a b = omega arith

add_assoc : (a b c : ℕ) → a + b + c ≡ a + (b + c)
add_assoc a b c = omega arith

add_zero : (a : ℕ) → a + 0 ≡ a
add_zero a = omega arith

-- Sums are equal field by field.
Sums_ext :
    (a b : Sums)
    → a.worked_seconds ≡ b.worked_seconds
    → a.overtime_seconds ≡ b.overtime_seconds
    → a.shifts_count ≡ b.shifts_count
    → a.gross_amount_minor ≡ b.gross_amount_minor
    → a.base_amount_minor ≡ b.base_amount_minor
    → a.overtime_amount_minor ≡ b.overtime_amount_minor
    → a.unpaid_seconds ≡ b.unpaid_seconds
    → a.unpaid_shifts_count ≡ b.unpaid_shifts_count
    → a.planned_seconds ≡ b.planned_seconds
    → a.planned_amount_minor ≡ b.planned_amount_minor
    → a.late_count ≡ b.late_count
    → a.late_seconds_total ≡ b.late_seconds_total
    → a ≡ b
Sums_ext a b e1 e2 e3 e4 e5 e6 e7 e8 e9 e10 e11 e12 = λ i. record {
  worked_seconds = e1 i;
  overtime_seconds = e2 i;
  shifts_count = e3 i;
  gross_amount_minor = e4 i;
  base_amount_minor = e5 i;
  overtime_amount_minor = e6 i;
  unpaid_seconds = e7 i;
  unpaid_shifts_count = e8 i;
  planned_seconds = e9 i;
  planned_amount_minor = e10 i;
  late_count = e11 i;
  late_seconds_total = e12 i;
}

pub plus_comm : (a b : Sums) → plus a b ≡ plus b a
plus_comm a b =
    Sums_ext (plus a b) (plus b a) (add_comm _ _) (add_comm _ _) (add_comm _ _) (+ℤ_comm _ _)
      (+ℤ_comm _ _) (+ℤ_comm _ _) (add_comm _ _) (add_comm _ _) (+ℤ_comm _ _) (+ℤ_comm _ _)
      (add_comm _ _) (add_comm _ _)

pub plus_assoc : (a b c : Sums) → plus (plus a b) c ≡ plus a (plus b c)
plus_assoc a b c =
    Sums_ext (plus (plus a b) c) (plus a (plus b c)) (add_assoc _ _ _) (add_assoc _ _ _)
      (add_assoc _ _ _) (+ℤ_assoc _ _ _) (+ℤ_assoc _ _ _) (+ℤ_assoc _ _ _) (add_assoc _ _ _)
      (add_assoc _ _ _) (+ℤ_assoc _ _ _) (+ℤ_assoc _ _ _) (add_assoc _ _ _) (add_assoc _ _ _)

pub plus_zero : (a : Sums) → plus a no_sums ≡ a
plus_zero a =
    Sums_ext (plus a no_sums) a (add_zero _) (add_zero _) (add_zero _) (+ℤ_zero _) (+ℤ_zero _)
      (+ℤ_zero _) (add_zero _) (add_zero _) (+ℤ_zero _) (+ℤ_zero _) (add_zero _) (add_zero _)

pub zero_plus : (a : Sums) → plus no_sums a ≡ a
zero_plus a = plus_comm no_sums a ∙ plus_zero a

-- The middle of four.
pub plus_swap : (a b c : Sums) → plus (plus a b) c ≡ plus (plus a c) b
plus_swap a b c = plus_assoc a b c ∙ ap (plus a) (plus_comm b c) ∙ sym (plus_assoc a c b)

module _ (rates : List MemberRate) (overtime_map : List (ℕ × ℕ)) (tolerance now : ℕ) where
  abbrev pub added : Sums → List Shift → Sums
  added = add_shifts rates overtime_map tolerance now

  -- The loop adds what it would make of the shifts alone.
  pub add_shifts-from :
      (acc : Sums) (shifts : List Shift) → added acc shifts ≡ plus acc (added no_sums shifts)
  unfolding add_shifts
  add_shifts-from acc [] = sym (plus_zero acc)
  add_shifts-from acc (s ∷ shifts) =
      let one = of_shift rates overtime_map tolerance now s in
      add_shifts-from (plus acc one) shifts
      ∙ plus_assoc acc one (added no_sums shifts)
      ∙ ap (plus acc) (
          sym (ap (λ x. plus x (added no_sums shifts)) (zero_plus one))
          ∙ sym (add_shifts-from (plus no_sums one) shifts))

  pub add_shifts-append :
      (acc : Sums) (xs ys : List Shift) → added acc (xs ++ ys) ≡ added (added acc xs) ys
  unfolding add_shifts
  add_shifts-append acc [] ys = refl
  add_shifts-append acc (x ∷ xs) ys =
      add_shifts-append (plus acc (of_shift rates overtime_map tolerance now x)) xs ys
