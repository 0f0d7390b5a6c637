-- ===== src/Payroll/Balance.antt =====
-- `_adjustment_fields` of src/app/services/payroll.py: amounts and numbers of operations.
use smenka_back.Prelude.{
  ℕ, ◌+◌, ◌≡◌, refl, sym, ap, ◌∙◌, Bool, true, false, List, [], ◌∷◌, ℤ, pos, ◌+ℤ◌, ◌-ℤ◌, ltb_ℤ,
  int_laws, arith, eq_of_parts, if◌then◌else◌, Bool-cases, inl, inr, length,
}
use smenka_back.Access.{is_some}
use smenka_back.Payroll.Adjustments.{
  AdjustmentRow, CategoryEntry, same_category, first_entry, count_row, add_row, by_category,
  insert_entry, sort_entries, amount_sum, accrual_sum, deduction_sum, adjustment_fields,
}

-- The amounts and the numbers of operations of some categories.
abbrev pub amount_of : List CategoryEntry → ℤ
amount_of [] = pos 0
amount_of (e ∷ rest) = e.amount_minor +ℤ amount_of rest

abbrev pub operations_of : List CategoryEntry → ℕ
operations_of [] = 0
operations_of (e ∷ rest) = e.operations + operations_of rest

first_amount :
    (row : AdjustmentRow) → (count_row row (first_entry row)).amount_minor ≡ row.amount_minor
first_amount row = elim (Bool-cases (is_some row.category_id)) [
  | inl known ↦ rw known (omega int_laws)
  | inr unknown ↦ rw unknown (omega int_laws)
]

first_operations : (row : AdjustmentRow) → (count_row row (first_entry row)).operations ≡ 1
first_operations row = elim (Bool-cases (is_some row.category_id)) [
  | inl known ↦ rw known refl
  | inr unknown ↦ rw unknown refl
]

pub move : (a b c : ℤ) → a +ℤ b +ℤ c ≡ a +ℤ c +ℤ b
move a b c = omega int_laws

pub group : (a b c : ℤ) → a +ℤ b +ℤ c ≡ a +ℤ (b +ℤ c)
group a b c = omega int_laws

pub zero_right : (a : ℤ) → a +ℤ pos 0 ≡ a
zero_right a = omega int_laws

pub zero_left : (a : ℤ) → pos 0 +ℤ a ≡ a
zero_left a = omega int_laws

amount-add_row :
    (row : AdjustmentRow) (entries : List CategoryEntry)
    → amount_of (add_row row entries) ≡ amount_of entries +ℤ row.amount_minor
unfolding add_row
amount-add_row row [] = zero_right _ ∙ first_amount row ∙ sym (zero_left row.amount_minor)
amount-add_row row (e ∷ entries) = elim (Bool-cases (same_category e.category_id row.category_id)) [
  | inl hit ↦ rw hit (move e.amount_minor row.amount_minor (amount_of entries))
  | inr miss ↦
      rw (miss, amount-add_row row entries)
        (sym (group e.amount_minor (amount_of entries) row.amount_minor))
]

operations-add_row :
    (row : AdjustmentRow) (entries : List CategoryEntry)
    → operations_of (add_row row entries) ≡ operations_of entries + 1
unfolding add_row
operations-add_row row [] = omega (arith, first_operations row)
operations-add_row row (e ∷ entries) =
    elim (Bool-cases (same_category e.category_id row.category_id)) [
      | inl hit ↦ rw hit (omega arith)
      | inr miss ↦ rw miss (omega (arith, operations-add_row row entries))
    ]

amount-by_category :
    (entries : List CategoryEntry) (rows : List AdjustmentRow)
    → amount_of (by_category entries rows) ≡ amount_of entries +ℤ amount_sum rows
unfolding by_category amount_sum
amount-by_category entries [] = sym (zero_right (amount_of entries))
amount-by_category entries (row ∷ rows) =
    amount-by_category (add_row row entries) rows
    ∙ ap (λ x. x +ℤ amount_sum rows) (amount-add_row row entries)
    ∙ group (amount_of entries) row.amount_minor (amount_sum rows)

operations-by_category :
    (entries : List CategoryEntry) (rows : List AdjustmentRow)
    → operations_of (by_category entries rows) ≡ operations_of entries + length rows
unfolding by_category
operations-by_category entries [] = omega arith
operations-by_category entries (row ∷ rows) =
    omega (arith, operations-by_category (add_row row entries) rows, operations-add_row row entries)

-- Sorting keeps the amounts, the operations and whatever holds of each category.
swap : (a b c : ℤ) → a +ℤ (b +ℤ c) ≡ b +ℤ (a +ℤ c)
swap a b c = omega int_laws

not_both : (a : ℤ) → ltb_ℤ (pos 0) a ≡ true → ltb_ℤ a (pos 0) ≡ false
not_both a h = ground arith

is_zero : (a : ℤ) → ltb_ℤ (pos 0) a ≡ false → ltb_ℤ a (pos 0) ≡ false → a ≡ pos 0
is_zero a h k = eq_of_parts a (pos 0) (ground arith)

one_more :
    (a p d t : ℤ)
    → p -ℤ d ≡ t
    → (if ltb_ℤ (pos 0) a then a +ℤ p else p) -ℤ (if ltb_ℤ a (pos 0) then (pos 0 -ℤ a) +ℤ d else d)
      ≡ a +ℤ t
one_more a p d t h = elim (Bool-cases (ltb_ℤ (pos 0) a)) [
  | inl up ↦ rw (up, not_both a up, ← h) (omega int_laws)
  | inr level ↦ elim (Bool-cases (ltb_ℤ a (pos 0))) [
    | inl down ↦ rw (level, down, ← h) (omega int_laws)
    | inr flat ↦ rw (level, flat, ← h, is_zero a level flat) (omega int_laws)
  ]
]

module _ (order : CategoryEntry → CategoryEntry → Bool) where
  amount-insert :
      (e : CategoryEntry) (es : List CategoryEntry)
      → amount_of (insert_entry order e es) ≡ e.amount_minor +ℤ amount_of es
  unfolding insert_entry
  amount-insert e [] = refl
  amount-insert e (x ∷ es) = elim (Bool-cases (order e x)) [
    | inl first ↦ rw first refl
    | inr later ↦ rw (later, amount-insert e es) (swap x.amount_minor e.amount_minor (amount_of es))
  ]

  pub amount-sort : (es : List CategoryEntry) → amount_of (sort_entries order es) ≡ amount_of es
  unfolding sort_entries
  amount-sort [] = refl
  amount-sort (e ∷ es) =
      amount-insert e (sort_entries order es) ∙ ap (λ x. e.amount_minor +ℤ x) (amount-sort es)

  operations-insert :
      (e : CategoryEntry) (es : List CategoryEntry)
      → operations_of (insert_entry order e es) ≡ e.operations + operations_of es
  unfolding insert_entry
  operations-insert e [] = refl
  operations-insert e (x ∷ es) = elim (Bool-cases (order e x)) [
    | inl first ↦ rw first refl
    | inr later ↦ rw later (omega (arith, operations-insert e es))
  ]

  pub operations-sort :
      (es : List CategoryEntry) → operations_of (sort_entries order es) ≡ operations_of es
  unfolding sort_entries
  operations-sort [] = refl
  operations-sort (e ∷ es) =
      omega (arith, operations-insert e (sort_entries order es), operations-sort es)

  balance : (rows : List AdjustmentRow) → accrual_sum rows -ℤ deduction_sum rows ≡ amount_sum rows
  unfolding accrual_sum deduction_sum amount_sum
  balance [] = omega int_laws
  balance (r ∷ rows) =
      one_more r.amount_minor (accrual_sum rows) (deduction_sum rows) (amount_sum rows)
        (balance rows)

  -- The accruals less the deductions are the amount, and the amounts and the numbers of operations of
  -- the sorted categories add up to those of all the rows, whatever the order.
  pub adjustment_fields_lem :
      (rows : List AdjustmentRow)
      → let f = adjustment_fields order rows in
        (f.adjustment_accrual_minor -ℤ f.adjustment_deduction_minor ≡ f.adjustment_amount_minor)
        × (amount_of f.adjustments_by_category ≡ f.adjustment_amount_minor)
        × (operations_of f.adjustments_by_category ≡ f.adjustments_count)
  unfolding adjustment_fields
  adjustment_fields_lem rows = (
    balance rows,
    amount-sort (by_category [] rows) ∙ amount-by_category [] rows ∙ zero_left (amount_sum rows),
    operations-sort (by_category [] rows) ∙ operations-by_category [] rows ∙ omega arith,
  )
