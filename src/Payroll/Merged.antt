-- ===== src/Payroll/Merged.antt =====
-- The categories in the totals of the report of src/app/services/payroll.py.
use smenka_back.Prelude.{
  ℕ, ◌+◌, ◌≡◌, sym, ap, ◌∙◌, Bool, List, [], ◌∷◌, ℤ, pos, ◌+ℤ◌, arith, Bool-cases, inl, inr,
}
use smenka_back.Payroll.Adjustments.{
  CategoryEntry, same_category, merge_into, merge_list, merge_lists, merge_category_amounts,
}
use smenka_back.Payroll.Balance.{
  amount_of, operations_of, move, group, zero_right, zero_left, amount-sort, operations-sort,
}

-- Over the lists of all the employees.
abbrev pub all_amounts : List (List CategoryEntry) → ℤ
all_amounts [] = pos 0
all_amounts (es ∷ lists) = amount_of es +ℤ all_amounts lists

abbrev pub all_operations : List (List CategoryEntry) → ℕ
all_operations [] = 0
all_operations (es ∷ lists) = operations_of es + all_operations lists

amount-merge_into :
    (e : CategoryEntry) (merged : List CategoryEntry)
    → amount_of (merge_into e merged) ≡ amount_of merged +ℤ e.amount_minor
unfolding merge_into
amount-merge_into e [] = zero_right (pos 0 +ℤ e.amount_minor)
amount-merge_into e (x ∷ merged) = elim (Bool-cases (same_category x.category_id e.category_id)) [
  | inl hit ↦ rw hit (move x.amount_minor e.amount_minor (amount_of merged))
  | inr miss ↦
      rw (miss, amount-merge_into e merged)
        (sym (group x.amount_minor (amount_of merged) e.amount_minor))
]

operations-merge_into :
    (e : CategoryEntry) (merged : List CategoryEntry)
    → operations_of (merge_into e merged) ≡ operations_of merged + e.operations
unfolding merge_into
operations-merge_into e [] = omega arith
operations-merge_into e (x ∷ merged) =
    elim (Bool-cases (same_category x.category_id e.category_id)) [
      | inl hit ↦ rw hit (omega arith)
      | inr miss ↦ rw miss (omega (arith, operations-merge_into e merged))
    ]

amount-merge_list :
    (merged entries : List CategoryEntry)
    → amount_of (merge_list merged entries) ≡ amount_of merged +ℤ amount_of entries
unfolding merge_list
amount-merge_list merged [] = sym (zero_right (amount_of merged))
amount-merge_list merged (e ∷ entries) =
    amount-merge_list (merge_into e merged) entries
    ∙ ap (λ x. x +ℤ amount_of entries) (amount-merge_into e merged)
    ∙ group (amount_of merged) e.amount_minor (amount_of entries)

operations-merge_list :
    (merged entries : List CategoryEntry)
    → operations_of (merge_list merged entries) ≡ operations_of merged + operations_of entries
unfolding merge_list
operations-merge_list merged [] = omega arith
operations-merge_list merged (e ∷ entries) =
    omega
      (arith, operations-merge_list (merge_into e merged) entries, operations-merge_into e merged)

amount-merge_lists :
    (merged : List CategoryEntry) (lists : List (List CategoryEntry))
    → amount_of (merge_lists merged lists) ≡ amount_of merged +ℤ all_amounts lists
unfolding merge_lists
amount-merge_lists merged [] = sym (zero_right (amount_of merged))
amount-merge_lists merged (es ∷ lists) =
    amount-merge_lists (merge_list merged es) lists
    ∙ ap (λ x. x +ℤ all_amounts lists) (amount-merge_list merged es)
    ∙ group (amount_of merged) (amount_of es) (all_amounts lists)

operations-merge_lists :
    (merged : List CategoryEntry) (lists : List (List CategoryEntry))
    → operations_of (merge_lists merged lists) ≡ operations_of merged + all_operations lists
unfolding merge_lists
operations-merge_lists merged [] = omega arith
operations-merge_lists merged (es ∷ lists) =
    omega
      (arith, operations-merge_lists (merge_list merged es) lists, operations-merge_list merged es)

-- The categories of the totals have together the amounts and the numbers of operations of the
-- categories of all the employees, whatever the order.
pub merge_category_amounts_lem :
    (order : CategoryEntry → CategoryEntry → Bool) (lists : List (List CategoryEntry))
    → (amount_of (merge_category_amounts order lists) ≡ all_amounts lists)
      × (operations_of (merge_category_amounts order lists) ≡ all_operations lists)
unfolding merge_category_amounts
merge_category_amounts_lem order lists = (
  amount-sort order (merge_lists [] lists)
      ∙ amount-merge_lists [] lists
      ∙ zero_left (all_amounts lists),
  operations-sort order (merge_lists [] lists) ∙ operations-merge_lists [] lists ∙ omega arith,
)
