-- ===== src/Payroll/Adjustments.antt =====
-- `_adjustment_fields` and `_merge_category_amounts` of src/app/services/payroll.py. The order of the
-- categories (by name, deletion, creation and id) is an argument.
use smenka_back.Prelude.{
  ℕ, ◌+◌, Bool, true, false, Option, none, some, List, [], ◌∷◌, String, ℤ, pos, ◌+ℤ◌, ◌-ℤ◌, ltb_ℤ,
  ◌==◌, if◌then◌else◌, length,
}
use smenka_back.Access.{is_some}

-- One operation: an accrual is positive, a deduction negative.
pub record AdjustmentRow : Type 0 where
  pub category_id : Option ℕ
  pub category_name : Option String
  pub category_is_deleted : Bool
  pub amount_minor : ℤ

pub record CategoryEntry : Type 0 where
  pub category_id : Option ℕ
  pub category_name : Option String
  pub category_is_deleted : Bool
  pub amount_minor : ℤ
  pub accrual_minor : ℤ
  pub deduction_minor : ℤ
  pub operations : ℕ

abbrev pub same_category : Option ℕ → Option ℕ → Bool
same_category none none = true
same_category (some a) (some b) = a == b
same_category _ _ = false

abbrev pub empty_category_entry : Option ℕ → Option String → Bool → CategoryEntry
empty_category_entry id name is_deleted = record {
  category_id = id;
  category_name = name;
  category_is_deleted = is_deleted;
  amount_minor = pos 0;
  accrual_minor = pos 0;
  deduction_minor = pos 0;
  operations = 0;
}

-- The entry of a category that no row has named yet.
abbrev pub first_entry : AdjustmentRow → CategoryEntry
first_entry row =
    if is_some row.category_id
    then empty_category_entry row.category_id row.category_name row.category_is_deleted
    else empty_category_entry none none false

-- A row added to an entry.
abbrev pub count_row : AdjustmentRow → CategoryEntry → CategoryEntry
count_row row acc = record acc {
  amount_minor = acc.amount_minor +ℤ row.amount_minor;
  accrual_minor =
      if ltb_ℤ (pos 0) row.amount_minor
      then acc.accrual_minor +ℤ row.amount_minor
      else acc.accrual_minor;
  deduction_minor =
      if ltb_ℤ (pos 0) row.amount_minor
      then acc.deduction_minor
      else acc.deduction_minor +ℤ (pos 0 -ℤ row.amount_minor);
  operations = acc.operations + 1;
}

-- The turn of the loop: `by_category.setdefault`, and the row added.
unfoldable pub add_row : AdjustmentRow → List CategoryEntry → List CategoryEntry
add_row row [] = count_row row (first_entry row) ∷ []
add_row row (acc ∷ rest) =
    let later = add_row row rest in
    if same_category acc.category_id row.category_id then count_row row acc ∷ rest else acc ∷ later

unfoldable pub by_category : List CategoryEntry → List AdjustmentRow → List CategoryEntry
by_category entries [] = entries
by_category entries (row ∷ rows) = by_category (add_row row entries) rows

unfoldable pub insert_entry :
    (CategoryEntry → CategoryEntry → Bool) → CategoryEntry → List CategoryEntry → List CategoryEntry
insert_entry order e [] = e ∷ []
insert_entry order e (x ∷ rest) =
    let later = insert_entry order e rest in if order e x then e ∷ x ∷ rest else x ∷ later

unfoldable pub sort_entries :
    (CategoryEntry → CategoryEntry → Bool) → List CategoryEntry → List CategoryEntry
sort_entries order [] = []
sort_entries order (e ∷ rest) = insert_entry order e (sort_entries order rest)

unfoldable pub amount_sum : List AdjustmentRow → ℤ
amount_sum [] = pos 0
amount_sum (r ∷ rows) = r.amount_minor +ℤ amount_sum rows

-- `sum(r.amount_minor for r in rows if r.amount_minor > 0)`
unfoldable pub accrual_sum : List AdjustmentRow → ℤ
accrual_sum [] = pos 0
accrual_sum (r ∷ rows) =
    let rest = accrual_sum rows in
    if ltb_ℤ (pos 0) r.amount_minor then r.amount_minor +ℤ rest else rest

-- `sum(-r.amount_minor for r in rows if r.amount_minor < 0)`
unfoldable pub deduction_sum : List AdjustmentRow → ℤ
deduction_sum [] = pos 0
deduction_sum (r ∷ rows) =
    let rest = deduction_sum rows in
    if ltb_ℤ r.amount_minor (pos 0) then (pos 0 -ℤ r.amount_minor) +ℤ rest else rest

pub record AdjustmentFields : Type 0 where
  pub adjustment_amount_minor : ℤ
  pub adjustment_accrual_minor : ℤ
  pub adjustment_deduction_minor : ℤ
  pub adjustments_count : ℕ
  pub adjustments_by_category : List CategoryEntry

unfoldable pub adjustment_fields :
    (CategoryEntry → CategoryEntry → Bool) → List AdjustmentRow → AdjustmentFields
adjustment_fields order rows = record {
  adjustment_amount_minor = amount_sum rows;
  adjustment_accrual_minor = accrual_sum rows;
  adjustment_deduction_minor = deduction_sum rows;
  adjustments_count = length rows;
  adjustments_by_category = sort_entries order (by_category [] rows);
}

-- An entry of one employee added to the totals.
abbrev pub merge_entry : CategoryEntry → CategoryEntry → CategoryEntry
merge_entry e acc = record acc {
  amount_minor = acc.amount_minor +ℤ e.amount_minor;
  accrual_minor = acc.accrual_minor +ℤ e.accrual_minor;
  deduction_minor = acc.deduction_minor +ℤ e.deduction_minor;
  operations = acc.operations + e.operations;
}

unfoldable pub merge_into : CategoryEntry → List CategoryEntry → List CategoryEntry
merge_into e [] =
    merge_entry e (empty_category_entry e.category_id e.category_name e.category_is_deleted) ∷ []
merge_into e (acc ∷ rest) =
    let later = merge_into e rest in
    if same_category acc.category_id e.category_id then merge_entry e acc ∷ rest else acc ∷ later

unfoldable pub merge_list : List CategoryEntry → List CategoryEntry → List CategoryEntry
merge_list merged [] = merged
merge_list merged (e ∷ entries) = merge_list (merge_into e merged) entries

unfoldable pub merge_lists : List CategoryEntry → List (List CategoryEntry) → List CategoryEntry
merge_lists merged [] = merged
merge_lists merged (entries ∷ lists) = merge_lists (merge_list merged entries) lists

unfoldable pub merge_category_amounts :
    (CategoryEntry → CategoryEntry → Bool) → List (List CategoryEntry) → List CategoryEntry
merge_category_amounts order lists = sort_entries order (merge_lists [] lists)
