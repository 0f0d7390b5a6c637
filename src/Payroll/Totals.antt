-- ===== src/Payroll/Totals.antt =====
-- `_build_breakdown` and `_calc_earnings` of src/app/services/payroll.py compared.
use smenka_back.Prelude.{
  ℕ, ◌+◌, ◌/◌, ◌≡◌, refl, sym, ap, ◌∙◌, ◌||◌, List, [], ◌∷◌, ◌++◌, ◌-ℤ◌, arith, ltb, leb, ◌==◌,
  Bool-cases, inl, inr, All,
}
use smenka_back.Calendar.{day}
use smenka_back.Shifts.{Shift}
use smenka_back.Payroll.{
  MemberRate, Sums, no_sums, plus, Earnings, of_shift, add_shifts, calc_earnings,
}
use smenka_back.Payroll.Breakdown.{
  Granularity, bucket_start, append_to, group_by_day, Bucket, add_day, insert_bucket, sort_buckets,
  total, any_missing, add_days, build_breakdown,
}
use smenka_back.Payroll.Adding.{
  plus_comm, plus_assoc, plus_zero, zero_plus, plus_swap, added, add_shifts-append,
}

total-insert : (b : Bucket) (bs : List Bucket) → total (insert_bucket b bs) ≡ plus b.sums (total bs)
unfolding total insert_bucket
total-insert b [] = refl
total-insert b (c ∷ bs) = elim (Bool-cases (leb b.start c.start)) [
  | inl first ↦ rw first refl
  | inr later ↦
      rw (later, total-insert b bs)
        (sym (plus_assoc c.sums b.sums (total bs))
          ∙ ap (λ x. plus x (total bs)) (plus_comm c.sums b.sums)
          ∙ plus_assoc b.sums c.sums (total bs))
]

-- Sorting keeps the sums.
total-sort_buckets : (bs : List Bucket) → total (sort_buckets bs) ≡ total bs
unfolding total sort_buckets
total-sort_buckets [] = refl
total-sort_buckets (b ∷ bs) =
    total-insert b (sort_buckets bs) ∙ ap (plus b.sums) (total-sort_buckets bs)

total-add_day :
    (k : ℕ) (daily : Earnings) (bs : List Bucket)
    → total (add_day k daily bs) ≡ plus (total bs) daily.sums
unfolding total add_day
total-add_day k daily [] = plus_zero (plus no_sums daily.sums)
total-add_day k daily (b ∷ bs) = elim (Bool-cases (b.start == k)) [
  | inl hit ↦ rw hit (plus_swap b.sums daily.sums (total bs))
  | inr miss ↦ rw (miss, total-add_day k daily bs) (sym (plus_assoc b.sums (total bs) daily.sums))
]

-- A bucket lacks a rate if one of its shifts is unpaid.
abbrev pub IsMarked : Bucket → Type 0
IsMarked b = b.has_missing_rate ≡ ltb 0 b.sums.unpaid_shifts_count

either_unpaid : (a b : ℕ) → (ltb 0 a || ltb 0 b) ≡ ltb 0 (a + b)
either_unpaid a b = ground arith

any_missing-total :
    (bs : List Bucket) → All IsMarked bs → any_missing bs ≡ ltb 0 (total bs).unpaid_shifts_count
unfolding any_missing total
any_missing-total [] h = refl
any_missing-total (b ∷ bs) h =
    rw (h.0, any_missing-total bs h.1) (either_unpaid b.sums.unpaid_shifts_count _)

add_day-IsMarked :
    (k : ℕ) (daily : Earnings) (bs : List Bucket)
    → daily.has_missing_rate ≡ ltb 0 daily.sums.unpaid_shifts_count
    → All IsMarked bs
    → All IsMarked (add_day k daily bs)
unfolding add_day
add_day-IsMarked k daily [] e h = (rw e (either_unpaid 0 daily.sums.unpaid_shifts_count), tt)
add_day-IsMarked k daily (b ∷ bs) e h = elim (Bool-cases (b.start == k)) [
  | inl hit ↦
      rw hit
        (rw (h.0, e) (either_unpaid b.sums.unpaid_shifts_count daily.sums.unpaid_shifts_count), h.1)
  | inr miss ↦ rw miss (h.0, add_day-IsMarked k daily bs e h.1)
]

module _ (rates : List MemberRate) (overtime_map : List (ℕ × ℕ)) (tolerance now : ℕ) where
  abbrev sums_of : List Shift → Sums
  sums_of = added rates overtime_map tolerance now no_sums

  abbrev total_days : List (ℕ × List Shift) → Sums
  total_days [] = no_sums
  total_days ((d, group) ∷ days) = plus (sums_of group) (total_days days)

  sums-append :
      (group : List Shift) (s : Shift)
      → sums_of (group ++ s ∷ [])
        ≡ plus (sums_of group) (of_shift rates overtime_map tolerance now s)
  unfolding add_shifts
  sums-append group s = add_shifts-append rates overtime_map tolerance now no_sums group (s ∷ [])

  sums-one : (s : Shift) → sums_of (s ∷ []) ≡ of_shift rates overtime_map tolerance now s
  unfolding add_shifts
  sums-one s = zero_plus (of_shift rates overtime_map tolerance now s)

  total-append_to :
      (d : ℕ) (s : Shift) (days : List (ℕ × List Shift))
      → total_days (append_to d s days)
        ≡ plus (total_days days) (of_shift rates overtime_map tolerance now s)
  unfolding append_to
  total-append_to d s [] =
      plus_zero (sums_of (s ∷ []))
      ∙ sums-one s
      ∙ sym (zero_plus (of_shift rates overtime_map tolerance now s))
  total-append_to d s ((k, group) ∷ days) = elim (Bool-cases (k == d)) [
    | inl hit ↦
        rw (hit, sums-append group s)
          (plus_swap (sums_of group) (of_shift rates overtime_map tolerance now s)
            (total_days days))
    | inr miss ↦
        rw (miss, total-append_to d s days)
          (sym (
            plus_assoc (sums_of group) (total_days days)
              (of_shift rates overtime_map tolerance now s)))
  ]

  -- Grouping by the day keeps the sums, whatever the zone.
  total-group_by_day :
      (local : ℕ → ℕ) (days : List (ℕ × List Shift)) (shifts : List Shift)
      → total_days (group_by_day local days shifts)
        ≡ added rates overtime_map tolerance now (total_days days) shifts
  unfolding group_by_day add_shifts
  total-group_by_day local days [] = refl
  total-group_by_day local days (s ∷ shifts) =
      total-group_by_day local (append_to (local s.started_at / day) s days) shifts
      ∙ ap (λ x. added rates overtime_map tolerance now x shifts)
          (total-append_to (local s.started_at / day) s days)

  total-add_days :
      (g : Granularity) (bs : List Bucket) (days : List (ℕ × List Shift))
      → total (add_days rates overtime_map tolerance now g bs days)
        ≡ plus (total bs) (total_days days)
  unfolding add_days calc_earnings
  total-add_days g bs [] = sym (plus_zero (total bs))
  total-add_days g bs ((d, group) ∷ days) =
      let daily = calc_earnings rates overtime_map tolerance now group in
      total-add_days g (add_day (bucket_start g d) daily bs) days
      ∙ ap (λ x. plus x (total_days days)) (total-add_day (bucket_start g d) daily bs)
      ∙ plus_assoc (total bs) (sums_of group) (total_days days)

  calc_earnings-marked :
      (group : List Shift)
      → (calc_earnings rates overtime_map tolerance now group).has_missing_rate
        ≡ ltb 0 (calc_earnings rates overtime_map tolerance now group).sums.unpaid_shifts_count
  unfolding calc_earnings
  calc_earnings-marked group = refl

  add_days-IsMarked :
      (g : Granularity) (bs : List Bucket) (days : List (ℕ × List Shift))
      → All IsMarked bs
      → All IsMarked (add_days rates overtime_map tolerance now g bs days)
  unfolding add_days
  add_days-IsMarked g bs [] h = h
  add_days-IsMarked g bs ((d, group) ∷ days) h =
      add_days-IsMarked g
        (add_day (bucket_start g d) (calc_earnings rates overtime_map tolerance now group) bs) days
        (add_day-IsMarked (bucket_start g d) (calc_earnings rates overtime_map tolerance now group)
          bs (calc_earnings-marked group) h)

  days_total :
      (local : ℕ → ℕ) (g : Granularity) (shifts : List Shift)
      → total (add_days rates overtime_map tolerance now g [] (group_by_day local [] shifts))
        ≡ sums_of shifts
  unfolding total
  days_total local g shifts =
      total-add_days g [] (group_by_day local [] shifts)
      ∙ zero_plus (total_days (group_by_day local [] shifts))
      ∙ total-group_by_day local [] shifts

  Earnings_ext :
      (a b : Earnings)
      → a.sums ≡ b.sums
      → a.has_missing_rate ≡ b.has_missing_rate
      → a.delta_amount_minor ≡ b.delta_amount_minor
      → a ≡ b
  Earnings_ext a b es em ed =
      λ i. record { sums = es i; has_missing_rate = em i; delta_amount_minor = ed i }

  -- Whatever the zone and the granularity, the aggregate of the breakdown is the report that is made of
  -- all the shifts at once, and the sums of the sorted buckets add up to the same.
  pub build_breakdown-calc_earnings :
      (local : ℕ → ℕ) (g : Granularity) (shifts : List Shift)
      → ((build_breakdown rates overtime_map tolerance now local g shifts).1
          ≡ calc_earnings rates overtime_map tolerance now shifts)
        × (total (build_breakdown rates overtime_map tolerance now local g shifts).0
            ≡ (calc_earnings rates overtime_map tolerance now shifts).sums)
  unfolding build_breakdown calc_earnings
  build_breakdown-calc_earnings local g shifts =
      let buckets = add_days rates overtime_map tolerance now g [] (group_by_day local [] shifts) in
      let same = days_total local g shifts in
      (
        Earnings_ext _ _ same
            (any_missing-total buckets (add_days-IsMarked g [] (group_by_day local [] shifts) tt)
              ∙ ap (λ x. ltb 0 x.unpaid_shifts_count) same)
            (ap (λ x. x.gross_amount_minor -ℤ x.planned_amount_minor) same),
        total-sort_buckets buckets ∙ same,
      )
