-- ===== src/Payroll/History/Unique.antt =====
-- The dates of a member's rates are different, in the operations of src/app/services/payroll.py.
use smenka_back.Prelude.{
  ℕ, ◌+◌, ◌≤◌, ◌≡◌, refl, subst, Bool, true, not, ◌&&◌, Option, none, some, List, [], ◌∷◌, arith,
  ◌==◌, Bool-cases, inl, inr, ◌⊎◌, find, select, update, count, leq_trans, select-count,
  count-select_le, insert-one, count-update_le, count-update_split, count_mono, update-keys, ok,
  raise_if, one_or_none, >>=-eq-ok, rate_effective_from_taken,
}
use smenka_back.Access.{is_some}
use smenka_back.Payroll.{MemberRate}
use smenka_back.Payroll.History.{
  Tables, at_date, is_other, ensure_no_rate_at, insert_rate, save_rate, remove_rate,
}

abbrev by_id : MemberRate → ℕ
by_id r = r.id

abbrev pub has_id : ℕ → MemberRate → Bool
has_id k r = r.id == k

-- Ids are a primary key, and a member has at most one rate from a date.
pub record Unique (rates : List MemberRate) : Type 0 where
  pub unique_ids : (k : ℕ) → count (has_id k) rates ≤ 1
  pub unique_dates : (member_id date : ℕ) → count (at_date member_id date) rates ≤ 1

-- The check leaves no other row from that date.
none_taken :
    (rows : List MemberRate) (taken : Option MemberRate)
    → one_or_none rows ≡ ok taken
    → raise_if (is_some taken) rate_effective_from_taken ≡ ok tt
    → rows ≡ []
none_taken [] taken e h = refl
none_taken (x ∷ []) none e h = cc
none_taken (x ∷ []) (some r) e h = cc
none_taken (x ∷ y ∷ rows) taken e h = cc

pub date_free :
    (db : Tables) (member_id date : ℕ) (exclude_id : Option ℕ)
    → ensure_no_rate_at db member_id date exclude_id ≡ ok tt
    → count (λ r. at_date member_id date r && is_other exclude_id r) db.rates ≡ 0
unfolding ensure_no_rate_at
date_free db member_id date exclude_id h =
    let (taken, e, rest) = >>=-eq-ok (one_or_none (select _ db.rates)) _ h in
    select-count _ db.rates (none_taken _ taken e rest)

module _ (db : Tables) (x : Unique db.rates) where
  pub insert-Unique :
      (r : MemberRate)
      → count (has_id r.id) db.rates ≡ 0
      → count (λ q. at_date r.member_id r.effective_from q && is_other none q) db.rates ≡ 0
      → Unique (insert_rate r db).rates
  insert-Unique r fresh free = record {
    unique_ids = λ k. insert-one (has_id k) r db.rates (x.unique_ids k) (λ t. fresh_at k t);
    unique_dates =
        λ m d. insert-one (at_date m d) r db.rates (x.unique_dates m d) (λ t. free_at m d t);
  }
    where
      fresh_at : (k : ℕ) → has_id k r ≡ true → count (has_id k) db.rates ≡ 0
      fresh_at k t = subst (λ j. count (has_id j) db.rates ≡ 0) (ground arith) fresh

      free_at : (m d : ℕ) → at_date m d r ≡ true → count (at_date m d) db.rates ≡ 0
      free_at m d t =
          let same : (q : MemberRate)
              → at_date m d q ≡ true
              → at_date r.member_id r.effective_from q && is_other none q ≡ true =
            λ q h. ground arith in
          omega (
            arith,
            free,
            count_mono (at_date m d)
                (λ q. at_date r.member_id r.effective_from q && is_other none q) db.rates same,
          )

  pub remove-Unique : (r : MemberRate) → Unique (remove_rate r db).rates
  remove-Unique r = record {
    unique_ids = λ k. leq_trans (count-select_le (has_id k) _ db.rates) (x.unique_ids k);
    unique_dates = λ m d. leq_trans (count-select_le (at_date m d) _ db.rates) (x.unique_dates m d);
  }

  -- The new date is the old one, or no other row has it.
  pub save-Unique :
      (f : MemberRate → Bool) (r r' : MemberRate)
      → find f db.rates ≡ some r
      → r'.id ≡ r.id
      → r'.member_id ≡ r.member_id
      → (r'.effective_from ≡ r.effective_from)
        ⊎ (count (λ q. at_date r.member_id r'.effective_from q && not (q.id == r.id)) db.rates ≡ 0)
      → Unique (save_rate r' db).rates
  unfolding save_rate
  save-Unique f r r' e same own moved = record {
    unique_ids = λ k. rw (update-keys by_id k r' db.rates) (x.unique_ids k);
    unique_dates = λ m d. dates m d moved;
  }
    where
      split_hit :
          (m d : ℕ)
          → at_date m d r' ≡ true
          → count (at_date m d) (update (has_id r'.id) (λ _. r') db.rates)
            ≤ count (λ q. at_date m d q && not (q.id == r'.id)) db.rates
              + count (has_id r'.id) db.rates
      split_hit m d hit = ground (arith, count-update_split by_id (at_date m d) r' db.rates)

      dates :
          (m d : ℕ)
          → (r'.effective_from ≡ r.effective_from)
            ⊎ (count (λ q. at_date r.member_id r'.effective_from q && not (q.id == r.id)) db.rates
                ≡ 0)
          → count (at_date m d) (update (has_id r'.id) (λ _. r') db.rates) ≤ 1
      dates m d (inl kept) =
          leq_trans
            (count-update_le by_id (at_date m d) f r r' db.rates e same (λ t. ground arith)
              (x.unique_ids r'.id))
            (x.unique_dates m d)
      dates m d (inr free) = elim (Bool-cases (at_date m d r')) [
        | inl hit ↦
            let others : (q : MemberRate)
                → at_date m d q && not (q.id == r'.id) ≡ true
                → at_date r.member_id r'.effective_from q && not (q.id == r.id) ≡ true =
              λ q h. ground arith in
            omega (
              arith,
              free,
              x.unique_ids r'.id,
              split_hit m d hit,
              count_mono (λ q. at_date m d q && not (q.id == r'.id))
                  (λ q. at_date r.member_id r'.effective_from q && not (q.id == r.id)) db.rates
                  others,
            )
        | inr miss ↦
            leq_trans
              (count-update_le by_id (at_date m d) f r r' db.rates e same (λ t. cc)
                (x.unique_ids r'.id))
              (x.unique_dates m d)
      ]
