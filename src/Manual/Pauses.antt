-- ===== src/Manual/Pauses.antt =====
-- The pauses that src/app/services/manual_shift.py accepts, and the time that is then worked.
use smenka_back.Prelude.{
  ℕ, ◌+◌, ◌-◌, ◌/◌, ◌≤◌, ◌<◌, ◌≡◌, refl, false, not, ◌||◌, Option, none, some, List, [], ◌∷◌, map,
  ℤ, pos, sub_ℕ, ◌-ℤ◌, pos_part, neg_part, eq_of_parts, -ℤ_parts, arith, ltb, leb, Bool-cases, inl,
  inr, All, Result, ok, raise_if, not_raised, >>=-eq-ok, >>=-Ensures, Ensures, returns, ensured,
  validation_error, raises,
}
use smenka_back.Calendar.{second}
use smenka_back.Shifts.{Shift}
use smenka_back.Shifts.Clock.{minus_pauses, whole_seconds, calculate_worked_seconds}
use smenka_back.Schedules.{Zone}
use smenka_back.Manual.{
  State, max_shift_duration, get_member_by_user, resolve_location, resolve_manual_schedule,
  PauseInput, pause_of, clock_skew,
}
use smenka_back.Manual.Intervals.{
  validate_interval, check_overlap, insert_pause, sort_pauses, is_before, check_pauses,
  validate_pauses,
}
use smenka_back.Manual.Edits.{check_access, NewShift, entered, create_manual_shift}

abbrev pub span : PauseInput → ℕ
span p = p.finished_at - p.started_at

abbrev pub pause_total : List PauseInput → ℕ
pause_total [] = 0
pause_total (p ∷ ps) = span p + pause_total ps

abbrev pub NotBefore : Option ℕ → ℕ → Type 0
NotBefore none t = Unit {0}
NotBefore (some end) t = end ≤ t

-- Pauses that follow one another inside an interval, each with an end after its start.
abbrev pub Follows : ℕ → ℕ → Option ℕ → List PauseInput → Type 0
Follows from until prev_end [] = Unit {0}
Follows from until prev_end (p ∷ ps) =
    NotBefore prev_end p.started_at
    × (from ≤ p.started_at)
    × (p.started_at < p.finished_at)
    × (p.finished_at ≤ until)
    × Follows from until (some p.finished_at) ps

not_before :
    (prev_end : Option ℕ) (t : ℕ)
    → raise_if (not (is_before prev_end t)) validation_error ≡ ok tt
    → NotBefore prev_end t
not_before none t h = tt
not_before (some end) t h = ground arith

module _ (from until : ℕ) where
  check-Follows :
      (ps : List PauseInput) (prev_end : Option ℕ) (total : ℕ)
      → Ensures
          (λ (r : ℕ). Follows from until prev_end ps × (r ≡ total + pause_total ps))
          (check_pauses from until prev_end total ps)
  unfolding check_pauses
  check-Follows [] prev_end total = returns total (tt, omega arith)
  check-Follows (p ∷ ps) prev_end total =
      >>=-Ensures (raise_if (leb p.finished_at p.started_at) validation_error) _ λ _ h.
        >>=-Ensures (raise_if (ltb p.started_at from || ltb until p.finished_at) validation_error) _
          λ _ k.
            >>=-Ensures (raise_if (not (is_before prev_end p.started_at)) validation_error) _ λ _ b.
              widen p ps prev_end total h k b _
                (check-Follows ps (some p.finished_at) (total + span p))
    where
      widen :
          (p : PauseInput) (ps : List PauseInput) (prev_end : Option ℕ) (total : ℕ)
          → raise_if (leb p.finished_at p.started_at) validation_error ≡ ok tt
          → raise_if (ltb p.started_at from || ltb until p.finished_at) validation_error ≡ ok tt
          → raise_if (not (is_before prev_end p.started_at)) validation_error ≡ ok tt
          → (r : Result ℕ)
          → Ensures
              (λ (r : ℕ).
                Follows from until (some p.finished_at) ps × (r ≡ total + span p + pause_total ps))
              r
          → Ensures
              (λ (r : ℕ). Follows from until prev_end (p ∷ ps) × (r ≡ total + pause_total (p ∷ ps)))
              r
      widen p ps prev_end total h k b r (returns a (f, e)) = returns a (
        (not_before prev_end p.started_at b, ground arith, ground arith, ground arith, f),
        omega (arith, e),
      )
      widen p ps prev_end total h k b r (raises e) = raises e

pause_total-insert :
    (p : PauseInput) (ps : List PauseInput)
    → pause_total (insert_pause p ps) ≡ span p + pause_total ps
unfolding insert_pause
pause_total-insert p [] = refl
pause_total-insert p (q ∷ ps) = ground (arith, pause_total-insert p ps)

pause_total-sort : (ps : List PauseInput) → pause_total (sort_pauses ps) ≡ pause_total ps
unfolding sort_pauses
pause_total-sort [] = refl
pause_total-sort (p ∷ ps) =
    omega (arith, pause_total-insert p (sort_pauses ps), pause_total-sort ps)

abbrev InOrder : PauseInput → Type 0
InOrder p = p.started_at ≤ p.finished_at

insert-InOrder :
    (p : PauseInput) (ps : List PauseInput)
    → All InOrder (insert_pause p ps)
    → InOrder p × All InOrder ps
unfolding insert_pause
insert-InOrder p [] all = all
insert-InOrder p (q ∷ ps) all = elim (Bool-cases (leb p.started_at q.started_at)) [
  | inl first ↦ let both : All InOrder (p ∷ q ∷ ps) = rw first at all in both
  | inr later ↦
      let both : All InOrder (q ∷ insert_pause p ps) = rw later at all in
      let rest = insert-InOrder p ps both.1 in (rest.0, (both.0, rest.1))
]

sort-InOrder : (ps : List PauseInput) → All InOrder (sort_pauses ps) → All InOrder ps
unfolding sort_pauses
sort-InOrder [] all = tt
sort-InOrder (p ∷ ps) all =
    let both = insert-InOrder p (sort_pauses ps) all in (both.0, sort-InOrder ps both.1)

Follows-InOrder :
    (from until : ℕ) (prev_end : Option ℕ) (ps : List PauseInput)
    → Follows from until prev_end ps
    → All InOrder ps
Follows-InOrder from until prev_end [] f = tt
Follows-InOrder from until prev_end (p ∷ ps) (_, _, lt, _, f) =
    (omega (arith, lt), Follows-InOrder from until (some p.finished_at) ps f)

minus_total :
    (ps : List PauseInput) (now : ℕ) (t : ℤ)
    → All InOrder ps
    → pos_part (minus_pauses (map pause_of ps) now t) + neg_part t + pause_total ps
      ≡ neg_part (minus_pauses (map pause_of ps) now t) + pos_part t
unfolding minus_pauses
minus_total [] now t all = omega arith
minus_total (p ∷ ps) now t all = omega (
  arith,
  minus_total ps now (t -ℤ sub_ℕ p.finished_at p.started_at) all.1,
  -ℤ_parts t (sub_ℕ p.finished_at p.started_at),
  ordered_parts p.finished_at p.started_at all.0,
)
  where
    ordered_parts :
        (end from : ℕ)
        → from ≤ end
        → (pos_part (sub_ℕ end from) ≡ end - from) × (neg_part (sub_ℕ end from) ≡ 0)
    ordered_parts end from h = ground arith

-- What a validated list of pauses leaves of an interval.
validated :
    (ps : List PauseInput) (from until : ℕ)
    → validate_pauses ps from until ≡ ok tt
    → Follows from until none (sort_pauses ps) × (pause_total ps < until - from)
unfolding validate_pauses
validated ps from until h =
    let (total, e, rest) = >>=-eq-ok (check_pauses from until none 0 (sort_pauses ps)) _ h in
    let (follows, sum) = ensured total (check-Follows from until (sort_pauses ps) none 0) e in
    let short : leb (until - from) total ≡ false = not_raised _ validation_error rest in
    (follows, ground (arith, pause_total-sort ps))

whole_left :
    (r : ℤ) (n k : ℕ) → pos_part r + k ≡ neg_part r + n → k < n → whole_seconds r ≡ (n - k) / second
whole_left r n k e h =
    let same : r ≡ pos (n - k) = eq_of_parts r (pos (n - k)) (omega (arith, e, h)) in rw same

worked_left :
    (s : Shift) (ps : List PauseInput) (from until later : ℕ)
    → s.started_at ≡ from
    → s.finished_at ≡ some until
    → s.pauses ≡ map pause_of ps
    → All InOrder ps
    → pause_total ps < until - from
    → calculate_worked_seconds s later ≡ (until - from - pause_total ps) / second
unfolding calculate_worked_seconds
worked_left s ps from until later e k l all short =
    rw (e, k, l)
      (whole_left (minus_pauses (map pause_of ps) later (sub_ℕ until from)) (until - from)
        (pause_total ps) (left _ (minus_total ps later (sub_ℕ until from) all)) short)
  where
    left :
        (r : ℤ)
        → pos_part r + neg_part (sub_ℕ until from) + pause_total ps
          ≡ neg_part r + pos_part (sub_ℕ until from)
        → pos_part r + pause_total ps ≡ neg_part r + (until - from)
    left r h = ground arith

-- A shift as it was entered.
pub record Entered (body : NewShift) (now : ℕ) (s : Shift) : Type 0 where
  pub in_order : body.started_at < body.finished_at
  pub within_limit : body.finished_at - body.started_at ≤ max_shift_duration
  pub not_future : body.finished_at ≤ now + clock_skew
  pub follows : Follows body.started_at body.finished_at none (sort_pauses body.pauses)
  pub shorter : pause_total body.pauses < body.finished_at - body.started_at
  pub worked :
      (later : ℕ)
      → calculate_worked_seconds s later
        ≡ (body.finished_at - body.started_at - pause_total body.pauses) / second

interval_bounds :
    (from until now : ℕ)
    → validate_interval from until now ≡ ok tt
    → (from < until) × (until - from ≤ max_shift_duration) × (until ≤ now + clock_skew)
unfolding validate_interval
interval_bounds from until now h = (ground arith, ground arith, ground arith)

created-Entered :
    (body : NewShift) (now : ℕ) (s : Shift)
    → s.started_at ≡ body.started_at
    → s.finished_at ≡ some body.finished_at
    → s.pauses ≡ map pause_of body.pauses
    → validate_interval body.started_at body.finished_at now ≡ ok tt
    → validate_pauses body.pauses body.started_at body.finished_at ≡ ok tt
    → Entered body now s
created-Entered body now s e k l h v =
    let (lt, le, past) = interval_bounds body.started_at body.finished_at now h in
    let (follows, short) = validated body.pauses body.started_at body.finished_at v in
    let order =
      sort-InOrder body.pauses
        (Follows-InOrder body.started_at body.finished_at none (sort_pauses body.pauses) follows) in
    record {
      in_order = lt;
      within_limit = le;
      not_future = past;
      follows = follows;
      shorter = short;
      worked = λ later.
          worked_left s body.pauses body.started_at body.finished_at later e k l order short;
    }

create-Entered :
    (st : State) (zone : Zone) (org_id requester : ℕ) (body : NewShift) (now shift_id : ℕ)
    → Ensures
        (λ (r : State × Shift). Entered body now r.1)
        (create_manual_shift st zone org_id requester body now shift_id)
unfolding create_manual_shift
create-Entered st zone org_id requester body now shift_id =
    >>=-Ensures (check_access st.tables.billing org_id requester now) _ λ _ _.
      >>=-Ensures (get_member_by_user st.tables.billing.directory org_id body.user_id) _ λ _ _.
        >>=-Ensures (validate_interval body.started_at body.finished_at now) _ λ _ h.
          >>=-Ensures (validate_pauses body.pauses body.started_at body.finished_at) _ λ _ v.
            >>=-Ensures (resolve_location st.tables.billing.directory org_id body.work_location_id)
              _
              λ location _.
                >>=-Ensures
                  (check_overlap st.tables.world org_id body.user_id body.started_at
                    body.finished_at none)
                  _
                  λ _ _.
                    >>=-Ensures
                      (resolve_manual_schedule st.tables zone org_id body.started_at
                        body.work_schedule_id)
                      _
                      λ planned _. returns _ (
                        created-Entered body now
                          (entered shift_id org_id requester body location planned) refl refl refl h
                          v)

-- A shift that is entered by hand ends after it starts, lasts at most 48 hours and ends at most a minute in
-- the future. Its pauses, sorted, follow one another inside it and end after they start. The worked seconds,
-- whenever they are asked for, are those of its length less all the pauses, which is positive.
pub create_manual_shift-Entered :
    (st : State) (zone : Zone) (org_id requester : ℕ) (body : NewShift) (now shift_id : ℕ)
    (st' : State) (s : Shift)
    → create_manual_shift st zone org_id requester body now shift_id ≡ ok (st', s)
    → Entered body now s
create_manual_shift-Entered st zone org_id requester body now shift_id st' s e =
    ensured (st', s) (create-Entered st zone org_id requester body now shift_id) e
