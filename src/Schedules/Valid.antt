-- ===== src/Schedules/Valid.antt =====
-- What holds of the schedules and the rules under any sequence of the operations of
-- src/app/services/work_schedule.py.
use smenka_back.Prelude.{
  ℕ, ◌≤◌, ◌≡◌, refl, Bool, true, false, not, ◌&&◌, ◌||◌, Option, none, some, List, [], ◌∷◌, ◌++◌,
  String, arith, leb, ◌==◌, Bool-cases, inl, inr, select, count, count-append, count-select_le,
  leq_trans, All, All-append, All-update, ok, raise_if, or_raise, >>=-Ensures, Ensures, returns,
  ensured, validation_error, schedule_invalid_time, not_raised, All-select,
}
use smenka_back.Schedules.{WorkSchedule, WeeklyRule, Zone}
use smenka_back.Schedules.Tables.{
  Tables, check_admin, get_schedule, create_schedule, ScheduleFields, save_schedule, with_fields,
  update_schedule, delete_schedule, RuleInput, bad_times, same_time, has_seen, rule_of, parse_rules,
  replace_weekly_rules,
}
use smenka_back.Schedules.Choice.{change_shift_schedule, get_org_shift, reschedule}
use smenka_back.Shifts.{Shift}

-- The start and the end are different times.
abbrev pub IsSpan : WorkSchedule → Type 0
IsSpan s = (s.start_time == s.end_time) ≡ false

-- A day off has no times, and any other day two different ones.
abbrev pub HasTimes : Bool → Option ℕ → Option ℕ → Type 0
HasTimes true (some start_time) (some end_time) = (start_time == end_time) ≡ false
HasTimes false none none = Unit {0}
HasTimes _ _ _ = ⊥

abbrev pub IsRule : WeeklyRule → Type 0
IsRule r = (1 ≤ r.weekday) × (r.weekday ≤ 7) × HasTimes r.is_enabled r.start_time r.end_time

abbrev pub rule_at : ℕ → ℕ → WeeklyRule → Bool
rule_at schedule_id weekday r = r.work_schedule_id == schedule_id && r.weekday == weekday

pub record IsValid (db : Tables) : Type 0 where
  pub spans : All IsSpan db.schedules
  pub rules : All IsRule db.rules
  pub one_rule : (schedule_id weekday : ℕ) → count (rule_at schedule_id weekday) db.rules ≤ 1

checked_times :
    (enabled : Bool) (start_time end_time : Option ℕ)
    → raise_if (bad_times enabled start_time end_time) validation_error ≡ ok tt
    → raise_if (enabled && same_time start_time end_time) validation_error ≡ ok tt
    → HasTimes enabled start_time end_time
checked_times true (some a) (some b) h k = ground arith
checked_times true (some a) none h k = cc
checked_times true none (some b) h k = cc
checked_times true none none h k = cc
checked_times false (some a) (some b) h k = cc
checked_times false (some a) none h k = cc
checked_times false none (some b) h k = cc
checked_times false none none h k = tt

abbrev Parsed : ℕ → List ℕ → List WeeklyRule → Type 0
Parsed schedule_id seen parsed =
    All IsRule parsed
    × All (λ r. r.work_schedule_id ≡ schedule_id) parsed
    × ((d : ℕ) → count (rule_at schedule_id d) parsed ≤ 1)
    × ((d : ℕ) → has_seen seen d ≡ true → count (rule_at schedule_id d) parsed ≡ 0)

one_text :
    (schedule_id : ℕ) (seen : List ℕ) (weekday : ℕ) (r : RuleInput) (rest : List WeeklyRule)
    → raise_if (has_seen seen weekday || not (leb 1 weekday && leb weekday 7)) validation_error
      ≡ ok tt
    → HasTimes r.is_enabled r.start_time r.end_time
    → Parsed schedule_id (weekday ∷ seen) rest
    → Parsed schedule_id seen (rule_of schedule_id weekday r ∷ rest)
one_text schedule_id seen weekday r rest h times (valid, own, one, absent) = (
  ((ground arith, ground arith, times), valid),
  (refl, own),
  (λ d. ground (arith, one d, absent d)),
  (λ d k. ground (arith, absent d)),
)

parse-Parsed :
    (schedule_id : ℕ) (seen : List ℕ) (inputs : List RuleInput)
    → Ensures (Parsed schedule_id seen) (parse_rules schedule_id seen inputs)
unfolding parse_rules
parse-Parsed schedule_id seen [] = returns [] (tt, tt, λ d. omega arith, λ d h. refl)
parse-Parsed schedule_id seen (r ∷ inputs) =
    >>=-Ensures (or_raise r.weekday validation_error) _ λ weekday _.
      >>=-Ensures
        (raise_if (has_seen seen weekday || not (leb 1 weekday && leb weekday 7)) validation_error)
        _
        λ _ h.
          >>=-Ensures (raise_if (bad_times r.is_enabled r.start_time r.end_time) validation_error) _
            λ _ k.
              >>=-Ensures
                (raise_if (r.is_enabled && same_time r.start_time r.end_time) validation_error) _
                λ _ l. >>=-Ensures (parse_rules schedule_id (weekday ∷ seen) inputs) _ λ rest e.
                  returns _ (
                    one_text schedule_id seen weekday r rest h (checked_times _ _ _ k l)
                      (ensured rest (parse-Parsed schedule_id (weekday ∷ seen) inputs) e))

old_gone :
    (schedule_id weekday : ℕ) (rules : List WeeklyRule)
    → count
        (rule_at schedule_id weekday)
        (select (λ r. not (r.work_schedule_id == schedule_id)) rules)
      ≡ 0
old_gone schedule_id weekday [] = refl
old_gone schedule_id weekday (r ∷ rules) = ground (arith, old_gone schedule_id weekday rules)

of_other :
    (schedule_id other weekday : ℕ) (rules : List WeeklyRule)
    → (other == schedule_id) ≡ false
    → All (λ r. r.work_schedule_id ≡ schedule_id) rules
    → count (rule_at other weekday) rules ≡ 0
of_other schedule_id other weekday [] h all = refl
of_other schedule_id other weekday (r ∷ rules) h all =
    let own : r.work_schedule_id ≡ schedule_id = all.0 in
    ground (arith, of_other schedule_id other weekday rules h all.1)

module _ (db : Tables) (x : IsValid db) where
  replaced-IsValid :
      (schedule_id : ℕ) (parsed : List WeeklyRule)
      → Parsed schedule_id [] parsed
      → IsValid (record db {
        rules = select (λ r. not (r.work_schedule_id == schedule_id)) db.rules ++ parsed;
      })
  replaced-IsValid schedule_id parsed (valid, own, one, _) = record {
    spans = x.spans;
    rules = All-append IsRule _ parsed (All-select IsRule _ db.rules x.rules) valid;
    one_rule = λ k d. at_most_one k d;
  }
    where
      at_most_one :
          (k d : ℕ)
          → count
              (rule_at k d)
              (select (λ r. not (r.work_schedule_id == schedule_id)) db.rules ++ parsed)
            ≤ 1
      at_most_one k d =
          rw (count-append (rule_at k d) _ parsed) (elim (Bool-cases (k == schedule_id)) [
            | inl own_rules ↦
                let same : k ≡ schedule_id = ground arith in
                rw same (omega (arith, one d, old_gone schedule_id d db.rules))
            | inr others ↦ omega (
              arith,
              of_other schedule_id k d parsed others own,
              x.one_rule k d,
              count-select_le (rule_at k d) (λ r. not (r.work_schedule_id == schedule_id)) db.rules,
            )
          ])

  replace-IsValid :
      (org_id schedule_id requester : ℕ) (inputs : List RuleInput) (now : ℕ)
      → Ensures
          (λ (r : Tables × List WeeklyRule). IsValid r.0)
          (replace_weekly_rules db org_id schedule_id requester inputs now)
  unfolding replace_weekly_rules
  replace-IsValid org_id schedule_id requester inputs now =
      >>=-Ensures (check_admin db.billing org_id requester now) _ λ _ _.
        >>=-Ensures (get_schedule db.schedules org_id schedule_id) _ λ s _.
          >>=-Ensures (parse_rules schedule_id [] inputs) _ λ parsed e. returns _ (
            replaced-IsValid schedule_id parsed
              (ensured parsed (parse-Parsed schedule_id [] inputs) e))

  create-IsValid :
      (org_id requester : ℕ) (name : String) (start_time end_time now schedule_id : ℕ)
      → Ensures
          (λ (r : Tables × WorkSchedule). IsValid r.0)
          (create_schedule db org_id requester name start_time end_time now schedule_id)
  unfolding create_schedule
  create-IsValid org_id requester name start_time end_time now schedule_id =
      >>=-Ensures (check_admin db.billing org_id requester now) _ λ _ _.
        >>=-Ensures (raise_if (start_time == end_time) schedule_invalid_time) _ λ _ h.
          returns _ (record {
            spans =
                All-append IsSpan db.schedules _ x.spans
                  (not_raised (start_time == end_time) schedule_invalid_time h, tt);
            rules = x.rules;
            one_rule = x.one_rule;
          })

  update-IsValid :
      (org_id schedule_id requester : ℕ) (fields : ScheduleFields) (now : ℕ)
      → Ensures
          (λ (r : Tables × WorkSchedule). IsValid r.0)
          (update_schedule db org_id schedule_id requester fields now)
  unfolding update_schedule save_schedule
  update-IsValid org_id schedule_id requester fields now =
      >>=-Ensures (check_admin db.billing org_id requester now) _ λ _ _.
        >>=-Ensures (get_schedule db.schedules org_id schedule_id) _ λ s _.
          >>=-Ensures
            (raise_if ((with_fields s fields).start_time == (with_fields s fields).end_time)
              schedule_invalid_time)
            _
            λ _ h. returns _ (record {
              spans = All-update IsSpan _ (with_fields s fields) db.schedules x.spans (
                  not_raised ((with_fields s fields).start_time == (with_fields s fields).end_time)
                    schedule_invalid_time h);
              rules = x.rules;
              one_rule = x.one_rule;
            })

  delete-IsValid :
      (org_id schedule_id requester now : ℕ)
      → Ensures IsValid (delete_schedule db org_id schedule_id requester now)
  unfolding delete_schedule
  delete-IsValid org_id schedule_id requester now =
      >>=-Ensures (check_admin db.billing org_id requester now) _ λ _ _.
        >>=-Ensures (get_schedule db.schedules org_id schedule_id) _ λ s _. returns _ (record {
          spans = All-select IsSpan _ db.schedules x.spans;
          rules = All-select IsRule _ db.rules x.rules;
          one_rule = λ k d. leq_trans (count-select_le (rule_at k d) _ db.rules) (x.one_rule k d);
        })

  change-IsValid :
      (zone : Zone) (org_id shift_id requester : ℕ) (schedule_id : Option ℕ) (now : ℕ)
      → Ensures
          (λ (r : Tables × Shift). IsValid r.0)
          (change_shift_schedule db zone org_id shift_id requester schedule_id now)
  unfolding change_shift_schedule
  change-IsValid zone org_id shift_id requester schedule_id now =
      >>=-Ensures (check_admin db.billing org_id requester now) _ λ _ _.
        >>=-Ensures (get_org_shift db.world org_id shift_id) _ λ s _.
          >>=-Ensures (reschedule db zone org_id s schedule_id) _
            λ s' _. returns _ (record { spans = x.spans; rules = x.rules; one_rule = x.one_rule })

-- A step that succeeds; a failed one is rolled back.
pub data Step (db : Tables) : Tables → Type 0 where
  creates :
      (org_id requester : ℕ) (name : String) (start_time end_time now schedule_id : ℕ)
      (db' : Tables) (s : WorkSchedule)
      → create_schedule db org_id requester name start_time end_time now schedule_id ≡ ok (db', s)
      → Step db db'
  updates :
      (org_id schedule_id requester : ℕ) (fields : ScheduleFields) (now : ℕ) (db' : Tables)
      (s : WorkSchedule)
      → update_schedule db org_id schedule_id requester fields now ≡ ok (db', s)
      → Step db db'
  deletes :
      (org_id schedule_id requester now : ℕ) (db' : Tables)
      → delete_schedule db org_id schedule_id requester now ≡ ok db'
      → Step db db'
  replaces :
      (org_id schedule_id requester : ℕ) (inputs : List RuleInput) (now : ℕ) (db' : Tables)
      (parsed : List WeeklyRule)
      → replace_weekly_rules db org_id schedule_id requester inputs now ≡ ok (db', parsed)
      → Step db db'
  reschedules :
      (zone : Zone) (org_id shift_id requester : ℕ) (schedule_id : Option ℕ) (now : ℕ)
      (db' : Tables) (s : Shift)
      → change_shift_schedule db zone org_id shift_id requester schedule_id now ≡ ok (db', s)
      → Step db db'

pub data Reach (db : Tables) : Tables → Type 0 where
  start : Reach db db
  next : {mid end : Tables} → Reach db mid → Step mid end → Reach db end

Step-IsValid : {db db' : Tables} → Step db db' → IsValid db → IsValid db'
Step-IsValid {db} (creates o u name a b now k db' s e) x =
    ensured (db', s) (create-IsValid db x o u name a b now k) e
Step-IsValid {db} (updates o k u fields now db' s e) x =
    ensured (db', s) (update-IsValid db x o k u fields now) e
Step-IsValid {db} (deletes o k u now db' e) x = ensured db' (delete-IsValid db x o k u now) e
Step-IsValid {db} (replaces o k u inputs now db' parsed e) x =
    ensured (db', parsed) (replace-IsValid db x o k u inputs now) e
Step-IsValid {db} (reschedules zone o k u schedule_id now db' s e) x =
    ensured (db', s) (change-IsValid db x zone o k u schedule_id now) e

-- Whatever operations are made, in whatever order: a schedule's start and end differ; a rule is for a weekday
-- from 1 to 7 and has two different times, or none if the day is off; a schedule has at most one rule for
-- a weekday; if it was so at the start.
pub Reach-IsValid : {db db' : Tables} → Reach db db' → IsValid db → IsValid db'
Reach-IsValid start x = x
Reach-IsValid (next before step) x = Step-IsValid step (Reach-IsValid before x)
