-- ===== src/Schedules/Windows.antt =====
-- What the windows of src/app/services/work_schedule.py hold of a moment.
use smenka_back.Prelude.{
  ℕ, ◌/◌, ◌≤◌, ◌<◌, ◌≡◌, refl, subst, Bool, true, false, Option, none, some, List, [], ◌∷◌, arith,
  if◌then◌else◌, Bool-cases, inl, inr, ◌⊎◌, select, In, here, there, select-In, In-select,
  leq_trans, some-injective, All, All-In,
}
use smenka_back.Calendar.{day}
use smenka_back.Access.{is_some}
use smenka_back.Schedules.{
  Zone, Window, WorkSchedule, WeeklyRule, schedule_duration, contains, ends_after, distance, choose,
  starts_later, is_nearer, latest_start, nearest, isoweekday, weekly_window_for, weekly_candidates,
  nearest_of, containing_or_else, compute_scheduled_window_with_weekly_rules,
}

-- A duration is positive and at most a day, also over midnight.
pub schedule_duration_bounds :
    (start_time end_time : ℕ)
    → start_time < day
    → end_time < day
    → (0 < schedule_duration start_time end_time) × (schedule_duration start_time end_time ≤ day)
unfolding schedule_duration
schedule_duration_bounds start_time end_time h k = ground arith

after_second :
    {x a : Window} (b : Window) {rest : List Window} → In x (a ∷ rest) → In x (a ∷ b ∷ rest)
after_second {a} b (here rest) = here (b ∷ rest)
after_second {a} b (there c i) = there a (there b i)

-- A choice by a test that decides a preorder takes one of the windows, and none of them is better.
module _ (better : Window → Window → Bool) (Le : Window → Window → Type 0)
    (same : (w : Window) → Le w w) (trans : (u v w : Window) → Le u v → Le v w → Le u w)
    (gains : (w b : Window) → better w b ≡ true → Le b w)
    (loses : (w b : Window) → better w b ≡ false → Le w b) where
  pub choose-best :
      (best : Window) (rest : List Window) → All (λ v. Le v (choose better best rest)) (best ∷ rest)
  unfolding choose
  choose-best best [] = (same best, tt)
  choose-best best (w ∷ rest) = elim (Bool-cases (better w best)) [
    | inl hit ↦
        let later = choose-best w rest in
        let e : choose better w rest ≡ choose better best (w ∷ rest) = rw hit in
        subst (λ c. All (λ v. Le v c) (best ∷ w ∷ rest)) e
          (trans best w _ (gains w best hit) later.0, later)
    | inr miss ↦
        let later = choose-best best rest in
        let e : choose better best rest ≡ choose better best (w ∷ rest) = rw miss in
        subst (λ c. All (λ v. Le v c) (best ∷ w ∷ rest)) e
          (later.0, (trans w best _ (loses w best miss) later.0, later.1))
  ]

pub choose-In :
    (better : Window → Window → Bool) (best : Window) (rest : List Window)
    → In (choose better best rest) (best ∷ rest)
unfolding choose
choose-In better best [] = here []
choose-In better best (w ∷ rest) = elim (Bool-cases (better w best)) [
  | inl hit ↦ rw hit (there best (choose-In better w rest))
  | inr miss ↦ rw miss (after_second w (choose-In better best rest))
]

abbrev StartsBefore : Window → Window → Type 0
StartsBefore v w = v.start ≤ w.start

latest-best :
    (first v : Window) (rest : List Window)
    → In v (first ∷ rest)
    → v.start ≤ (latest_start first rest).start
latest-best first v rest i =
    let best =
      choose-best starts_later StartsBefore (λ w. omega arith) (λ u v w h k. leq_trans h k)
        (λ w b h. ground arith) (λ w b h. ground arith) first rest in
    All-In (λ u. u.start ≤ (latest_start first rest).start) best i

abbrev pub AsNear : ℕ → Window → Window → Type 0
AsNear t v w = distance t w ≤ distance t v

pub nearest-best :
    (t : ℕ) (first v : Window) (rest : List Window)
    → In v (first ∷ rest)
    → AsNear t v (nearest t first rest)
nearest-best t first v rest i =
    let best =
      choose-best (is_nearer t) (AsNear t) (λ w. omega arith) (λ u v w h k. leq_trans k h)
        (λ w b h. ground arith) (λ w b h. ground arith) first rest in
    All-In (λ u. AsNear t u (nearest t first rest)) best i

-- A choice among candidates for a moment: the one that started last of those that hold the moment; if
-- there is none, one of those that end later, the nearest.
pub record Chosen (t : ℕ) (candidates : List Window) (w : Window) : Type 0 where
  pub stored : In w candidates
  pub not_over : t ≤ w.end
  pub holds :
      (v : Window)
      → In v candidates
      → contains t v ≡ true
      → (contains t w ≡ true) × (v.start ≤ w.start)
  pub comes :
      contains t w ≡ false → (v : Window) → In v candidates → ends_after t v ≡ true → AsNear t v w

abbrev pub AllOver : ℕ → List Window → Type 0
AllOver t candidates = (v : Window) → In v candidates → v.end ≤ t

module _ (t : ℕ) (candidates : List Window) where
  latest-Chosen :
      (first : Window) (rest : List Window)
      → select (contains t) candidates ≡ first ∷ rest
      → Chosen t candidates (latest_start first rest)
  latest-Chosen first rest e =
      let inside : In (latest_start first rest) (select (contains t) candidates) =
        rw e (choose-In starts_later first rest) in
      let (stored, now) = select-In (contains t) candidates inside in
      record {
        stored = stored;
        not_over = ground arith;
        holds = λ v i h.
            (now, latest-best first v rest (subst (λ l. In v l) e (In-select (contains t) i h)));
        comes = λ away. cc;
      }

  none_holds :
      select (contains t) candidates ≡ [] → (v : Window) → In v candidates → contains t v ≡ true → ⊥
  none_holds e v i h = no_row v (subst (λ l. In v l) e (In-select (contains t) i h))
    where
      no_row : (u : Window) → In u [] → ⊥
      no_row u j = elim j [ ]

  nearest-Chosen :
      (first : Window) (rest : List Window)
      → select (contains t) candidates ≡ []
      → select (ends_after t) candidates ≡ first ∷ rest
      → Chosen t candidates (nearest t first rest)
  nearest-Chosen first rest none_now e =
      let inside : In (nearest t first rest) (select (ends_after t) candidates) =
        rw e (choose-In (is_nearer t) first rest) in
      let (stored, later) = select-In (ends_after t) candidates inside in
      record {
        stored = stored;
        not_over = ground arith;
        holds = λ v i h. absurd (none_holds none_now v i h);
        comes = λ away v i h.
            nearest-best t first v rest (subst (λ l. In v l) e (In-select (ends_after t) i h));
      }

  none_later : select (ends_after t) candidates ≡ [] → (v : Window) → In v candidates → v.end ≤ t
  none_later e v i = elim (Bool-cases (ends_after t v)) [
    | inl later ↦ absurd (no_row v (subst (λ l. In v l) e (In-select (ends_after t) i later)))
    | inr over ↦ ground arith
  ]
    where
      no_row : (u : Window) → In u [] → ⊥
      no_row u j = elim j [ ]

never :
    (t : ℕ) (candidates : List Window)
    → select (contains t) candidates ≡ []
    → (v : Window) → In v candidates
    → contains t v ≡ false
never t candidates e v i = elim (Bool-cases (contains t v)) [
  | inl now ↦ absurd (none_holds t candidates e v i now)
  | inr away ↦ away
]

-- The promise with the rules of the week: a window is chosen among the days that are not off.
abbrev pub Promises : ℕ → List Window → Option (ℕ × ℕ) → Option Window → Type 0
Promises t candidates today none =
    ((v : Window) → In v candidates → contains t v ≡ false)
    × ((today ≡ none) ⊎ AllOver t candidates)
Promises t candidates today (some w) =
    Chosen t candidates w × ((contains t w ≡ true) ⊎ (is_some today ≡ true))

weekly_of :
    (t : ℕ) (candidates : List Window) (today : Option (ℕ × ℕ)) (holding coming : List Window)
    → select (contains t) candidates ≡ holding
    → select (ends_after t) candidates ≡ coming
    → Promises t candidates today
        (containing_or_else holding (if is_some today then nearest_of t coming else none))
weekly_of t candidates today (w ∷ rest) coming e k =
    let c = latest-Chosen t candidates w rest e in
    let (_, now) = select-In (contains t) candidates (rw e (choose-In starts_later w rest)) in
    (c, inl now)
weekly_of t candidates none [] coming e k = (never t candidates e, inl refl)
weekly_of t candidates (some times) [] [] e k =
    (never t candidates e, inr (none_later t candidates k))
weekly_of t candidates (some times) [] (w ∷ rest) e k =
    (nearest-Chosen t candidates w rest e k, inr refl)

-- With the rules of the week, the window for a moment is one of those of the five days around it that are
-- not days off: it holds the moment and started last, or, if none holds it and the day itself is not off,
-- ends later and is the nearest. There is none exactly if no window holds the moment and the day is off
-- or all the windows are over.
pub compute_scheduled_window_with_weekly_rules-Promises :
    (zone : Zone) (started_at : ℕ) (schedule : WorkSchedule) (rules : List WeeklyRule)
    → let date = zone.local started_at / day in
      Promises started_at
        (weekly_candidates zone schedule rules date)
        (weekly_window_for schedule rules (isoweekday date))
        (compute_scheduled_window_with_weekly_rules zone started_at schedule rules)
unfolding compute_scheduled_window_with_weekly_rules
compute_scheduled_window_with_weekly_rules-Promises zone started_at schedule rules =
    weekly_of started_at (weekly_candidates zone schedule rules (zone.local started_at / day))
      (weekly_window_for schedule rules (isoweekday (zone.local started_at / day))) _ _ refl refl

pub promised_not_over :
    (t : ℕ) (candidates : List Window) (today : Option (ℕ × ℕ)) (answer : Option Window)
    (w : Window)
    → Promises t candidates today answer
    → answer ≡ some w
    → t ≤ w.end
promised_not_over t candidates today none w p e = cc
promised_not_over t candidates today (some v) w p e =
    let same : v ≡ w = some-injective v w e in subst (λ u. t ≤ u.end) same p.0.not_over
