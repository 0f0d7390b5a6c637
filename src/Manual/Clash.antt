-- ===== src/Manual/Clash.antt =====
-- When two shifts of a person in an organization overlap, and what the check of
-- src/app/services/manual_shift.py says of it.
use smenka_back.Prelude.{
  ℕ, ◌≡◌, ◌≢◌, refl, sym, ap, ◌∙◌, Bool, true, false, not, ◌&&◌, ◌||◌, Option, none, some, List, [],
  ◌∷◌, arith, ltb, ◌==◌, if◌then◌else◌, inl, inr, ◌⊎◌, find, find-In, find-passes, update, any, In,
  here, there, ok, not_raised, shift_overlap, shift_not_found, or_raise-some,
}
use smenka_back.Shifts.{Shift, World, save_shift}
use smenka_back.Schedules.Tables.{given}
use smenka_back.Schedules.Choice.{in_org}
use smenka_back.Manual.{get_manual_shift}
use smenka_back.Manual.Intervals.{ends_later, is_other, overlaps, check_overlap}

abbrev pub same_org : Option ℕ → Option ℕ → Bool
same_org (some a) (some b) = a == b
same_org _ _ = false

-- Two intervals that are both ended have a moment in common.
abbrev pub cross : ℕ → Option ℕ → ℕ → Option ℕ → Bool
cross a (some a_end) b (some b_end) = ltb a b_end && ltb b a_end
cross _ _ _ _ = false

-- Two ended shifts of one person in one organization that are not deleted and overlap.
abbrev pub clash : Shift → Shift → Bool
clash a b =
    same_org a.organization_id b.organization_id
    && a.user_id == b.user_id
    && not a.is_deleted
    && not b.is_deleted
    && cross a.started_at a.finished_at b.started_at b.finished_at

abbrev pub Disjoint : World → Type 0
Disjoint w = (a b : Shift) → In a w.shifts → In b w.shifts → a.id ≢ b.id → clash a b ≡ false

same_org-symmetric : (a b : Option ℕ) → same_org a b ≡ same_org b a
same_org-symmetric none none = refl
same_org-symmetric none (some b) = refl
same_org-symmetric (some a) none = refl
same_org-symmetric (some a) (some b) = ground arith

cross-symmetric :
    (a : ℕ) (a_end : Option ℕ) (b : ℕ) (b_end : Option ℕ)
    → cross a a_end b b_end ≡ cross b b_end a a_end
cross-symmetric a none b none = refl
cross-symmetric a none b (some d) = refl
cross-symmetric a (some c) b none = refl
cross-symmetric a (some c) b (some d) = ground arith

same_user : (a b : ℕ) → (a == b) ≡ (b == a)
same_user a b = ground arith

swap_middle : (o u p q c : Bool) → (o && u && p && q && c) ≡ (o && u && q && p && c)
swap_middle o u p q c = ground arith

clash-symmetric : (a b : Shift) → clash a b ≡ clash b a
clash-symmetric a b =
    rw
      (
        same_org-symmetric a.organization_id b.organization_id,
        same_user a.user_id b.user_id,
        cross-symmetric a.started_at a.finished_at b.started_at b.finished_at,
      )
      (swap_middle (same_org b.organization_id a.organization_id) (b.user_id == a.user_id)
        (not a.is_deleted) (not b.is_deleted)
        (cross b.started_at b.finished_at a.started_at a.finished_at))

-- One row is new or replaced.
pub one_change :
    (w w' : World) (s' : Shift)
    → ((a : Shift) → In a w'.shifts → (a ≡ s') ⊎ In a w.shifts)
    → ((b : Shift) → In b w.shifts → b.id ≢ s'.id → clash s' b ≡ false)
    → Disjoint w
    → Disjoint w'
one_change w w' s' rows clear x a b i j other = go a b (rows a i) (rows b j) other
  where
    go :
        (a b : Shift)
        → (a ≡ s') ⊎ In a w.shifts
        → (b ≡ s') ⊎ In b w.shifts
        → a.id ≢ b.id
        → clash a b ≡ false
    go a b (inr i) (inr j) other = x a b i j other
    go a b (inl e) (inr j) other =
        rw e (clear b j (λ q. other (ap (λ (s : Shift). s.id) e ∙ sym q)))
    go a b (inr i) (inl e) other =
        rw e (clash-symmetric a s' ∙ clear a i (λ q. other (q ∙ sym (ap (λ (s : Shift). s.id) e))))
    go a b (inl e) (inl k) other = absurd (other (ap (λ (s : Shift). s.id) (e ∙ sym k)))

pub first_or_rest : {a h : Shift} {rest : List Shift} → In a (h ∷ rest) → (a ≡ h) ⊎ In a rest
first_or_rest (here rest) = inl refl
first_or_rest (there b i) = inr i

pub written_row :
    (k : ℕ) (s' : Shift) (rows : List Shift) (a : Shift)
    → In a (update (λ r. r.id == k) (λ _. s') rows)
    → (a ≡ s') ⊎ In a rows
written_row k s' [] a i = elim i [ ]
written_row k s' (r ∷ rows) a i = go (r.id == k) (written_row k s' rows a) (first_or_rest i)
  where
    go :
        (hit : Bool)
        → (In a (update (λ r. r.id == k) (λ _. s') rows) → (a ≡ s') ⊎ In a rows)
        → (a ≡ (if hit then s' else r)) ⊎ In a (update (λ r. r.id == k) (λ _. s') rows)
        → (a ≡ s') ⊎ In a (r ∷ rows)
    go true rest (inl e) = inl e
    go false rest (inl e) = inr (rw e (here rows))
    go hit rest (inr j) = elim (rest j) [ inl e ↦ inl e | inr m ↦ inr (there r m) ]

any-none :
    {A : Type 0} (p : A → Bool) (a : A) (rows : List A)
    → any p rows ≡ false
    → In a rows
    → p a ≡ false
any-none p a rows e (here rest) = ground arith
any-none p a (b ∷ rows) e (there _ i) = any-none p a rows (ground arith) i

pub person_free :
    (org_id user_id started_at finished_at : ℕ) (exclude : Option ℕ) (w : World)
    → check_overlap w org_id user_id started_at finished_at exclude ≡ ok tt
    → (b : Shift) → In b w.shifts
    → overlaps org_id user_id started_at finished_at exclude b ≡ false
unfolding check_overlap
person_free org_id user_id started_at finished_at exclude w h b i =
    any-none (overlaps org_id user_id started_at finished_at exclude) b w.shifts
      (not_raised _ shift_overlap h) i

free_of :
    (org_b : Option ℕ) (org_id u v : ℕ) (a_gone b_gone : Bool) (start end b_start : ℕ)
    (b_end : Option ℕ) (other : Bool)
    → other ≡ true
    → (in_org org_b org_id
        && v == u
        && not b_gone
        && ltb b_start end
        && ends_later b_end start
        && other)
      ≡ false
    → (same_org (some org_id) org_b
        && u == v
        && not a_gone
        && not b_gone
        && cross start (some end) b_start b_end)
      ≡ false
free_of none org_id u v a_gone b_gone start end b_start b_end other e h = refl
free_of (some k) org_id u v a_gone b_gone start end b_start none other e h = ground arith
free_of (some k) org_id u v a_gone b_gone start end b_start (some f) other e h = ground arith

-- A checked interval crosses no other one.
pub no_clash :
    (org_id finished_at : ℕ) (exclude : Option ℕ) (a b : Shift)
    → a.organization_id ≡ some org_id
    → a.finished_at ≡ some finished_at
    → is_other exclude b ≡ true
    → overlaps org_id a.user_id a.started_at finished_at exclude b ≡ false
    → clash a b ≡ false
no_clash org_id finished_at exclude a b eo ef other h =
    rw (eo, ef)
      (free_of b.organization_id org_id a.user_id b.user_id a.is_deleted b.is_deleted a.started_at
        finished_at b.started_at b.finished_at (is_other exclude b) other h)

in_org_eq : (org : Option ℕ) (org_id : ℕ) → in_org org org_id ≡ true → org ≡ some org_id
in_org_eq none org_id h = cc
in_org_eq (some k) org_id h = ap some (ground arith)

pub found_shift :
    (w : World) (org_id shift_id : ℕ) (include_deleted : Bool) (s : Shift)
    → get_manual_shift w org_id shift_id include_deleted ≡ ok s
    → In s w.shifts × (s.organization_id ≡ some org_id)
unfolding get_manual_shift
found_shift w org_id shift_id include_deleted s h =
    let wanted : Shift → Bool = λ r.
      r.id == shift_id
      && in_org r.organization_id org_id
      && (include_deleted || not r.is_deleted) in
    let e : find wanted w.shifts ≡ some s = or_raise-some _ s shift_not_found h in
    let passes : wanted s ≡ true = find-passes wanted s w.shifts e in
    (find-In wanted s w.shifts e, in_org_eq s.organization_id org_id (ground arith))

other_id : (k : ℕ) (b : Shift) → b.id ≢ k → is_other (some k) b ≡ true
other_id k b h = ground arith

pub deleted_apart : (a b : Shift) → a.is_deleted ≡ true → clash a b ≡ false
deleted_apart a b h = rw h (
    shut (same_org a.organization_id b.organization_id) (a.user_id == b.user_id) (not b.is_deleted)
      (cross a.started_at a.finished_at b.started_at b.finished_at))
  where
    shut : (o u q c : Bool) → (o && u && false && q && c) ≡ false
    shut o u q c = ground arith

running_apart : (a b : Shift) → a.finished_at ≡ none → clash a b ≡ false
running_apart a b h = rw h (
    shut (same_org a.organization_id b.organization_id) (a.user_id == b.user_id) (not a.is_deleted)
      (not b.is_deleted))
  where
    shut : (o u p q : Bool) → (o && u && p && q && false) ≡ false
    shut o u p q = ground arith

-- The written row crosses no other row of the person.
abbrev pub Clear : World → Shift → Type 0
Clear w s' = (b : Shift) → In b w.shifts → b.id ≢ s'.id → clash s' b ≡ false

pub save-Disjoint : (w : World) (s' : Shift) → Clear w s' → Disjoint w → Disjoint (save_shift s' w)
unfolding save_shift
save-Disjoint w s' clear x =
    one_change w (save_shift s' w) s' (λ a i. written_row s'.id s' w.shifts a i) clear x

-- The end that is checked stands for `now` where the shift has no end.
pub checked-Clear :
    (w : World) (org_id now : ℕ) (s' : Shift)
    → s'.organization_id ≡ some org_id
    → check_overlap w org_id s'.user_id s'.started_at (given s'.finished_at now) (some s'.id)
      ≡ ok tt
    → Clear w s'
checked-Clear w org_id now s' eo h b i other = go s'.finished_at refl h
  where
    go :
        (end : Option ℕ)
        → s'.finished_at ≡ end
        → check_overlap w org_id s'.user_id s'.started_at (given end now) (some s'.id) ≡ ok tt
        → clash s' b ≡ false
    go none e h = running_apart s' b e
    go (some f) e h =
        no_clash org_id f (some s'.id) s' b eo e (other_id s'.id b other)
          (person_free org_id s'.user_id s'.started_at f (some s'.id) w h b i)
