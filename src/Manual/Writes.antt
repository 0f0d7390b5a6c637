-- ===== src/Manual/Writes.antt =====
-- The status, the end and the pauses of the shifts that src/app/services/manual_shift.py writes.
use smenka_back.Prelude.{
  ℕ, ◌≡◌, refl, Bool, true, false, not, ◌&&◌, Option, none, some, List, [], ◌∷◌, map, arith,
  if◌then◌else◌, Bool-cases, inl, inr, count, ok, >>=-Ensures, Ensures, returns, raises, ◌⊎◌, ap,
  ◌∙◌, ensured,
}
use smenka_back.Access.{is_some}
use smenka_back.Shifts.{ShiftStatus, Pause, Shift, is_finished, is_open}
use smenka_back.Shifts.Sound.{open_pauses, Fits, IsSound, close_all-open}
use smenka_back.Schedules.Choice.{Planned}
use smenka_back.Manual.{PauseInput, pause_of, inputs_of, close_or_drop}
use smenka_back.Manual.Intervals.{validate_pauses, validate_started_at_against_open_pauses}
use smenka_back.Manual.Edits.{
  NewShift, entered, ShiftFields, is_finishing, new_finished_at, new_pauses, edited, deleted,
  restored, first_of, interval_changed,
}

inputs-closed : (ps : List PauseInput) → count is_open (map pause_of ps) ≡ 0
inputs-closed [] = refl
inputs-closed (p ∷ ps) = inputs-closed ps

close_or_drop-closed : (at : ℕ) (ps : List Pause) → count is_open (close_or_drop at ps) ≡ 0
unfolding close_or_drop
close_or_drop-closed at [] = refl
close_or_drop-closed at (p ∷ ps) = ground (arith, close_or_drop-closed at ps)

pub entered-IsSound :
    (shift_id org_id requester : ℕ) (body : NewShift) (location : Option ℕ)
    (planned : Option Planned)
    → IsSound (entered shift_id org_id requester body location planned)
entered-IsSound shift_id org_id requester body location planned = (refl, inputs-closed body.pauses)

-- The pauses that are kept are those of before, or no open one is left and the shift has an end.
abbrev Kept : Shift → Bool → Option ℕ → List Pause → Type 0
Kept s finishing finished_at pauses =
    ((pauses ≡ s.pauses) × (finishing ≡ false))
    ⊎ ((count is_open pauses ≡ 0) × (is_some finished_at ≡ true))

new_pauses-Kept :
    (s : Shift) (inputs : Option (List PauseInput)) (changed : Bool) (started_at : ℕ)
    (finishing : Bool) (finished_at : Option ℕ)
    → (finishing ≡ true → is_some finished_at ≡ true)
    → Ensures
        (λ (pauses : List Pause). Kept s finishing finished_at pauses)
        (new_pauses s inputs finishing changed started_at finished_at)
unfolding new_pauses
new_pauses-Kept s (some inputs) changed started_at finishing none f = raises _
new_pauses-Kept s (some inputs) changed started_at finishing (some end) f =
    >>=-Ensures (validate_pauses inputs started_at end) _
      λ _ _. returns _ (inr (inputs-closed inputs, refl))
new_pauses-Kept s none changed started_at true (some end) f =
    returns _ (inr (close_or_drop-closed end s.pauses, refl))
new_pauses-Kept s none true started_at false (some end) f =
    >>=-Ensures (inputs_of s.pauses) _ λ inputs _.
      >>=-Ensures (validate_pauses inputs started_at end) _ λ _ _. returns _ (inl (refl, refl))
new_pauses-Kept s none false started_at false (some end) f = returns _ (inl (refl, refl))
new_pauses-Kept s none changed started_at true none f = cc (f refl)
new_pauses-Kept s none true started_at false none f =
    >>=-Ensures (validate_started_at_against_open_pauses started_at s.pauses) _
      λ _ _. returns _ (inl (refl, refl))
new_pauses-Kept s none false started_at false none f = returns _ (inl (refl, refl))

edit-Fits :
    (st : ShiftStatus) (old_end new_end : Option ℕ) (opened n : ℕ)
    → Fits st old_end opened
    → ((n ≡ opened) × ((not (is_finished st) && is_some new_end) ≡ false))
      ⊎ ((n ≡ 0) × (is_some (if is_finished st then first_of new_end old_end else new_end) ≡ true))
    → Fits
        (if not (is_finished st) && is_some new_end then ShiftStatus.finished else st)
        (if is_finished st then first_of new_end old_end else new_end)
        n
edit-Fits ShiftStatus.active old_end none opened n (_, none_open) (inl (e, _)) =
    (refl, e ∙ none_open)
edit-Fits ShiftStatus.active old_end none opened n fits (inr (_, ends)) = cc
edit-Fits ShiftStatus.active old_end (some end) opened n fits (inl (_, running)) = cc
edit-Fits ShiftStatus.active old_end (some end) opened n fits (inr (closed, _)) = (refl, closed)
edit-Fits ShiftStatus.paused old_end none opened n (_, one_open) (inl (e, _)) = (refl, e ∙ one_open)
edit-Fits ShiftStatus.paused old_end none opened n fits (inr (_, ends)) = cc
edit-Fits ShiftStatus.paused old_end (some end) opened n fits (inl (_, running)) = cc
edit-Fits ShiftStatus.paused old_end (some end) opened n fits (inr (closed, _)) = (refl, closed)
edit-Fits ShiftStatus.finished old_end none opened n (ends, none_open) (inl (e, _)) =
    (ends, e ∙ none_open)
edit-Fits ShiftStatus.finished old_end none opened n (ends, _) (inr (closed, _)) = (ends, closed)
edit-Fits ShiftStatus.finished old_end (some end) opened n (_, none_open) (inl (e, _)) =
    (refl, e ∙ none_open)
edit-Fits ShiftStatus.finished old_end (some end) opened n fits (inr (closed, _)) = (refl, closed)

count_after :
    (s : Shift) (finishing : Bool) (finished_at : Option ℕ) (pauses : List Pause)
    → Kept s finishing finished_at pauses
    → ((count is_open pauses ≡ open_pauses s) × (finishing ≡ false))
      ⊎ ((count is_open pauses ≡ 0) × (is_some finished_at ≡ true))
count_after s finishing finished_at pauses (inl (e, h)) = inl (ap (count is_open) e, h)
count_after s finishing finished_at pauses (inr h) = inr h

has_end :
    (s : Shift) (fields : ShiftFields)
    → is_finishing s fields ≡ true
    → is_some (new_finished_at s fields) ≡ true
has_end s fields h = ground arith

pub edited-IsSound :
    (s : Shift) (fields : ShiftFields) (location : Option ℕ) (pauses : List Pause)
    (requester now started_at : ℕ)
    → new_pauses s fields.pauses
        (is_finishing s fields)
        (interval_changed s fields)
        started_at
        (new_finished_at s fields)
      ≡ ok pauses
    → IsSound s
    → IsSound (edited s fields (is_finishing s fields) location pauses requester now)
edited-IsSound s fields location pauses requester now started_at e h =
    edit-Fits s.status s.finished_at fields.finished_at (open_pauses s) (count is_open pauses) h (
      count_after s (is_finishing s fields) (new_finished_at s fields) pauses (
        ensured pauses
          (new_pauses-Kept s fields.pauses (interval_changed s fields) started_at
            (is_finishing s fields) (new_finished_at s fields) (has_end s fields))
          e))

pub deleted-IsSound :
    (s : Shift) (requester now : ℕ) → IsSound s → IsSound (deleted s requester now)
deleted-IsSound s requester now h = elim (Bool-cases (is_finished s.status)) [
  | inl over ↦ rw over h
  | inr running ↦ rw running (refl, close_all-open now s.pauses)
]

pub deleted-is_finished :
    (s : Shift) (requester now : ℕ) → is_finished (deleted s requester now).status ≡ true
deleted-is_finished s requester now = elim (Bool-cases (is_finished s.status)) [
  | inl over ↦ rw over over
  | inr running ↦ rw running refl
]

pub restored-IsSound : (s : Shift) → IsSound s → IsSound (restored s)
restored-IsSound s h = h

pub deleted-id : (s : Shift) (requester now : ℕ) → (deleted s requester now).id ≡ s.id
deleted-id s requester now = elim (Bool-cases (is_finished s.status)) [
  | inl over ↦ rw over refl
  | inr running ↦ rw running refl
]
