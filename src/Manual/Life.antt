-- ===== src/Manual/Life.antt =====
-- The life of the shifts with the operations of users, of the background tasks and of administrators.
use smenka_back.Prelude.{
  ℕ, ◌≡◌, refl, Bool, true, false, not, ◌&&◌, ◌||◌, Option, none, some, List, [], ◌∷◌, ◌++◌, arith,
  ◌==◌, count, count-update_le, update-keys, leq_trans, insert-one, find, All-In, All-append,
  All-update, ok, or_raise-some, >>=-Ensures, if-Ensures, Ensures, returns, ensured,
  shift_not_found, subst,
}
use smenka_back.Shifts.{Pause, Shift, World, is_finished, save_shift}
use smenka_back.Shifts.Sound.{IsSound, AllSound}
use smenka_back.Shifts.Rows.{has_id, Exclusive, Succeeds}
use smenka_back.Shifts.Start.{is_running_of}
use smenka_back.Shifts.Life.{Good, Step-Good}
use smenka_back.Shifts.Life as Users
use smenka_back.Schedules.{Zone}
use smenka_back.Schedules.Tables.{given}
use smenka_back.Schedules.Choice.{in_org}
use smenka_back.Manual.{
  State, get_member_by_user, get_manual_shift, resolve_location, resolve_manual_schedule,
}
use smenka_back.Manual.Intervals.{validate_interval, check_overlap, validate_pauses}
use smenka_back.Manual.Edits.{
  with_world, check_access, NewShift, entered, create_manual_shift, ShiftFields, is_finishing,
  new_finished_at, interval_changed, check_new_interval, new_location, new_pauses, edited,
  update_manual_shift, deleted, delete_shift, restored, restore_shift,
}
use smenka_back.Manual.Clash.{found_shift}
use smenka_back.Manual.Disjoint.{creates, updates, deletes, restores}
use smenka_back.Manual.Disjoint
use smenka_back.Manual.Writes.{
  entered-IsSound, edited-IsSound, deleted-IsSound, deleted-is_finished, restored-IsSound,
  deleted-id,
}
use smenka_back.Manual.Gone.{IsGone, AllGone, Step-AllGone}

-- Every shift is sound, the running ones are exclusive, and the deleted ones are finished.
abbrev pub Fine : World → Type 0
Fine w = AllSound w × Exclusive w × AllGone w

abbrev by_id : Shift → ℕ
by_id s = s.id

-- A row is written over the one that was read.
write-Fine :
    (w : World) (f : Shift → Bool) (s s' : Shift)
    → find f w.shifts ≡ some s
    → Succeeds s s'
    → IsSound s'
    → IsGone s'
    → Fine w
    → Fine (save_shift s' w)
unfolding save_shift
write-Fine w f s s' e h sound gone (all_sound, x, all_gone) = (
  All-update IsSound (λ r. r.id == s'.id) s' w.shifts all_sound sound,
  record {
    unique_ids = λ k. rw (update-keys by_id k s' w.shifts) (x.unique_ids k);
    one_running = λ u o.
        leq_trans
          (count-update_le by_id (is_running_of u o) f s s' w.shifts e h.same_id (h.no_new u o)
            (x.unique_ids s'.id))
          (x.one_running u o);
  },
  All-update IsGone (λ r. r.id == s'.id) s' w.shifts all_gone gone,
)

-- A finished row runs for nobody.
over-Succeeds : (s s' : Shift) → s'.id ≡ s.id → is_finished s'.status ≡ true → Succeeds s s'
over-Succeeds s s' e over = record { same_id = e; no_new = λ u o h. ground arith }

edited-Succeeds :
    (s : Shift) (fields : ShiftFields) (location : Option ℕ) (pauses : List Pause)
    (requester now : ℕ)
    → Succeeds s (edited s fields (is_finishing s fields) location pauses requester now)
edited-Succeeds s fields location pauses requester now = record {
  same_id = refl;
  no_new = λ u o h. ground arith;
}

abbrev wanted : ℕ → ℕ → Bool → Shift → Bool
wanted org_id shift_id include_deleted s =
    s.id == shift_id && in_org s.organization_id org_id && (include_deleted || not s.is_deleted)

found_row :
    (w : World) (org_id shift_id : ℕ) (include_deleted : Bool) (s : Shift)
    → get_manual_shift w org_id shift_id include_deleted ≡ ok s
    → find (wanted org_id shift_id include_deleted) w.shifts ≡ some s
unfolding get_manual_shift
found_row w org_id shift_id include_deleted s h = or_raise-some _ s shift_not_found h

insert-Fine :
    (w w' : World) (s' : Shift)
    → w'.shifts ≡ w.shifts ++ s' ∷ []
    → count (has_id s'.id) w.shifts ≡ 0
    → is_finished s'.status ≡ true
    → IsSound s'
    → Fine w
    → Fine w'
insert-Fine w w' s' e fresh over sound (all_sound, x, all_gone) = (
  rw e (All-append IsSound w.shifts (s' ∷ []) all_sound (sound, tt)),
  record {
    unique_ids = λ k. rw e (insert-one (has_id k) s' w.shifts (x.unique_ids k) (λ t. fresh_at k t));
    one_running = λ u o.
        rw e (insert-one (is_running_of u o) s' w.shifts (x.one_running u o) (λ t. ground arith));
  },
  rw e (All-append IsGone w.shifts (s' ∷ []) all_gone ((λ _. over), tt)),
)
  where
    fresh_at : (k : ℕ) → has_id k s' ≡ true → count (has_id k) w.shifts ≡ 0
    fresh_at k t =
        let same : s'.id ≡ k = ground arith in subst (λ j. count (has_id j) w.shifts ≡ 0) same fresh

module _ (st : State) (h : Fine st.tables.world) where
  create-Fine :
      (zone : Zone) (org_id requester : ℕ) (body : NewShift) (now shift_id : ℕ)
      → count (has_id shift_id) st.tables.world.shifts ≡ 0
      → Ensures
          (λ (r : State × Shift). Fine r.0.tables.world)
          (create_manual_shift st zone org_id requester body now shift_id)
  unfolding create_manual_shift
  create-Fine zone org_id requester body now shift_id fresh =
      >>=-Ensures (check_access st.tables.billing org_id requester now) _ λ _ _.
        >>=-Ensures (get_member_by_user st.tables.billing.directory org_id body.user_id) _ λ _ _.
          >>=-Ensures (validate_interval body.started_at body.finished_at now) _ λ _ _.
            >>=-Ensures (validate_pauses body.pauses body.started_at body.finished_at) _ λ _ _.
              >>=-Ensures
                (resolve_location st.tables.billing.directory org_id body.work_location_id) _
                λ location _.
                  >>=-Ensures
                    (check_overlap st.tables.world org_id body.user_id body.started_at
                      body.finished_at none)
                    _
                    λ _ _.
                      >>=-Ensures
                        (resolve_manual_schedule st.tables zone org_id body.started_at
                          body.work_schedule_id)
                        _
                        λ planned _. returns _ (
                          insert-Fine st.tables.world _
                            (entered shift_id org_id requester body location planned) refl fresh
                            refl (entered-IsSound shift_id org_id requester body location planned)
                            h)

  read-IsSound :
      (org_id shift_id : ℕ) (include_deleted : Bool) (s : Shift)
      → get_manual_shift st.tables.world org_id shift_id include_deleted ≡ ok s
      → IsSound s
  read-IsSound org_id shift_id include_deleted s e =
      All-In IsSound h.0 (found_shift st.tables.world org_id shift_id include_deleted s e).0

  read-IsGone :
      (org_id shift_id : ℕ) (include_deleted : Bool) (s : Shift)
      → get_manual_shift st.tables.world org_id shift_id include_deleted ≡ ok s
      → IsGone s
  read-IsGone org_id shift_id include_deleted s e =
      All-In IsGone h.2 (found_shift st.tables.world org_id shift_id include_deleted s e).0

  edited-IsGone :
      (s : Shift) (fields : ShiftFields) (location : Option ℕ) (pauses : List Pause)
      (requester now : ℕ)
      → IsGone s
      → IsGone (edited s fields (is_finishing s fields) location pauses requester now)
  edited-IsGone s fields location pauses requester now gone k =
      let over : is_finished s.status ≡ true = gone k in rw over over

  update-Fine :
      (org_id shift_id requester : ℕ) (fields : ShiftFields) (now : ℕ)
      → Ensures
          (λ (r : State × Shift). Fine r.0.tables.world)
          (update_manual_shift st org_id shift_id requester fields now)
  unfolding update_manual_shift
  update-Fine org_id shift_id requester fields now =
      >>=-Ensures (check_access st.tables.billing org_id requester now) _ λ _ _.
        >>=-Ensures (get_manual_shift st.tables.world org_id shift_id false) _ λ s found.
          >>=-Ensures
            (check_new_interval st.tables.world org_id s (interval_changed s fields)
              (given fields.started_at s.started_at) (new_finished_at s fields) now)
            _
            λ _ _.
              >>=-Ensures
                (new_location st.tables.billing.directory org_id s.work_location_id
                  fields.work_location_id)
                _
                λ location _.
                  >>=-Ensures
                    (new_pauses s fields.pauses (is_finishing s fields) (interval_changed s fields)
                      (given fields.started_at s.started_at) (new_finished_at s fields))
                    _
                    λ pauses e. returns _ (
                      write-Fine st.tables.world (wanted org_id shift_id false) s
                        (edited s fields (is_finishing s fields) location pauses requester now)
                        (found_row st.tables.world org_id shift_id false s found)
                        (edited-Succeeds s fields location pauses requester now)
                        (edited-IsSound s fields location pauses requester now
                          (given fields.started_at s.started_at) e
                          (read-IsSound org_id shift_id false s found))
                        (edited-IsGone s fields location pauses requester now
                          (read-IsGone org_id shift_id false s found))
                        h)

  delete-Fine :
      (org_id shift_id requester now : ℕ)
      → Ensures
          (λ (r : State × Shift). Fine r.0.tables.world)
          (delete_shift st org_id shift_id requester now)
  unfolding delete_shift
  delete-Fine org_id shift_id requester now =
      >>=-Ensures (check_access st.tables.billing org_id requester now) _ λ _ _.
        >>=-Ensures (get_manual_shift st.tables.world org_id shift_id false) _ λ s found.
          returns _ (
            write-Fine st.tables.world (wanted org_id shift_id false) s (deleted s requester now)
              (found_row st.tables.world org_id shift_id false s found)
              (over-Succeeds s (deleted s requester now) (deleted-id s requester now)
                (deleted-is_finished s requester now))
              (deleted-IsSound s requester now (read-IsSound org_id shift_id false s found))
              (λ _. deleted-is_finished s requester now) h)

  restored-Fine :
      (org_id shift_id : ℕ) (s : Shift)
      → get_manual_shift st.tables.world org_id shift_id true ≡ ok s
      → s.is_deleted ≡ true
      → Fine (save_shift (restored s) st.tables.world)
  restored-Fine org_id shift_id s found gone =
      write-Fine st.tables.world (wanted org_id shift_id true) s (restored s)
        (found_row st.tables.world org_id shift_id true s found)
        (over-Succeeds s (restored s) refl (read-IsGone org_id shift_id true s found gone))
        (restored-IsSound s (read-IsSound org_id shift_id true s found)) (λ k. cc) h

  restore-Fine :
      (org_id shift_id requester now : ℕ)
      → Ensures
          (λ (r : State × Shift). Fine r.0.tables.world)
          (restore_shift st org_id shift_id requester now)
  unfolding restore_shift
  restore-Fine org_id shift_id requester now =
      >>=-Ensures (check_access st.tables.billing org_id requester now) _ λ _ _.
        >>=-Ensures (get_manual_shift st.tables.world org_id shift_id true) _ λ s found.
          if-Ensures (not s.is_deleted) _ _ (λ _. returns _ h)
            (λ gone.
              >>=-Ensures
                (check_overlap st.tables.world org_id s.user_id s.started_at
                  (given s.finished_at now) (some s.id))
                _ λ _ _. returns _ (restored-Fine org_id shift_id s found (ground arith)))

-- A step of an administrator, or one of a user or of a background task on the same shifts.
pub data Step (st : State) : State → Type 0 where
  by_hand : {st' : State} → Disjoint.Step st st' → Step st st'
  runs : {w' : World} → Users.Step st.tables.world w' → Step st (with_world st w')

pub data Reach (st : State) : State → Type 0 where
  start : Reach st st
  next : {mid end : State} → Reach st mid → Step mid end → Reach st end

hand-Fine : {st st' : State} → Disjoint.Step st st' → Fine st.tables.world → Fine st'.tables.world
hand-Fine {st} (creates zone o u body now k st' s fresh e) h =
    ensured (st', s) (create-Fine st h zone o u body now k fresh) e
hand-Fine {st} (updates o k u fields now st' s e) h =
    ensured (st', s) (update-Fine st h o k u fields now) e
hand-Fine {st} (deletes o k u now st' s e) h = ensured (st', s) (delete-Fine st h o k u now) e
hand-Fine {st} (restores o k u now st' s e) h = ensured (st', s) (restore-Fine st h o k u now) e

Step-Fine : {st st' : State} → Step st st' → Fine st.tables.world → Fine st'.tables.world
Step-Fine (by_hand step) h = hand-Fine step h
Step-Fine (runs step) (sound, x, gone) =
    let good = Step-Good step (sound, x) in (good.0, good.1, Step-AllGone step gone)

-- With the edits of administrators among the operations of users and the background tasks, in any order:
-- an active shift has no end and no open pause, a paused one has no end and exactly one open pause, a
-- finished one has an end and no open pause; no user has two running shifts in one organization or two
-- personal ones; and a deleted shift is finished; if it was so at the start and ids are unique there.
pub Reach-Fine : {st st' : State} → Reach st st' → Fine st.tables.world → Fine st'.tables.world
Reach-Fine start h = h
Reach-Fine (next before step) h = Step-Fine step (Reach-Fine before h)
