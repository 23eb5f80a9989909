-- ===== src/Schedules/Refine/Controls.antt =====
-- src/enoch/extensions/schedules.py: pausing, resuming and asking for a run, as updates of the map
-- from identities to records.
use Prim.Native.String.{String}
use enoch.Base.{
  ℕ, Option, none, some, List, [], ◌∷◌, ◌≡◌, refl, subst, inl, inr, Bool-cases, if◌then◌else◌,
}
use enoch.Base.Text.{truthy}
use enoch.Queue.Clock.{Datetime}
use enoch.Schedules.Types.{
  State, active, paused, disabled, Control, pause, resume, status, run_now, ExtensionScheduleStatus,
  World, schedule_not_found, invalid_state, raise, leave, commit,
}
use enoch.Schedules.Times.{Env, iso, current_time, extension_name, schedule_name, schedule_id}
use enoch.Schedules.Store.{find_item, replace_item, schedule_event, same_state}
use enoch.Schedules.Control.{
  transition_schedule, transition_body, on_found, target_of, move_item, moved_status,
}
use enoch.Schedules.Normal.{IsNormal, tidy}
use enoch.Schedules.Normal.Dates.{IsIsoClock}
use enoch.Schedules.Normal.Lists.{find_item-IsNormal}
use enoch.Schedules.Normal.Files.{FileIsReadable, loaded, loaded-IsReadable}
use enoch.Schedules.Normal.Updates.{moved_status-IsNormal}
use enoch.Schedules.Lookup.{record_at, record_at-tidy}
use enoch.Schedules.Refine.{
  Decision, refuse, keep, change, answer, record_after, on_items, IsSafe, refines,
}

-- A record that is paused; a run that was asked for and not claimed is forgotten.
unfoldable pub paused_record : String → ExtensionScheduleStatus → ExtensionScheduleStatus
paused_record now s = record s {
  state = paused;
  updated_at = now;
  paused_at = now;
  run_now_id = if truthy s.claim_id then s.run_now_id else "";
  run_now_key = if truthy s.claim_id then s.run_now_key else "";
}

unfoldable pub resumed_record : String → ExtensionScheduleStatus → ExtensionScheduleStatus
resumed_record now s = record s { state = active; updated_at = now; paused_at = "" }

-- What pausing and resuming do, by the state of the record.
unfoldable pub move_spec :
    Control
    → State
    → String
    → String
    → String
    → ExtensionScheduleStatus
    → Decision ExtensionScheduleStatus
move_spec operation disabled name now actor s = refuse (invalid_state operation name disabled)
move_spec pause active name now actor s =
    let u = paused_record now s in change u (schedule_event u "paused" actor ∷ []) u
move_spec pause paused name now actor s = keep s
move_spec operation active name now actor s = keep s
move_spec operation paused name now actor s =
    let u = resumed_record now s in change u (schedule_event u "active" actor ∷ []) u

unfoldable pub transition_spec :
    Control
    → String
    → String
    → String
    → Option ExtensionScheduleStatus
    → Decision ExtensionScheduleStatus
unfolding move_spec
transition_spec operation name now actor none = refuse (schedule_not_found operation name)
transition_spec operation name now actor (some s) = move_spec operation s.state name now actor s

paused_record-eq :
    (now : String) (s : ExtensionScheduleStatus) → moved_status paused now s ≡ paused_record now s
unfolding moved_status paused_record
paused_record-eq now s = elim (Bool-cases (truthy s.claim_id)) [
  | inl e ↦ rw e refl
  | inr e ↦ rw e refl
]

resumed_record-eq :
    (now : String) (s : ExtensionScheduleStatus) → moved_status active now s ≡ resumed_record now s
unfolding moved_status resumed_record
resumed_record-eq now s = refl

module _ (name now actor : String) (items : List ExtensionScheduleStatus)
    (s : ExtensionScheduleStatus) where
  paused-eq :
      move_item paused now actor items s ≡ on_items (move_spec pause active name now actor s) items
  unfolding move_spec
  paused-eq = λ i.
      let u = paused_record-eq now s i in
      commit (replace_item u items) (schedule_event u "paused" actor ∷ []) u

  resumed-eq :
      (operation : Control)
      → move_item active now actor items s ≡ (
          let u = resumed_record now s in
          commit (replace_item u items) (schedule_event u "active" actor ∷ []) u)
  resumed-eq operation = λ i.
      let u = resumed_record-eq now s i in
      commit (replace_item u items) (schedule_event u "active" actor ∷ []) u

  move-eq :
      (operation : Control) (st : State)
      → (if same_state st disabled
          then raise (invalid_state operation name disabled)
          else if same_state st (target_of operation)
          then leave s
          else move_item (target_of operation) now actor items s)
        ≡ on_items (move_spec operation st name now actor s) items
  unfolding move_spec
  move-eq pause disabled = refl
  move-eq resume disabled = refl
  move-eq run_now disabled = refl
  move-eq status disabled = refl
  move-eq pause active = paused-eq
  move-eq pause paused = refl
  move-eq resume active = refl
  move-eq run_now active = refl
  move-eq status active = refl
  move-eq resume paused = resumed-eq resume
  move-eq run_now paused = resumed-eq run_now
  move-eq status paused = resumed-eq status

transition_body-eq :
    (operation : Control) (id name now actor : String) (items : List ExtensionScheduleStatus)
    → transition_body operation id name now actor items
      ≡ on_items (transition_spec operation name now actor (find_item id items)) items
unfolding transition_body transition_spec
transition_body-eq operation id name now actor items = go (find_item id items)
  where
    go :
        (o : Option ExtensionScheduleStatus)
        → on_found o (raise (schedule_not_found operation name)) (λ selected.
          if same_state selected.state disabled
          then raise (invalid_state operation name disabled)
          else if same_state selected.state (target_of operation)
          then leave selected
          else move_item (target_of operation) now actor items selected)
          ≡ on_items (transition_spec operation name now actor o) items
    go none = refl
    go (some s) = move-eq name now actor items s operation s.state

module _ (env : Env) (dates : IsIsoClock env.clock) (t : ℕ) (s : ExtensionScheduleStatus)
    (n : IsNormal env s) (clean : tidy s ≡ s) where
  paused_record-IsNormal :
      IsNormal env (paused_record (iso env t) s)
      × (tidy (paused_record (iso env t) s) ≡ paused_record (iso env t) s)
  unfolding paused_record
  paused_record-IsNormal = (
    subst (λ v. IsNormal env v) (paused_record-eq (iso env t) s)
        (moved_status-IsNormal env dates t s n paused),
    (λ i. paused_record (iso env t) (clean i)),
  )

  resumed_record-IsNormal :
      IsNormal env (resumed_record (iso env t) s)
      × (tidy (resumed_record (iso env t) s) ≡ resumed_record (iso env t) s)
  unfolding resumed_record
  resumed_record-IsNormal = (
    subst (λ v. IsNormal env v) (resumed_record-eq (iso env t) s)
        (moved_status-IsNormal env dates t s n active),
    (λ i. resumed_record (iso env t) (clean i)),
  )

  move_spec-IsSafe :
      (operation : Control) (st : State) (name actor : String)
      → IsSafe env (some s) (move_spec operation st name (iso env t) actor s)
  unfolding move_spec paused_record resumed_record
  move_spec-IsSafe pause disabled name actor = tt
  move_spec-IsSafe resume disabled name actor = tt
  move_spec-IsSafe run_now disabled name actor = tt
  move_spec-IsSafe status disabled name actor = tt
  move_spec-IsSafe pause active name actor = let (a, b) = paused_record-IsNormal in (refl, a, b)
  move_spec-IsSafe pause paused name actor = tt
  move_spec-IsSafe resume active name actor = tt
  move_spec-IsSafe run_now active name actor = tt
  move_spec-IsSafe status active name actor = tt
  move_spec-IsSafe resume paused name actor = let (a, b) = resumed_record-IsNormal in (refl, a, b)
  move_spec-IsSafe run_now paused name actor = let (a, b) = resumed_record-IsNormal in (refl, a, b)
  move_spec-IsSafe status paused name actor = let (a, b) = resumed_record-IsNormal in (refl, a, b)

transition_spec-IsSafe :
    (env : Env) (dates : IsIsoClock env.clock) (w : World) (h : FileIsReadable env w.file) (t : ℕ)
    (id : String) (operation : Control) (name actor : String)
    → IsSafe env
        (record_at id w.file)
        (transition_spec operation name (iso env t) actor (record_at id w.file))
unfolding transition_spec
transition_spec-IsSafe env dates w h t id operation name actor = go (record_at id w.file) refl
  where
    go :
        (o : Option ExtensionScheduleStatus)
        → record_at id w.file ≡ o
        → IsSafe env o (transition_spec operation name (iso env t) actor o)
    go none e = tt
    go (some s) e =
        let r = loaded-IsReadable w.file h in
        move_spec-IsSafe env dates t s (find_item-IsNormal id (loaded w.file) r.normal e).0
          (record_at-tidy id w.file e) operation s.state name actor

-- On a readable file and with names that are accepted, pausing and resuming answer as the
-- specification says of the record with the schedule's identity, and the file afterwards, seen as
-- a map from identities to records, is the map before with the change that the specification
-- makes, at that identity only: no record is refused, a disabled one is refused, one in the
-- wanted state is kept, and otherwise it is paused, with a run that was asked for and not claimed
-- forgotten, or resumed.
pub transition_schedule-refines :
    (env : Env) (w : World) (operation : Control) (extension name e n : String)
    (now : Option Datetime) (actor k : String)
    → IsIsoClock env.clock
    → FileIsReadable env w.file
    → extension_name extension ≡ some e
    → schedule_name name ≡ some n
    → ((transition_schedule env operation extension name now actor w).0
        ≡ answer (
            transition_spec operation n
              (iso env (current_time env now))
              actor
              (record_at (schedule_id e n) w.file)))
      × (record_at k (transition_schedule env operation extension name now actor w).1.file
          ≡ record_after
              (transition_spec operation n
                (iso env (current_time env now))
                actor
                (record_at (schedule_id e n) w.file))
              k
              (record_at k w.file))
unfolding transition_schedule
transition_schedule-refines env w operation extension name e n now actor k dates h p q =
    let t = current_time env now in
    let id = schedule_id e n in
    rw (p, q)
      (refines env id (transition_body operation id n (iso env t) actor)
        (transition_spec operation n (iso env t) actor)
        (transition_body-eq operation id n (iso env t) actor) w h
        (transition_spec-IsSafe env dates w h t id operation n actor) k)
