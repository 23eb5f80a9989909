-- ===== src/Schedules/Refused.antt =====
-- src/enoch/extensions/schedules.py: controls of a schedule that does not exist or is disabled.
use enoch.Base.{String, Bool, true, false, Option, none, some, ◌≡◌, refl, sym, ap, ◌∙◌}
use enoch.Queue.Clock.{Datetime}
use enoch.Schedules.Types.{
  State, active, paused, disabled, Control, run_now, ExtensionScheduleStatus, World, err, Error,
  schedule_not_found, invalid_state,
}
use enoch.Schedules.Times.{
  Env, iso, current_time, extension_name, schedule_name, schedule_id, run_now_key,
}
use enoch.Schedules.Store.{finish, same_state}
use enoch.Schedules.Control.{
  transition_schedule, transition_body, request_extension_schedule_run, request_body,
}
use enoch.Schedules.Normal.Files.{loaded, FileIsReadable, transaction-readable_file}
use enoch.Schedules.Lookup.{record_at}

-- No control applies to the record.
abbrev pub is_blocked : Option ExtensionScheduleStatus → Bool
is_blocked none = true
is_blocked (some s) = same_state s.state disabled

-- The error that says so.
abbrev pub refusal : Control → String → Option ExtensionScheduleStatus → Error
refusal operation name none = schedule_not_found operation name
refusal operation name (some s) = invalid_state operation name s.state

disabled_only : (st : State) → same_state st disabled ≡ true → st ≡ disabled
disabled_only active h = absurd (cc)
disabled_only paused h = absurd (cc)
disabled_only disabled h = refl

module _ (env : Env) (w : World) (e n : String) (h : FileIsReadable env w.file) where
  transition-refused :
      (o : Option ExtensionScheduleStatus) (operation : Control) (now actor : String)
      → record_at (schedule_id e n) w.file ≡ o
      → is_blocked o ≡ true
      → finish w (transition_body operation (schedule_id e n) n now actor (loaded w.file))
        ≡ (err (refusal operation n o), w)
  unfolding transition_body
  transition-refused none operation now actor f b = rw (f, transition_body) refl
  transition-refused (some s) operation now actor f b =
      rw (f, transition_body, b)
        (ap (λ (v : State). (err (invalid_state operation n v), w)) (sym (disabled_only s.state b)))

  request-refused :
      (o : Option ExtensionScheduleStatus) (hex now key actor : String)
      → record_at (schedule_id e n) w.file ≡ o
      → is_blocked o ≡ true
      → finish w (request_body (schedule_id e n) n hex now key actor (loaded w.file))
        ≡ (err (refusal run_now n o), w)
  unfolding request_body
  request-refused none hex now key actor f b = rw (f, request_body) refl
  request-refused (some s) hex now key actor f b =
      let off = disabled_only s.state b in
      let idle : same_state s.state active ≡ false = ap (λ v. same_state v active) off in
      rw (f, request_body, idle) refl

-- When the file is readable, the names and the key are accepted, and the schedule does not exist
-- or is disabled, then pausing, resuming and asking for a run raise the control error that says
-- so, and change neither the file nor the events.
pub controls-refused :
    (env : Env) (w : World) (operation : Control) (extension name e n : String)
    (now : Option Datetime) (actor raw_key key hex : String) (o : Option ExtensionScheduleStatus)
    → FileIsReadable env w.file
    → extension_name extension ≡ some e
    → schedule_name name ≡ some n
    → run_now_key raw_key ≡ some key
    → record_at (schedule_id e n) w.file ≡ o
    → is_blocked o ≡ true
    → (transition_schedule env operation extension name now actor w
        ≡ (err (refusal operation n o), w))
      × (request_extension_schedule_run env extension name now raw_key actor hex w
          ≡ (err (refusal run_now n o), w))
unfolding transition_schedule request_extension_schedule_run
controls-refused env w operation extension name e n now actor raw_key key hex o h p q k f b =
    let t = iso env (current_time env now) in
    (
      rw (p, q)
          (transaction-readable_file env (transition_body operation (schedule_id e n) n t actor) w h
            ∙ transition-refused env w e n h o operation t actor f b),
      rw (p, q, k)
          (transaction-readable_file env (request_body (schedule_id e n) n hex t key actor) w h
            ∙ request-refused env w e n h o hex t key actor f b),
    )
