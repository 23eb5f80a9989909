-- ===== src/Schedules/Control.antt =====
-- src/enoch/extensions/schedules.py: pausing and resuming a schedule, and asking for a run of it.
use Prim.Native.String.{String, ◌++◌}
use enoch.Base.{Bool, not, ◌&&◌, ◌||◌, Option, none, some, List, [], ◌∷◌, if◌then◌else◌}
use enoch.Base.Text.{truthy, one_of}
use enoch.Queue.Clock.{Datetime}
use enoch.Schedules.Types.{
  State, active, paused, disabled, ExtensionScheduleStatus, Control, pause, resume, run_now,
  schedule_not_found, invalid_state, schedule_error, err, Outcome, raise, leave, commit, Operation,
}
use enoch.Schedules.Times.{Env, current_time, iso, schedule_id, run_now_key, append_run_now_key}
use enoch.Schedules.Store.{
  with_names, transaction, find_item, replace_item, schedule_event, same_state,
}

abbrev pub on_found :
    Option ExtensionScheduleStatus
    → Outcome ExtensionScheduleStatus
    → (ExtensionScheduleStatus → Outcome ExtensionScheduleStatus)
    → Outcome ExtensionScheduleStatus
on_found none absent present = absent
on_found (some selected) absent present = present selected

-- `target` of `_transition_schedule`
abbrev pub target_of : Control → State
target_of pause = paused
target_of _ = active

abbrev target_name : State → String
target_name paused = "paused"
target_name disabled = "disabled"
target_name active = "active"

-- `x if condition else y`
unfoldable pub drop_if : Bool → String → String
drop_if condition text = if condition then "" else text

unfoldable pub moved_status : State → String → ExtensionScheduleStatus → ExtensionScheduleStatus
unfolding drop_if
moved_status target now selected = record selected {
  state = target;
  updated_at = now;
  paused_at = drop_if (not (same_state target paused)) now;
  run_now_id =
      drop_if (same_state target paused && not (truthy selected.claim_id)) selected.run_now_id;
  run_now_key =
      drop_if (same_state target paused && not (truthy selected.claim_id)) selected.run_now_key;
}

abbrev pub move_item :
    State
    → String
    → String
    → List ExtensionScheduleStatus
    → ExtensionScheduleStatus
    → Outcome ExtensionScheduleStatus
move_item target now actor items selected =
    let moved = moved_status target now selected in
    commit (replace_item moved items) (schedule_event moved (target_name target) actor ∷ []) moved

-- The transaction of `_transition_schedule`.
unfoldable pub transition_body :
    Control
    → String
    → String
    → String
    → String
    → List ExtensionScheduleStatus
    → Outcome ExtensionScheduleStatus
unfolding moved_status
transition_body operation schedule_id name now actor items =
    on_found (find_item schedule_id items) (raise (schedule_not_found operation name)) (λ selected.
      if same_state selected.state disabled
      then raise (invalid_state operation name disabled)
      else if same_state selected.state (target_of operation)
      then leave selected
      else move_item (target_of operation) now actor items selected)

-- `_transition_schedule`
unfoldable pub transition_schedule :
    Env → Control → String → String → Option Datetime → String → Operation ExtensionScheduleStatus
unfolding transition_body
transition_schedule env operation extension name now actor w =
    with_names extension name
      (λ e n.
        transaction env
          (transition_body operation (schedule_id e n) n (iso env (current_time env now)) actor))
      w

-- `pause_extension_schedule`
abbrev pub pause_extension_schedule :
    Env → String → String → Option Datetime → String → Operation ExtensionScheduleStatus
pause_extension_schedule env = transition_schedule env pause

-- `resume_extension_schedule`
abbrev pub resume_extension_schedule :
    Env → String → String → Option Datetime → String → Operation ExtensionScheduleStatus
resume_extension_schedule env = transition_schedule env resume

-- A run that is under way or asked for already: only the key is kept.
unfoldable pub keyed_status : String → String → ExtensionScheduleStatus → ExtensionScheduleStatus
keyed_status now key selected = record selected {
  updated_at = now;
  run_now_history = append_run_now_key selected.run_now_history key;
}

unfoldable pub requested_status :
    String → String → String → ExtensionScheduleStatus → ExtensionScheduleStatus
requested_status hex now key selected = record selected {
  updated_at = now;
  run_now_id = "run-now-" ++ hex;
  run_now_key = key;
  run_now_history = append_run_now_key selected.run_now_history key;
}

abbrev pub commit_request :
    String
    → List ExtensionScheduleStatus
    → ExtensionScheduleStatus
    → Outcome ExtensionScheduleStatus
commit_request actor items updated =
    commit (replace_item updated items) (schedule_event updated "run_now_requested" actor ∷ [])
      updated

-- The transaction of `request_extension_schedule_run`; `hex` is that of its `uuid4`.
unfoldable pub request_body :
    String
    → String
    → String
    → String
    → String
    → String
    → List ExtensionScheduleStatus
    → Outcome ExtensionScheduleStatus
unfolding keyed_status requested_status
request_body schedule_id name hex now key actor items =
    on_found (find_item schedule_id items) (raise (schedule_not_found run_now name)) (λ selected.
      if not (same_state selected.state active)
      then raise (invalid_state run_now name selected.state)
      else if truthy key && one_of key selected.run_now_history
      then leave selected
      else if truthy selected.claim_id || truthy selected.run_now_id
      then (if not (truthy key)
          then leave selected
          else commit_request actor items (keyed_status now key selected))
      else commit_request actor items (requested_status hex now key selected))

abbrev pub with_key :
    Option String → (String → Operation ExtensionScheduleStatus) → Operation ExtensionScheduleStatus
with_key none operation w = (
  err (
      schedule_error
        "Schedule run-now idempotency keys must be one line and 256 characters or fewer."),
  w,
)
with_key (some key) operation w = operation key w

-- `request_extension_schedule_run`
unfoldable pub request_extension_schedule_run :
    Env
    → String
    → String
    → Option Datetime
    → String
    → String
    → String
    → Operation ExtensionScheduleStatus
unfolding request_body run_now_key
request_extension_schedule_run env extension name now idempotency_key actor hex w =
    with_names extension name
      (λ e n. with_key (run_now_key idempotency_key) (λ key.
        transaction env
          (request_body (schedule_id e n) n hex (iso env (current_time env now)) key actor)))
      w
