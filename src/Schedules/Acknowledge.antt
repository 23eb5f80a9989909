-- ===== src/Schedules/Acknowledge.antt =====
-- src/enoch/extensions/schedules.py: acknowledging an occurrence that was handed out.
use Prim.Native.String.{String}
use enoch.Base.{
  ℕ, Bool, true, false, not, ◌||◌, Option, none, some, List, [], ◌∷◌, if◌then◌else◌, ◌==◌,
}
use enoch.Base.Int.{ℤ, positive}
use enoch.Base.Text.{take_chars, truthy, strip, clean_text}
use enoch.Queue.Clock.{Datetime}
use enoch.Schedules.Types.{
  ClaimKind, unclaimed, scheduled, ExtensionScheduleStatus, schedule_error, value_error, ok, err,
  Outcome, raise, leave, commit, Operation, ScheduleEvent,
}
use enoch.Schedules.Times.{Env, current_time, iso, text_of, next_run, error_code}
use enoch.Schedules.Store.{transaction, find_item, replace_item, schedule_event}

-- The arguments of `_acknowledge_schedule` on the result of an occurrence.
pub record Acknowledgement : Type 0 where
  pub outcome : String
  pub task_id : Option ℕ
  pub error_code : String
  pub error : String

abbrev pub or_last : Option ℕ → Option ℕ → Option ℕ
or_last none last = last
or_last (some n) last = some n

unfoldable pub acknowledged_status :
    Env → ℕ → String → Acknowledgement → ExtensionScheduleStatus → ExtensionScheduleStatus
acknowledged_status env current next a selected = record selected {
  updated_at = iso env current;
  next_run_at = next;
  last_scheduled_at = selected.claim_scheduled_for;
  last_run_at = iso env current;
  last_task_id = or_last a.task_id selected.last_task_id;
  last_outcome = a.outcome;
  last_error_code = a.error_code;
  last_error = a.error;
  last_error_at = if truthy a.error_code then iso env current else "";
  claim_id = "";
  claimed_at = "";
  claim_kind = unclaimed;
  claim_scheduled_for = "";
  run_now_id = "";
  run_now_key = "";
}

abbrev pub is_scheduled : ClaimKind → Bool
is_scheduled scheduled = true
is_scheduled _ = false

-- `next_run_at` after an occurrence; `none` where `_next_run` raises
unfoldable pub next_target : Env → ℕ → ExtensionScheduleStatus → Option String
next_target env current selected =
    if is_scheduled selected.claim_kind
    then text_of env (next_run env selected current)
    else some selected.next_run_at

-- The event that the operation reports on the updated record.
abbrev pub acknowledged_event : Acknowledgement → ExtensionScheduleStatus → ScheduleEvent
acknowledged_event a updated = elim a.task_id [
  | some n ↦ record (schedule_event updated "task_enqueued" "system") { task_id = some n }
  | none ↦ record (schedule_event updated "occurrence_failed" "system") {
    succeeded = false;
    code = a.error_code;
    error = a.error;
  }
]

abbrev acknowledge_found :
    Env
    → ℕ
    → String
    → Acknowledgement
    → List ExtensionScheduleStatus
    → Option ExtensionScheduleStatus
    → Outcome (Option ExtensionScheduleStatus)
acknowledge_found env current claim_id a items none = leave none
acknowledge_found env current claim_id a items (some selected) =
    if not (selected.claim_id == claim_id)
    then leave none
    else elim (next_target env current selected) [
      | none ↦ raise (schedule_error "the next run of the schedule cannot be found")
      | some next ↦
          let updated = acknowledged_status env current next a selected in
          commit (replace_item updated items) (acknowledged_event a updated ∷ []) (some updated)
    ]

-- The transaction of `_acknowledge_schedule`.
unfoldable pub acknowledge_body :
    Env
    → ℕ
    → String
    → String
    → Acknowledgement
    → List ExtensionScheduleStatus
    → Outcome (Option ExtensionScheduleStatus)
unfolding acknowledged_status next_target
acknowledge_body env current schedule_id claim_id a items =
    acknowledge_found env current claim_id a items (find_item schedule_id items)

-- `_acknowledge_schedule`, with the event that its callers report
unfoldable pub acknowledge_schedule :
    Env
    → String
    → String
    → Option Datetime
    → Acknowledgement
    → Operation (Option ExtensionScheduleStatus)
unfolding acknowledge_body
acknowledge_schedule env schedule_id claim_id now a w =
    if not (truthy (strip schedule_id)) || not (truthy (strip claim_id))
    then (ok none, w)
    else transaction env
        (acknowledge_body env (current_time env now) (strip schedule_id) (strip claim_id) a) w

abbrev pub enqueued : ℕ → Acknowledgement
enqueued n = record { outcome = "enqueued"; task_id = some n; error_code = ""; error = "" }

-- `record_extension_schedule_task`
unfoldable pub record_extension_schedule_task :
    Env → String → ℤ → String → Option Datetime → Operation (Option ExtensionScheduleStatus)
unfolding acknowledge_schedule
record_extension_schedule_task env schedule_id task_id claim_id now w = elim (positive task_id) [
  | none ↦ (err (value_error "Extension schedule task ID must be a positive integer."), w)
  | some n ↦ acknowledge_schedule env schedule_id claim_id now (enqueued n) w
]

abbrev max_error_chars : ℕ
max_error_chars = 2048

unfoldable pub failed_with : String → String → Acknowledgement
unfolding take_chars
failed_with code error = record {
  outcome = "failed";
  task_id = none;
  error_code = error_code code;
  error = take_chars max_error_chars (clean_text error);
}

-- `record_extension_schedule_failure`
unfoldable pub record_extension_schedule_failure :
    Env
    → String
    → String
    → String
    → String
    → Option Datetime
    → Operation (Option ExtensionScheduleStatus)
unfolding acknowledge_schedule failed_with
record_extension_schedule_failure env schedule_id claim_id code error now w =
    acknowledge_schedule env schedule_id claim_id now (failed_with code error) w
