-- ===== src/Schedules/Types.antt =====
-- src/enoch/extensions/schedules.py: a declared schedule, its durable record, the errors of an
-- operation, the events that it reports, and its results.
use Prim.Native.String.{String}
use enoch.Base.{ℕ, zero, suc, Bool, Option, List}
use enoch.Base.Text.{truthy}
use enoch.Payloads.Bounds.{Metadata}
use enoch.Payloads.References.{ArtifactReference}

pub data State : Type 0 where
  active paused disabled : State

pub data Cadence : Type 0 where
  interval daily : Cadence

-- `claim_kind`: the empty text, `scheduled` or `run-now`
pub data ClaimKind : Type 0 where
  unclaimed scheduled run_now : ClaimKind

-- `ExtensionScheduleSpec`; an interval below 0, which the code refuses, is not modelled.
pub record ExtensionScheduleSpec : Type 0 where
  pub name : String
  pub request : String
  pub interval_seconds : ℕ
  pub daily_time : String
  pub timezone : String
  pub context : String
  pub required_capabilities : List String
  pub metadata : Metadata
  pub artifact_refs : List ArtifactReference
  pub lane : String
  pub api_version : ℕ

-- `ExtensionScheduleSpec.cadence`
abbrev pub cadence_of : ℕ → Cadence
cadence_of zero = daily
cadence_of (suc n) = interval

pub record ExtensionScheduleStatus : Type 0 where
  pub id : String
  pub extension_name : String
  pub name : String
  pub state : State
  pub request : String
  pub cadence : Cadence
  pub interval_seconds : ℕ
  pub daily_time : String
  pub timezone : String
  pub context : String
  pub required_capabilities : List String
  pub metadata : Metadata
  pub artifact_refs : List ArtifactReference
  pub lane : String
  pub spec_version : ℕ
  pub created_at : String
  pub updated_at : String
  pub next_run_at : String
  pub last_scheduled_at : String
  pub last_run_at : String
  pub last_task_id : Option ℕ
  pub last_outcome : String
  pub last_error_code : String
  pub last_error : String
  pub last_error_at : String
  pub claim_id : String
  pub claimed_at : String
  pub claim_kind : ClaimKind
  pub claim_scheduled_for : String
  pub run_now_id : String
  pub run_now_key : String
  pub run_now_history : List String
  pub paused_at : String
  pub disabled_at : String

-- `ExtensionScheduleStatus.claimed`
abbrev pub claimed : ExtensionScheduleStatus → Bool
claimed status = truthy status.claim_id

-- `ExtensionScheduleOperation`
pub data Control : Type 0 where
  status pause resume run_now : Control

-- `ExtensionScheduleControlError` with its code, `ExtensionScheduleError`, and the others.
pub data Error : Type 0 where
  schedule_not_found : Control → String → Error
  invalid_state : Control → String → State → Error
  schedule_error value_error state_corruption : String → Error

pub data Result {ℓ} (A : Type ℓ) : Type ℓ where
  ok : A → Result A
  err : Error → Result A

-- A call of `_log_system_event`.
pub record ScheduleEvent : Type 0 where
  pub event : String
  pub schedule_id : String
  pub extension : String
  pub schedule : String
  pub outcome : String
  pub event_actor : String
  pub next_run_at : String
  pub succeeded : Bool
  pub task_id : Option ℕ
  pub code : String
  pub error : String

-- What the body of a transaction ends in: an exception, a return that writes nothing, or a
-- return after `_write_schedule_data` and the calls that report events.
pub data Outcome {ℓ} (A : Type ℓ) : Type ℓ where
  raise : Error → Outcome A
  leave : A → Outcome A
  commit : List ExtensionScheduleStatus → List ScheduleEvent → A → Outcome A

-- The schedules' file, if there is one, and the events reported so far.
pub record World : Type 0 where
  pub file : Option (List ExtensionScheduleStatus)
  pub events : List ScheduleEvent

abbrev pub Operation : Type 0 → Type 0
Operation A = World → Result A × World
