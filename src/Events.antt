-- ===== src/Events.antt =====
-- src/enoch/tasks/events.py: the log of what happened to the tasks. Each line of the file is the
-- dictionary of the event that stands here, in the order in which the lines were written.
pub mod Record
pub mod Load
pub mod Latest
pub mod Newest
mod Examples
use Prim.Native.String.{String}
use enoch.Base.{ℕ, Bool, Option, List, [], ◌∷◌}
use enoch.Job.{Usage}
use enoch.Payloads.Bounds.{Metadata}
use enoch.Payloads.References.{ArtifactReference}

-- `TaskEvent`
pub record TaskEvent : Type 0 where
  pub id : String
  pub task_id : ℕ
  pub occurred_at : String
  pub event : String
  pub source : String
  pub initiated_by : String
  pub event_actor : String
  pub trigger : String
  pub request : String
  pub result_summary : String
  pub context_source : String
  pub candidate_id : String
  pub parent_task_id : Option ℕ
  pub evidence_source : String
  pub signal_actor : String
  pub candidate_actor : String
  pub approval_actor : String
  pub parent_candidate_id : String
  pub source_task_id : Option ℕ
  pub related_task_id : Option ℕ
  pub workspace_id : String
  pub review_id : String
  pub review_urls : List String
  pub changed_files : List String
  pub publish_stage : String
  pub revision_id : String
  pub attempt : ℕ
  pub max_attempts : ℕ
  pub next_attempt_at : String
  pub failure_code : String
  pub failure_class : String
  pub retryable : Bool
  pub runtime_provider : String
  pub runtime_session_id : String
  pub runtime_completion_reason : String
  pub runtime_usage : Option Usage
  pub runtime_event_types : List String
  pub runtime_output_refs : List String
  pub runtime_side_effects : List String
  pub extension_metadata : Metadata
  pub extension_artifact_refs : List ArtifactReference
  pub execution_lane : String

-- `TASK_EVENT_TYPES`
abbrev pub task_event_types : List String
task_event_types =
    "created" ∷ "queued" ∷ "retrying" ∷ "started" ∷ "completed" ∷ "failed" ∷ "cancelled" ∷ "paused"
    ∷ "resumed" ∷ "regressed" ∷ "reverted" ∷ "forward-fixed" ∷ []

-- `TASK_EVENT_ACTORS`
abbrev pub task_event_actors : List String
task_event_actors = "human" ∷ "agent" ∷ "system" ∷ []

-- The events that end a task.
abbrev pub terminal_events : List String
terminal_events =
    "completed" ∷ "failed" ∷ "cancelled" ∷ "regressed" ∷ "reverted" ∷ "forward-fixed" ∷ []
