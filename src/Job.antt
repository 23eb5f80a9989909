-- ===== src/Job.antt =====
-- src/enoch/tasks/queue.py: `TaskJob`, and the values that its fields hold.
pub mod Normalize
pub mod Reparse
pub mod Facts
use enoch.Base.{ℕ, String, Bool, true, false, Option, none, List, []}
use enoch.Base.Int.{ℤ}
use enoch.Payloads.Bounds.{Metadata}
use enoch.Payloads.References.{ArtifactReference}
use enoch.Json.{Fields, end}

-- `ConversationId = int | str`, and `MessageId`
pub data ConversationId : Type 0 where
  number : ℤ → ConversationId
  name : String → ConversationId

-- `runtime_usage`, where it is not empty
pub record Usage : Type 0 where
  pub input_tokens : ℕ
  pub cached_input_tokens : ℕ
  pub output_tokens : ℕ
  pub reasoning_tokens : ℕ

-- Ids, attempts and limits are positive in every job that `_parse_job` returns.
pub record TaskJob : Type 0 where
  pub id : ℕ
  pub chat_id : ConversationId
  pub text : String
  pub created_at : String
  pub thread_id : Option ConversationId
  pub started_at : String
  pub completed_at : String
  pub status : String
  pub status_message_id : Option ConversationId
  pub result : String
  pub review_urls : List String
  pub context : String
  pub context_source : String
  pub source : String
  pub initiated_by : String
  pub trigger : String
  pub candidate_id : String
  pub parent_task_id : Option ℕ
  pub evidence_source : String
  pub signal_actor : String
  pub candidate_actor : String
  pub approval_actor : String
  pub parent_candidate_id : String
  pub source_task_id : Option ℕ
  pub worker_id : String
  pub worker_pid : Option ℕ
  pub worker_heartbeat_at : String
  pub worker_lease_id : String
  pub workspace_path : String
  pub workspace_id : String
  pub attempt : ℕ
  pub max_attempts : ℕ
  pub timeout_seconds : Option ℕ
  pub required_capabilities : List String
  pub extension_metadata : Metadata
  pub extension_artifact_refs : List ArtifactReference
  pub execution_lane : String
  pub next_attempt_at : String
  pub failure_code : String
  pub failure_class : String
  pub retryable : Bool
  pub runtime_provider : String
  pub runtime_session_id : String
  pub runtime_completion_reason : String
  pub runtime_usage : Option Usage
  pub runtime_event_types : List String
  pub runtime_output_refs : List String
  pub runtime_side_effects : List String
  pub idempotency_key : String
  pub publish_stage : String
  pub revision_id : String
  pub review_id : String
  pub review_url : String
  pub review_published : Bool
  pub terminal_status : String
  pub terminal_evidence_source : String
  pub terminal_evidence_at : String

abbrev pub default_max_attempts : ℕ
default_max_attempts = 3

-- A job with the defaults of the dataclass in every field that has one.
abbrev pub new_job : ℕ → ConversationId → String → String → TaskJob
new_job id chat_id text created_at = record {
  id = id;
  chat_id = chat_id;
  text = text;
  created_at = created_at;
  thread_id = none;
  started_at = "";
  completed_at = "";
  status = "pending";
  status_message_id = none;
  result = "";
  review_urls = [];
  context = "";
  context_source = "";
  source = "task";
  initiated_by = "human";
  trigger = "";
  candidate_id = "";
  parent_task_id = none;
  evidence_source = "";
  signal_actor = "";
  candidate_actor = "";
  approval_actor = "";
  parent_candidate_id = "";
  source_task_id = none;
  worker_id = "";
  worker_pid = none;
  worker_heartbeat_at = "";
  worker_lease_id = "";
  workspace_path = "";
  workspace_id = "";
  attempt = 0;
  max_attempts = default_max_attempts;
  timeout_seconds = none;
  required_capabilities = [];
  extension_metadata = end;
  extension_artifact_refs = [];
  execution_lane = "";
  next_attempt_at = "";
  failure_code = "";
  failure_class = "";
  retryable = false;
  runtime_provider = "";
  runtime_session_id = "";
  runtime_completion_reason = "";
  runtime_usage = none;
  runtime_event_types = [];
  runtime_output_refs = [];
  runtime_side_effects = [];
  idempotency_key = "";
  publish_stage = "";
  revision_id = "";
  review_id = "";
  review_url = "";
  review_published = false;
  terminal_status = "";
  terminal_evidence_source = "";
  terminal_evidence_at = "";
}
