-- ===== src/Queue/Enqueue.antt =====
-- src/enoch/tasks/queue.py: new tasks.
use enoch.Base.{ℕ, ◌+◌, String, Bool, Option, none, some, List, [], ◌∷◌, ◌++◌, if◌then◌else◌}
use enoch.Base.Int.{ℤ}
use enoch.Base.Text.{truthy, strip, lower, split, join}
use enoch.Json.{Json}
use enoch.Payloads.{require_extension_payload_namespace, require_extension_lane_namespace}
use enoch.Payloads.Bounds.{Metadata, normalize_extension_metadata}
use enoch.Payloads.References.{ArtifactReference, normalize_extension_artifact_references}
use enoch.Job.{ConversationId, TaskJob, new_job}
use enoch.Job.Normalize.{
  normalize_message_id, normalize_task_source, normalize_task_initiator, normalize_provenance_actor,
  task_requirements, required_positive_int, optional_positive_int, positive_int,
}
use enoch.Queue.Types.{
  on_option, QueueData, Result, ok, err, ◌>>=◌, or_raise, value_error, runtime_error,
  task_already_exists, EventRequest, Outcome, raise, leave, commit, Operation,
}
use enoch.Queue.Store.{find_task_by_idempotency_key, next_id, running_job, transaction}

-- The arguments that `enqueue_task`, `enqueue_task_front` and `begin_direct_task` share.
pub record NewTask : Type 0 where
  pub chat_id : ConversationId
  pub text : String
  pub thread_id : Option ConversationId
  pub context : String
  pub context_source : String
  pub source : String
  pub initiated_by : String
  pub event_actor : String
  pub trigger : String
  pub candidate_id : String
  pub parent_task_id : Option ℤ
  pub evidence_source : String
  pub signal_actor : String
  pub candidate_actor : String
  pub approval_actor : String
  pub parent_candidate_id : String
  pub source_task_id : Option ℤ
  pub max_attempts : ℤ
  pub timeout_seconds : Option ℤ
  pub required_capabilities : List String
  pub idempotency_key : String
  pub extension_metadata : Json
  pub extension_artifact_refs : List ArtifactReference
  pub execution_lane : String

-- The arguments that are checked before the transaction, normalized.
pub record Checked : Type 0 where
  pub text : String
  pub source : String
  pub initiated_by : String
  pub max_attempts : ℕ
  pub timeout_seconds : Option ℕ
  pub required_capabilities : List String
  pub extension_metadata : Metadata
  pub extension_artifact_refs : List ArtifactReference
  pub execution_lane : String

abbrev need {ℓ} : {A : Type ℓ} → Option A → String → Result A
need o message = or_raise o (value_error message)

abbrev some_if : Bool → Option (Unit {0})
some_if b = if b then some tt else none

abbrev non_empty_text : String → Option String
non_empty_text s = if truthy s then some s else none

unfoldable pub check_request : NewTask → Result Checked
check_request t = do
  text ← need (non_empty_text (join " " (split t.text))) "Task text is required."
  source ← need (normalize_task_source t.source) "Task source"
  initiated_by ← need (normalize_task_initiator t.initiated_by) "Task initiator"
  max_attempts ← need (required_positive_int t.max_attempts) "Task max attempts"
  timeout_seconds ← need (optional_positive_int t.timeout_seconds) "Task timeout"
  capabilities ← need (task_requirements t.required_capabilities) "Invalid capability"
  metadata ← need (normalize_extension_metadata t.extension_metadata) "Extension metadata"
  refs ← need (normalize_extension_artifact_references t.extension_artifact_refs) "Extension refs"
  namespaced ←
      need (some_if (require_extension_payload_namespace (strip t.context_source) metadata refs))
        "Extension namespace"
  lane ←
      need (require_extension_lane_namespace (strip t.context_source) t.execution_lane)
        "Extension lane"
  ok (record {
    text = text;
    source = source;
    initiated_by = initiated_by;
    max_attempts = max_attempts;
    timeout_seconds = timeout_seconds;
    required_capabilities = capabilities;
    extension_metadata = metadata;
    extension_artifact_refs = refs;
    execution_lane = lane;
  })

-- The `TaskJob(...)` of `enqueue_task` and `enqueue_task_front`.
unfoldable pub job_of_request : NewTask → Checked → ℕ → String → TaskJob
job_of_request t c id created_at =
    let job = new_job id t.chat_id c.text created_at in
    record job {
      thread_id = normalize_message_id t.thread_id;
      context = strip t.context;
      context_source = strip t.context_source;
      source = c.source;
      initiated_by = c.initiated_by;
      trigger = strip t.trigger;
      candidate_id = strip t.candidate_id;
      parent_task_id = positive_int t.parent_task_id;
      evidence_source = lower (strip t.evidence_source);
      signal_actor = normalize_provenance_actor t.signal_actor;
      candidate_actor = normalize_provenance_actor t.candidate_actor;
      approval_actor = normalize_provenance_actor t.approval_actor;
      parent_candidate_id = strip t.parent_candidate_id;
      source_task_id = positive_int t.source_task_id;
      max_attempts = c.max_attempts;
      timeout_seconds = c.timeout_seconds;
      required_capabilities = c.required_capabilities;
      extension_metadata = c.extension_metadata;
      extension_artifact_refs = c.extension_artifact_refs;
      execution_lane = c.execution_lane;
      idempotency_key = strip t.idempotency_key;
    }

abbrev pub event_of : TaskJob → String → String → String → EventRequest
event_of job event event_actor trigger = record {
  job = job;
  event = event;
  event_actor = event_actor;
  trigger = trigger;
  result = "";
  related_task_id = none;
}

created_and_queued : NewTask → TaskJob → List EventRequest
created_and_queued t job =
    event_of job "created" t.event_actor t.trigger
    ∷ event_of job "queued" t.event_actor t.trigger
    ∷ []

-- The transaction of `enqueue_task`: behind the pending tasks
unfoldable pub enqueue_body : NewTask → Checked → String → QueueData → Outcome TaskJob
unfolding created_and_queued
enqueue_body t c now d =
    on_option (find_task_by_idempotency_key d t.idempotency_key)
      (let job = job_of_request t c (next_id d) now in
        commit (record d { pending = d.pending ++ job ∷ []; next_id = job.id + 1 })
          (created_and_queued t job) job)
      (λ existing. leave existing)

-- The transaction of `enqueue_task_front`: before the pending tasks
unfoldable pub enqueue_front_body : NewTask → Checked → String → QueueData → Outcome TaskJob
unfolding created_and_queued
enqueue_front_body t c now d =
    on_option (find_task_by_idempotency_key d t.idempotency_key)
      (let job = job_of_request t c (next_id d) now in
        commit (record d { pending = job ∷ d.pending; next_id = job.id + 1 })
          (created_and_queued t job) job)
      (λ existing. leave existing)

-- The `TaskJob(...)` of `begin_direct_task`.
unfoldable pub direct_job : NewTask → Checked → ℕ → String → String → TaskJob
direct_job t c id created_at started_at =
    let queued = job_of_request t c id created_at in
    record queued { started_at = started_at; status = "running"; attempt = 1 }

-- The transaction of `begin_direct_task`: running at once
unfoldable pub begin_direct_body : NewTask → Checked → String → String → QueueData → Outcome TaskJob
unfolding job_of_request direct_job
begin_direct_body t c created started d =
    on_option (find_task_by_idempotency_key d t.idempotency_key)
      (on_option (running_job d)
        (let job = direct_job t c (next_id d) created started in
          commit (record d { running = some job; next_id = job.id + 1 })
            (event_of job "created" t.event_actor t.trigger
              ∷ event_of job "started" "system" "task-runner"
              ∷ [])
            job)
        (λ running. raise (runtime_error "A task is already running.")))
      (λ existing. raise (task_already_exists existing))

-- The checks come before the transaction, and an error there touches nothing.
abbrev pub after_checks :
    Result Checked → (Checked → QueueData → Outcome TaskJob) → Operation TaskJob
after_checks (err e) body w = (err e, w)
after_checks (ok c) body w = transaction (body c) w

unfoldable pub enqueue_task : NewTask → String → Operation TaskJob
enqueue_task t now = after_checks (check_request t) (λ c. enqueue_body t c now)

unfoldable pub enqueue_task_front : NewTask → String → Operation TaskJob
enqueue_task_front t now = after_checks (check_request t) (λ c. enqueue_front_body t c now)

unfoldable pub begin_direct_task : NewTask → String → String → Operation TaskJob
begin_direct_task t created started =
    after_checks (check_request t) (λ c. begin_direct_body t c created started)
