-- ===== src/Queue/Retry.antt =====
-- src/enoch/tasks/queue.py: `retry_failed_task` and `retry_running_task`.
use enoch.Base.{
  ℕ, ◌+◌, String, Bool, true, false, not, ◌&&◌, ◌||◌, Option, none, some, List, [], ◌∷◌, ◌++◌, eqb,
  ltb, leb, find, keep, ◌==◌, if◌then◌else◌,
}
use enoch.Base.Int.{ℤ}
use enoch.Base.Text.{truthy, strip}
use enoch.ReviewUrls.{merge_review_urls, review_urls_in, task_result_has_review}
use enoch.Job.{TaskJob, new_job}
use enoch.Queue.Types.{
  on_option, on_list, QueueData, RetryProblem, not_retryable, retried_as_failed, has_retry,
  task_retry_error, Outcome, raise, leave, commit, Operation,
}
use enoch.Queue.Store.{parsed_jobs, running_job, all_jobs, next_id, transaction}
use enoch.Queue.Clock.{Clock, retry_at}
use enoch.Queue.Published.{job_has_unpublished_revision}
use enoch.Queue.Enqueue.{event_of}
use enoch.Queue.Finish.{without_worker, fenced, event_with_result, with_result_urls}

abbrev pub is_retryable : ℕ → TaskJob → Bool
is_retryable task_id job =
    eqb job.id task_id
    && (job.status == "failed" || (job.status == "completed" && job_has_unpublished_revision job))

abbrev is_parent : ℕ → Option ℕ → Bool
is_parent id none = false
is_parent id (some parent) = eqb parent id

-- A retry of the task that was not cancelled.
abbrev pub is_retry_of : ℕ → TaskJob → Bool
is_retry_of id job = is_parent id job.parent_task_id && not (job.status == "cancelled")

-- `max(jobs, key=lambda job: job.id)`: the first of the largest ids
pub latest : TaskJob → List TaskJob → TaskJob
latest best [] = best
latest best (job ∷ jobs) = latest (if ltb best.id job.id then job else best) jobs

abbrev one_review : TaskJob → List String
one_review original = if truthy original.review_url then original.review_url ∷ [] else []

-- The `TaskJob(...)` of `retry_failed_task`.
unfoldable pub retry_job : TaskJob → String → String → ℕ → String → TaskJob
retry_job original reconciled_result trigger id created_at =
    let artifact_result = strip reconciled_result in
    let publication_only =
      job_has_unpublished_revision original && not (task_result_has_review artifact_result) in
    let job = new_job id original.chat_id original.text created_at in
    record job {
      context = original.context;
      context_source = original.context_source;
      source = original.source;
      initiated_by = "human";
      trigger = trigger;
      candidate_id = original.candidate_id;
      parent_task_id = some original.id;
      evidence_source = original.evidence_source;
      signal_actor = original.signal_actor;
      candidate_actor = original.candidate_actor;
      approval_actor = if truthy original.candidate_id then "human" else "";
      parent_candidate_id = original.parent_candidate_id;
      source_task_id = original.source_task_id;
      result = artifact_result;
      review_urls =
          merge_review_urls
            (original.review_urls ∷ review_urls_in artifact_result ∷ one_review original ∷ []);
      workspace_path = original.workspace_path;
      workspace_id = original.workspace_id;
      publish_stage = if publication_only then "captured" else original.publish_stage;
      revision_id = original.revision_id;
      review_id = if publication_only then "" else original.review_id;
      review_url = original.review_url;
      review_published = if publication_only then false else original.review_published;
      max_attempts = original.max_attempts;
      timeout_seconds = original.timeout_seconds;
      required_capabilities = original.required_capabilities;
      extension_metadata = original.extension_metadata;
      extension_artifact_refs = original.extension_artifact_refs;
      execution_lane = original.execution_lane;
    }

-- What the latest retry forbids.
abbrev retried : ℕ → TaskJob → RetryProblem
retried id last =
    if last.status == "failed"
    then retried_as_failed id last.id
    else has_retry id last.id last.status

unfoldable pub retry_failed_body :
    ℕ → String → String → String → String → QueueData → Outcome TaskJob
unfolding latest
retry_failed_body task_id reconciled_result event_actor trigger now d =
    on_option (find (is_retryable task_id) (parsed_jobs d.history))
      (raise (task_retry_error (not_retryable task_id)))
      (λ original.
        on_list (keep (is_retry_of original.id) (all_jobs d))
          (let job = retry_job original reconciled_result trigger (next_id d) now in
            commit (record d { pending = d.pending ++ job ∷ []; next_id = job.id + 1 })
              (event_of job "created" event_actor trigger
                ∷ event_of job "queued" event_actor trigger
                ∷ [])
              job)
          (λ first others. raise (task_retry_error (retried original.id (latest first others)))))

unfoldable pub retry_failed_task : ℕ → String → String → String → String → Operation TaskJob
retry_failed_task task_id reconciled_result event_actor trigger now =
    transaction (retry_failed_body task_id reconciled_result event_actor trigger now)

-- The job as it waits for its next attempt.
unfoldable pub recovered_job : TaskJob → String → String → String → String → TaskJob
unfolding without_worker
recovered_job running result failure_code failure_class retry =
    let job = without_worker running in
    record job {
      status = "pending";
      started_at = "";
      completed_at = "";
      result = result;
      review_urls = with_result_urls running result;
      next_attempt_at = retry;
      failure_code = strip failure_code;
      failure_class = strip failure_class;
      retryable = true;
      terminal_status = "";
      terminal_evidence_source = "";
      terminal_evidence_at = "";
    }

unfoldable pub retry_running_body :
    Clock
    → ℕ
    → String
    → String
    → String
    → String
    → ℤ
    → String
    → String
    → QueueData
    → Outcome (Option TaskJob)
unfolding recovered_job
retry_running_body clock task_id result failure_code failure_class worker_id delay_seconds
      event_actor trigger d =
    on_option (running_job d) (leave none) λ running.
      if not (eqb running.id task_id)
        || fenced worker_id running
        || leb running.max_attempts running.attempt
      then leave none
      else (let recovered =
            recovered_job running result failure_code failure_class
              (retry_at clock delay_seconds) in
          commit (record d { running = none; pending = recovered ∷ parsed_jobs d.pending })
            (event_with_result recovered "retrying" event_actor trigger result
              ∷ event_with_result recovered "queued" event_actor trigger result
              ∷ [])
            (some recovered))

unfoldable pub retry_running_task :
    Clock → ℕ → String → String → String → String → ℤ → String → String → Operation (Option TaskJob)
retry_running_task clock task_id result failure_code failure_class worker_id delay_seconds
      event_actor trigger =
    transaction (
      retry_running_body clock task_id result failure_code failure_class worker_id delay_seconds
        event_actor trigger)
