-- ===== src/Queue/Reconcile.antt =====
-- src/enoch/tasks/queue.py: `reconcile_running_task`, what becomes of a running task whose worker
-- may be gone, and `recover_interrupted_task`.
use enoch.Base.{
  ℕ, String, Bool, true, false, not, Option, none, some, List, [], ◌∷◌, ◌++◌, eqb, leb, any, null,
  if◌then◌else◌,
}
use enoch.Base.Int.{pos}
use enoch.Base.Text.{truthy, strip, or_else, join, decimal}
use enoch.Job.{TaskJob}
use enoch.Queue.Types.{
  on_option, ReconciliationOutcome, no_op, terminal_repair, interrupted_worker_recovery, conflict,
  unsupported_evidence, TaskReconciliationResult, QueueData, Result, ok, err, Outcome, leave,
  commit, World, Operation,
}
use enoch.Queue.Store.{parsed_jobs, running_job, transaction}
use enoch.Queue.Clock.{Clock, retry_at_from}
use enoch.Queue.Finish.{without_worker, event_with_result}
use enoch.Queue.Regress.{find_task_in_status}
use enoch.Queue.Evidence.{
  TaskReconciliationRequest, reconciliation_request_mismatch, Verdict,
  terminal_reconciliation_evidence, unsupported_reconciliation_evidence, store_reconciliation,
}

-- A result about the running task, with its worker's identity.
unfoldable pub result_about :
    TaskJob
    → String
    → ReconciliationOutcome
    → String
    → List String
    → String
    → TaskReconciliationResult
result_about running checked_at outcome resulting evidence reason = record {
  outcome = outcome;
  checked_at = checked_at;
  task_id = some running.id;
  previous_status = running.status;
  resulting_status = resulting;
  evidence = evidence;
  reason = reason;
  worker_id = running.worker_id;
  worker_heartbeat_at = running.worker_heartbeat_at;
  worker_lease_id = running.worker_lease_id;
  recorded = true;
}

-- No task is running.
unfoldable pub idle_result : String → TaskReconciliationResult
idle_result checked_at = record {
  outcome = no_op;
  checked_at = checked_at;
  task_id = none;
  previous_status = "idle";
  resulting_status = "idle";
  evidence = [];
  reason = "No task is running.";
  worker_id = "";
  worker_heartbeat_at = "";
  worker_lease_id = "";
  recorded = false;
}

-- `result = _store_reconciliation(...); if result.recorded: _write_queue(...)`
unfoldable pub store_only : QueueData → TaskReconciliationResult → Outcome TaskReconciliationResult
store_only d result =
    let (stored, d') = store_reconciliation d result in
    if stored.recorded then commit d' [] stored else leave stored

unfoldable pub repaired_job : TaskJob → String → String → TaskJob
unfolding without_worker
repaired_job running status checked_at =
    let job = without_worker running in
    record job { status = status; completed_at = checked_at; next_attempt_at = "" }

unfoldable pub exhausted_job : TaskJob → String → TaskJob
unfolding without_worker
exhausted_job running checked_at =
    let job = without_worker running in
    record job {
      status = "failed";
      completed_at = checked_at;
      result = join "" (
          "Task worker was interrupted and automatic recovery exhausted "
          ∷ decimal running.max_attempts
          ∷ " attempts."
          ∷ []);
      failure_code = "worker_interrupted";
      failure_class = "transient";
      retryable = false;
      next_attempt_at = "";
    }

unfoldable pub requeued_job : Clock → TaskJob → String → TaskJob
unfolding without_worker
requeued_job clock running checked_at =
    let job = without_worker running in
    record job {
      status = "pending";
      started_at = "";
      next_attempt_at = retry_at_from clock checked_at (pos 0);
      failure_code = "worker_interrupted";
      failure_class = "transient";
      retryable = true;
    }

-- The running task goes to the history with the status that the evidence proves.
unfoldable pub repair : QueueData → TaskJob → String → Verdict → Outcome TaskReconciliationResult
unfolding repaired_job
repair d running checked_at v =
    let history = parsed_jobs d.history in
    if any (λ job. eqb job.id running.id) history
    then store_only d (
        result_about running checked_at conflict running.status v.evidence
          "Task history already contains the running task id.")
    else (let finished = repaired_job running v.status checked_at in
        let result =
          result_about running checked_at terminal_repair finished.status v.evidence
            "Durable terminal evidence finalized the running task." in
        commit
          (record d {
            running = none;
            history = history ++ finished ∷ [];
            reconciliation = some result;
          })
          (event_with_result finished finished.status "system" "reconciliation" finished.result
            ∷ [])
          result)

-- No attempt is left: the task fails.
unfoldable pub exhaust : QueueData → TaskJob → String → Outcome TaskReconciliationResult
unfolding exhausted_job
exhaust d running checked_at =
    let failed = exhausted_job running checked_at in
    let result =
      result_about running checked_at interrupted_worker_recovery failed.status
        ("inactive-worker" ∷ "retry-policy-exhausted" ∷ [])
        "The inactive worker exhausted bounded recovery attempts." in
    commit
      (record d {
        running = none;
        history = parsed_jobs d.history ++ failed ∷ [];
        reconciliation = some result;
      })
      (event_with_result failed "failed" "system" "recovery-exhausted" failed.result ∷ []) result

-- The task goes back to the front of the pending tasks.
unfoldable pub requeue : Clock → QueueData → TaskJob → String → Outcome TaskReconciliationResult
unfolding requeued_job
requeue clock d running checked_at =
    let recovered = requeued_job clock running checked_at in
    let result =
      result_about running checked_at interrupted_worker_recovery recovered.status
        ("inactive-worker" ∷ "retry-policy-available" ∷ [])
        "The inactive worker was returned to the bounded retry queue." in
    commit
      (record d {
        running = none;
        pending = recovered ∷ parsed_jobs d.pending;
        reconciliation = some result;
      })
      (event_with_result recovered "retrying" "system" "recovery" "Task worker was interrupted."
        ∷ event_with_result recovered "queued" "system" "recovery" "Task worker was interrupted."
        ∷ [])
      result

-- The worker is inactive, and no evidence is in conflict.
unfoldable pub recover : Clock → QueueData → TaskJob → String → Outcome TaskReconciliationResult
unfolding exhaust requeue
recover clock d running checked_at =
    let unsupported = unsupported_reconciliation_evidence running in
    if not (null unsupported)
    then store_only d (
        result_about running checked_at unsupported_evidence running.status unsupported
          "Durable evidence exists, but it does not prove a terminal task outcome. Reconciliation failed closed.")
    else if leb running.max_attempts running.attempt
    then exhaust d running checked_at
    else requeue clock d running checked_at

-- The cases after the request and the worker's liveness.
unfoldable pub judge :
    Clock → QueueData → TaskJob → String → Verdict → Outcome TaskReconciliationResult
unfolding repair recover
judge clock d running checked_at v =
    if truthy v.conflict
    then store_only d
        (result_about running checked_at conflict running.status v.evidence v.conflict)
    else if truthy v.status
    then repair d running checked_at v
    else recover clock d running checked_at

unfoldable pub reconcile_body :
    Clock
    → Option TaskReconciliationRequest
    → (TaskJob → Bool)
    → String
    → QueueData
    → Outcome TaskReconciliationResult
unfolding judge result_about idle_result store_only
reconcile_body clock request worker_liveness checked_at d =
    on_option (running_job d) (leave (idle_result checked_at)) (λ running.
      let mismatch = reconciliation_request_mismatch request running in
      if truthy mismatch
      then store_only d (
          result_about running checked_at conflict running.status ("task-worker-lease" ∷ [])
            mismatch)
      else if worker_liveness running
      then (let result =
            result_about running checked_at no_op running.status ("active-worker" ∷ [])
              "The authoritative worker is still active." in
          leave (record result { recorded = false }))
      else judge clock d running checked_at (terminal_reconciliation_evidence running))

-- `checked_at` is the argument if it is not blank, and the current time otherwise.
unfoldable pub reconcile_running_task :
    Clock
    → Option TaskReconciliationRequest
    → (TaskJob → Bool)
    → String
    → String
    → Operation TaskReconciliationResult
reconcile_running_task clock request worker_liveness checked_at now =
    transaction (reconcile_body clock request worker_liveness (or_else (strip checked_at) now))

-- The task that was finalized or returned to the queue.
abbrev recovered_id : TaskReconciliationResult → Option ℕ
recovered_id r = elim r.outcome [
  | terminal_repair ↦ r.task_id
  | interrupted_worker_recovery ↦ r.task_id
  | _ ↦ none
]

abbrev look_up : Result TaskReconciliationResult × World → Result (Option TaskJob) × World
look_up (err e, w) = (err e, w)
look_up (ok r, w) = elim (recovered_id r) [
  | none ↦ (ok none, w)
  | some task_id ↦ find_task_in_status task_id w
]

unfoldable pub recover_interrupted_task :
    Clock → (TaskJob → Bool) → String → Operation (Option TaskJob)
unfolding reconcile_running_task
recover_interrupted_task clock worker_liveness now w =
    look_up (reconcile_running_task clock none worker_liveness "" now w)
