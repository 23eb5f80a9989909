-- ===== src/Queue/Finish.antt =====
-- src/enoch/tasks/queue.py: the ends of a task, `complete_task`, `fail_task`, `cancel_task` and
-- `cancel_running_task`.
use enoch.Base.{
  ℕ, String, Bool, false, not, ◌&&◌, Option, none, some, List, [], ◌∷◌, ◌++◌, eqb, ◌==◌,
  split_first, if◌then◌else◌,
}
use enoch.Base.Text.{truthy, strip}
use enoch.ReviewUrls.{merge_review_urls, review_urls_in}
use enoch.Job.{TaskJob}
use enoch.Queue.Types.{on_option, QueueData, EventRequest, Outcome, leave, commit, Operation}
use enoch.Queue.Store.{parsed_jobs, running_job, transaction}
use enoch.Queue.Enqueue.{event_of}

-- The fields that say who works on a task, reset.
unfoldable pub without_worker : TaskJob → TaskJob
without_worker job = record job {
  worker_id = "";
  worker_pid = none;
  worker_heartbeat_at = "";
  worker_lease_id = "";
}

-- The review addresses of a job together with those of a new result.
abbrev pub with_result_urls : TaskJob → String → List String
with_result_urls job result = merge_review_urls (job.review_urls ∷ review_urls_in result ∷ [])

abbrev pub event_with_result : TaskJob → String → String → String → String → EventRequest
event_with_result job event event_actor trigger result =
    let request = event_of job event event_actor trigger in record request { result = result }

-- Who ends a task, and why.
pub record Ending : Type 0 where
  pub status : String
  pub result : String
  pub event_actor : String
  pub trigger : String
  pub worker_id : String
  pub failure_code : String
  pub failure_class : String
  pub retryable : Bool

-- The refusals `worker_id and running.worker_id != worker_id`.
abbrev pub fenced : String → TaskJob → Bool
fenced worker_id running = truthy worker_id && not (running.worker_id == worker_id)

unfoldable pub finished_job : TaskJob → Ending → String → TaskJob
unfolding without_worker
finished_job running e now =
    let job = without_worker running in
    record job {
      status = e.status;
      completed_at = now;
      result = e.result;
      review_urls = with_result_urls running e.result;
      failure_code = strip e.failure_code;
      failure_class = strip e.failure_class;
      retryable = e.retryable;
      next_attempt_at = "";
    }

unfoldable pub finish_body : ℕ → Ending → String → QueueData → Outcome (Option TaskJob)
unfolding finished_job
finish_body task_id e now d = on_option (running_job d) (leave none) (λ running.
    if not (eqb running.id task_id)
    then leave none
    else if fenced e.worker_id running
    then leave none
    else (let finished = finished_job running e now in
        commit (record d { running = none; history = parsed_jobs d.history ++ finished ∷ [] })
          (event_with_result finished e.status e.event_actor e.trigger e.result ∷ [])
          (some finished)))

-- `_finish_running_task`
unfoldable pub finish_running_task : ℕ → Ending → String → Operation (Option TaskJob)
finish_running_task task_id e now = transaction (finish_body task_id e now)

unfoldable pub complete_task :
    ℕ → String → String → String → String → String → Operation (Option TaskJob)
unfolding finish_running_task
complete_task task_id result event_actor trigger worker_id now =
    finish_running_task task_id
      (record {
        status = "completed";
        result = result;
        event_actor = event_actor;
        trigger = trigger;
        worker_id = worker_id;
        failure_code = "";
        failure_class = "";
        retryable = false;
      })
      now

unfoldable pub fail_task :
    ℕ
    → String
    → String
    → String
    → String
    → String
    → String
    → Bool
    → String
    → Operation (Option TaskJob)
unfolding finish_running_task
fail_task task_id result event_actor trigger worker_id failure_code failure_class retryable now =
    finish_running_task task_id
      (record {
        status = "failed";
        result = result;
        event_actor = event_actor;
        trigger = trigger;
        worker_id = worker_id;
        failure_code = failure_code;
        failure_class = failure_class;
        retryable = retryable;
      })
      now

abbrev pub cancelled_job : TaskJob → String → TaskJob
cancelled_job job now = record job { status = "cancelled"; completed_at = now }

-- The queue without the cancelled task, and that task at the end of the history.
abbrev cancel_into :
    QueueData → List TaskJob → List TaskJob → TaskJob → String → String → Outcome (Option TaskJob)
cancel_into d pending paused cancelled event_actor trigger =
    commit
      (record d {
        pending = pending;
        paused = paused;
        history = parsed_jobs d.history ++ cancelled ∷ [];
      })
      (event_of cancelled "cancelled" event_actor trigger ∷ []) (some cancelled)

unfoldable pub cancel_body : ℕ → String → String → String → QueueData → Outcome (Option TaskJob)
cancel_body task_id event_actor trigger now d =
    on_option (split_first (λ job. eqb job.id task_id) (parsed_jobs d.pending))
      (on_option (split_first (λ job. eqb job.id task_id) (parsed_jobs d.paused)) (leave none)
        (λ (before, job, behind).
          cancel_into d (parsed_jobs d.pending) (before ++ behind) (cancelled_job job now)
            event_actor trigger))
      (λ (before, job, behind).
        cancel_into d (before ++ behind) (parsed_jobs d.paused) (cancelled_job job now) event_actor
          trigger)

unfoldable pub cancel_task : ℕ → String → String → String → Operation (Option TaskJob)
cancel_task task_id event_actor trigger now =
    transaction (cancel_body task_id event_actor trigger now)

-- `expected_task_id is not None and running.id != expected_task_id`
abbrev pub other_task : Option ℕ → TaskJob → Bool
other_task none running = false
other_task (some task_id) running = not (eqb running.id task_id)

-- The running job as it is cancelled.
unfoldable pub stopped_job : TaskJob → String → String → TaskJob
unfolding without_worker
stopped_job running result now =
    let job = without_worker running in
    record job {
      status = "cancelled";
      completed_at = now;
      result = result;
      review_urls = with_result_urls running result;
    }

unfoldable pub cancel_running_body :
    String → String → String → Option ℕ → String → String → QueueData → Outcome (Option TaskJob)
unfolding stopped_job
cancel_running_body result event_actor trigger expected_task_id worker_id now d =
    on_option (running_job d) (leave none) (λ running.
      if other_task expected_task_id running
      then leave none
      else if fenced worker_id running
      then leave none
      else (let cancelled = stopped_job running result now in
          commit (record d { running = none; history = parsed_jobs d.history ++ cancelled ∷ [] })
            (event_with_result cancelled "cancelled" event_actor trigger result ∷ [])
            (some cancelled)))

unfoldable pub cancel_running_task :
    String → String → String → Option ℕ → String → String → Operation (Option TaskJob)
cancel_running_task result event_actor trigger expected_task_id worker_id now =
    transaction (cancel_running_body result event_actor trigger expected_task_id worker_id now)
