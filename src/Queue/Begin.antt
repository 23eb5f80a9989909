-- ===== src/Queue/Begin.antt =====
-- src/enoch/tasks/queue.py: `begin_next_task`, and the lanes within which tasks keep their order.
use enoch.Base.{
  ◌+◌, String, Bool, true, false, not, ◌&&◌, Option, none, some, List, [], ◌∷◌, ◌++◌, all, keep,
  map, ◌==◌, if◌then◌else◌,
}
use enoch.Base.Text.{truthy, one_of}
use enoch.Job.{TaskJob}
use enoch.Queue.Types.{on_option, QueueData, Outcome, leave, commit, Operation}
use enoch.Queue.Store.{parsed_jobs, running_job, transaction}
use enoch.Queue.Clock.{Clock, task_is_due}
use enoch.Queue.Enqueue.{event_of}

-- The lanes of the paused tasks.
unfoldable pub blocked_lanes : List TaskJob → List String
blocked_lanes paused =
    map (λ job. job.execution_lane) (keep (λ job. truthy job.execution_lane) paused)

-- `_lane_predecessors_finished`
unfoldable pub lane_predecessors_finished : TaskJob → List TaskJob → List String → Bool
lane_predecessors_finished job predecessors blocked =
    if not (truthy job.execution_lane)
    then true
    else not (one_of job.execution_lane blocked)
      && all (λ predecessor. not (predecessor.execution_lane == job.execution_lane)) predecessors

-- The condition under which the search for a ready task stops.
unfoldable pub task_is_ready : Clock → List String → List TaskJob → TaskJob → Bool
unfolding lane_predecessors_finished
task_is_ready clock blocked predecessors job =
    task_is_due clock job && lane_predecessors_finished job predecessors blocked

-- The search over `enumerate(pending)`: the tasks before the ready one, that one, and the rest.
unfoldable pub first_ready :
    Clock
    → List String
    → List TaskJob
    → List TaskJob
    → Option (List TaskJob × TaskJob × List TaskJob)
unfolding task_is_ready
first_ready clock blocked predecessors [] = none
first_ready clock blocked predecessors (job ∷ jobs) =
    let later = first_ready clock blocked (predecessors ++ job ∷ []) jobs in
    if task_is_ready clock blocked predecessors job then some (predecessors, job, jobs) else later

-- The job as it runs.
unfoldable pub started_job : TaskJob → String → TaskJob
started_job job now = record job {
  started_at = now;
  completed_at = "";
  status = "running";
  attempt = job.attempt + 1;
  next_attempt_at = "";
  failure_code = "";
  failure_class = "";
  retryable = false;
}

unfoldable pub begin_next_body : Clock → String → QueueData → Outcome (Option TaskJob)
unfolding blocked_lanes first_ready started_job
begin_next_body clock now d =
    on_option (running_job d)
      (on_option
        (first_ready clock (blocked_lanes (parsed_jobs d.paused)) [] (parsed_jobs d.pending))
        (leave none)
        (λ (before, job, behind).
          let running = started_job job now in
          commit (record d { pending = before ++ behind; running = some running })
            (event_of running "started" "system" "task-runner" ∷ []) (some running)))
      (λ running. leave none)

unfoldable pub begin_next_task : Clock → String → Operation (Option TaskJob)
begin_next_task clock now = transaction (begin_next_body clock now)
