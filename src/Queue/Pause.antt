-- ===== src/Queue/Pause.antt =====
-- src/enoch/tasks/queue.py: `pause_task` and `resume_paused_tasks`.
use enoch.Base.{
  ℕ, String, Bool, true, not, Option, none, some, List, [], ◌∷◌, ◌++◌, eqb, any, keep, map,
  split_first, if◌then◌else◌,
}
use enoch.Base.Text.{or_else}
use enoch.Job.{TaskJob}
use enoch.Queue.Types.{
  on_option, on_list, QueueData, EventRequest, Outcome, leave, commit, Operation,
}
use enoch.Queue.Store.{parsed_jobs, running_job, transaction}
use enoch.Queue.Finish.{without_worker, fenced, event_with_result}

abbrev pub has_id : ℕ → TaskJob → Bool
has_id task_id job = eqb job.id task_id

-- The job as it waits.
unfoldable pub paused_job : TaskJob → String → TaskJob
unfolding without_worker
paused_job running result =
    let job = without_worker running in
    record job {
      status = "paused";
      completed_at = "";
      result = or_else result job.result;
      terminal_status = "";
      terminal_evidence_source = "";
      terminal_evidence_at = "";
    }

-- The end of `pause_task`: the chosen job goes behind the other paused jobs.
abbrev pub pause_into :
    ℕ
    → String
    → String
    → String
    → QueueData
    → List TaskJob
    → Option TaskJob
    → TaskJob
    → Outcome (Option TaskJob)
pause_into task_id result event_actor trigger d pending running chosen =
    let job = paused_job chosen result in
    commit
      (record d {
        pending = pending;
        running = running;
        paused = keep (λ j. not (has_id task_id j)) (parsed_jobs d.paused) ++ job ∷ [];
      })
      (event_with_result job "paused" event_actor trigger result ∷ []) (some job)

abbrev pub without_first : ℕ → List TaskJob → List TaskJob
without_first task_id jobs = elim (split_first (has_id task_id) jobs) [
  | none ↦ jobs
  | some (before, job, behind) ↦ before ++ behind
]

-- The running task takes precedence over a pending one of the same id.
unfoldable pub pause_body :
    ℕ → String → String → String → String → QueueData → Outcome (Option TaskJob)
unfolding paused_job
pause_body task_id result event_actor trigger worker_id d =
    let pending = parsed_jobs d.pending in
    let kept = without_first task_id pending in
    let from_pending : Outcome (Option TaskJob) =
      on_option (split_first (has_id task_id) pending) (leave none) (λ (before, job, behind).
        pause_into task_id result event_actor trigger d (before ++ behind) (running_job d) job) in
    on_option (running_job d) from_pending λ running.
      if has_id task_id running
      then (if fenced worker_id running
          then leave none
          else pause_into task_id result event_actor trigger d kept none running)
      else from_pending

unfoldable pub pause_task : ℕ → String → String → String → String → Operation (Option TaskJob)
pause_task task_id result event_actor trigger worker_id =
    transaction (pause_body task_id result event_actor trigger worker_id)

unfoldable pub resumed_job : TaskJob → TaskJob
unfolding without_worker
resumed_job job =
    let j = without_worker job in
    record j { status = "pending"; started_at = ""; completed_at = "" }

-- `task_id is None or job.id == task_id`
abbrev pub selected_by : Option ℕ → TaskJob → Bool
selected_by none job = true
selected_by (some task_id) job = has_id task_id job

-- `job.id in {other.id for other in jobs}`
abbrev pub id_among : List TaskJob → TaskJob → Bool
id_among jobs job = any (λ other. eqb job.id other.id) jobs

abbrev pub resumed_event : String → String → TaskJob → EventRequest
resumed_event event_actor trigger job =
    event_with_result job "resumed" event_actor trigger
      "Resumed after agent runtime access was restored."

-- The case `if not paused: return ()` is that of no selected job.
unfoldable pub resume_body : Option ℕ → String → String → QueueData → Outcome (List TaskJob)
unfolding resumed_job
resume_body task_id event_actor trigger d =
    let paused = parsed_jobs d.paused in
    on_list (keep (selected_by task_id) paused) (leave []) (λ job jobs.
      let selected = job ∷ jobs in
      let resumed = map resumed_job selected in
      commit
        (record d {
          paused = keep (λ j. not (id_among selected j)) paused;
          pending = resumed ++ parsed_jobs d.pending;
        })
        (map (resumed_event event_actor trigger) resumed) resumed)

unfoldable pub resume_paused_tasks : Option ℕ → String → String → Operation (List TaskJob)
resume_paused_tasks task_id event_actor trigger =
    transaction (resume_body task_id event_actor trigger)
