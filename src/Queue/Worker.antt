-- ===== src/Queue/Worker.antt =====
-- src/enoch/tasks/queue.py: a worker's hold on the running task.
use Prim.Native.Nat.{ℕ}
use enoch.Base.{
  String, Bool, true, false, not, ◌&&◌, ◌||◌, Option, none, some, [], eqb, is_some, ◌==◌,
  if◌then◌else◌,
}
use enoch.Base.Int.{ℤ, positive}
use enoch.Base.Text.{truthy, strip}
use enoch.Job.{TaskJob}
use enoch.Queue.Types.{on_option, QueueData, Outcome, leave, commit, err, value_error, Operation}
use enoch.Queue.Store.{running_job, transaction}

-- What `os.kill(pid, 0)` comes to.
pub data Probe : Type 0 where
  delivered process_lookup_error permission_error : Probe

-- `task_worker_is_active`
unfoldable pub task_worker_is_active : (ℕ → Probe) → TaskJob → Bool
task_worker_is_active kill job = if not (truthy job.worker_id) then false else elim job.worker_pid [
  | none ↦ false
  | some pid ↦ elim (kill pid) [ process_lookup_error ↦ false | _ ↦ true ]
]

-- `data["running"] = _job_to_dict(job); _write_queue(data)`, with no event
abbrev pub write_running : QueueData → TaskJob → Outcome (Option TaskJob)
write_running d job = commit (record d { running = some job }) [] (some job)

unfoldable pub claimed_job : TaskJob → String → Option ℕ → String → String → TaskJob
claimed_job running worker_id pid now lease = record running {
  worker_id = worker_id;
  worker_pid = pid;
  worker_heartbeat_at = now;
  worker_lease_id = lease;
}

-- Another worker holds the task, and is alive.
unfoldable pub held_by_other : (ℕ → Probe) → String → TaskJob → Bool
unfolding task_worker_is_active
held_by_other kill worker_id running =
    truthy running.worker_id
    && not (running.worker_id == worker_id)
    && task_worker_is_active kill running

unfoldable pub claim_job :
    (ℕ → Probe)
    → String
    → Option ℕ
    → String
    → String
    → QueueData
    → TaskJob
    → Outcome (Option TaskJob)
claim_job kill worker_id pid now lease d running =
    if held_by_other kill worker_id running
    then leave none
    else write_running d (claimed_job running worker_id pid now lease)

unfoldable pub claim_body :
    (ℕ → Probe) → ℕ → String → Option ℕ → String → String → QueueData → Outcome (Option TaskJob)
unfolding claim_job held_by_other claimed_job
claim_body kill task_id worker_id pid now lease d =
    on_option (running_job d) (leave none) (λ running.
      if eqb running.id task_id
      then claim_job kill worker_id pid now lease d running
      else leave none)

-- `kill` answers for the operating system, `lease` is the new `uuid4().hex`.
unfoldable pub claim_running_task :
    (ℕ → Probe) → ℕ → String → ℤ → String → String → Operation (Option TaskJob)
claim_running_task kill task_id worker_id worker_pid now lease w =
    let cleaned = strip worker_id in
    let pid = positive worker_pid in
    if not (truthy cleaned) || not (is_some pid)
    then (err (value_error "A worker id and process id are required."), w)
    else transaction (claim_body kill task_id cleaned pid now lease) w

-- The running task, if it has this id and this worker.
unfoldable pub held_by : QueueData → ℕ → String → Option TaskJob
held_by d task_id worker_id = elim (running_job d) [
  | none ↦ none
  | some running ↦
      if eqb running.id task_id && running.worker_id == worker_id then some running else none
]

unfoldable pub beaten_job : TaskJob → String → String → TaskJob
beaten_job running now lease = record running { worker_heartbeat_at = now; worker_lease_id = lease }

unfoldable pub placed_job : TaskJob → String → String → TaskJob
placed_job running workspace_path workspace_id = record running {
  workspace_path = workspace_path;
  workspace_id = strip workspace_id;
}

unfoldable pub heartbeat_body : ℕ → String → String → String → QueueData → Outcome (Option TaskJob)
unfolding held_by beaten_job
heartbeat_body task_id worker_id now lease d =
    on_option (held_by d task_id worker_id) (leave none)
      (λ running. write_running d (beaten_job running now lease))

unfoldable pub heartbeat_task : ℕ → String → String → String → Operation (Option TaskJob)
heartbeat_task task_id worker_id now lease w =
    let cleaned = strip worker_id in
    if not (truthy cleaned)
    then (err (value_error "A worker id is required."), w)
    else transaction (heartbeat_body task_id cleaned now lease) w

-- `workspace_path` is the resolved path, as text.
unfoldable pub workspace_body : ℕ → String → String → String → QueueData → Outcome (Option TaskJob)
unfolding held_by placed_job
workspace_body task_id worker_id workspace_path workspace_id d =
    on_option (if truthy worker_id then held_by d task_id worker_id else none) (leave none)
      (λ running. write_running d (placed_job running workspace_path workspace_id))

unfoldable pub record_task_workspace : ℕ → String → String → String → Operation (Option TaskJob)
record_task_workspace task_id worker_id workspace_path workspace_id =
    transaction (workspace_body task_id worker_id workspace_path workspace_id)

unfoldable pub record_task_worktree : ℕ → String → String → String → Operation (Option TaskJob)
record_task_worktree task_id worker_id worktree_path branch_name =
    record_task_workspace task_id worker_id worktree_path branch_name
