-- ===== src/Queue/Cautious.antt =====
-- src/enoch/tasks/queue.py: what `reconcile_running_task`, `retry_running_task` and the changes of
-- past tasks refuse to do.
use enoch.Base.{
  ℕ, suc, ◌≤◌, ◌≡◌, refl, arith, String, Bool, true, false, not, ◌||◌, Option, none, some, List,
  ◌∷◌, ◌++◌, eqb, leb, ◌==◌, inl, inr, Bool-cases, split_first, split_first-eq-some,
}
use enoch.Base.Int.{ℤ}
use enoch.Base.Text.{truthy, or_else}
use enoch.Job.{TaskJob}
use enoch.Queue.Types.{QueueData, TaskReconciliationResult, EventRequest}
use enoch.Queue.Store.{parsed_jobs, running_job, bind, reparse_reconciliation}
use enoch.Queue.Clock.{Clock}
use enoch.Queue.Invariant.{Writes, left, written, Writes-on_option, Writes-if}
use enoch.Queue.Finish.{fenced, event_with_result}
use enoch.Queue.Retry.{retry_running_body}
use enoch.Queue.Regress.{restatus, restatused_job, regress_body, resolve_body, related_event}
use enoch.Queue.Evidence.{
  TaskReconciliationRequest, reconciliation_request_mismatch, terminal_reconciliation_evidence,
  store_reconciliation, store_against, same_reconciliation,
}
use enoch.Queue.Reconcile.{reconcile_body, judge, store_only}

-- The tasks are untouched: at most the reconciliation record differs.
pub record SameTasks (d d' : QueueData) : Type 0 where
  pub pending : d'.pending ≡ d.pending
  pub paused : d'.paused ≡ d.paused
  pub running : d'.running ≡ d.running
  pub history : d'.history ≡ d.history
  pub same_next : d'.next_id ≡ d.next_id

same_tasks :
    (d : QueueData) (r : Option TaskReconciliationResult)
    → SameTasks d (record d { reconciliation = r })
same_tasks d r = record {
  pending = refl;
  paused = refl;
  running = refl;
  history = refl;
  same_next = refl;
}

store_against-SameTasks :
    (d : QueueData) (r : TaskReconciliationResult) (o : Option TaskReconciliationResult)
    → SameTasks d (store_against d r o).1
store_against-SameTasks d r none = same_tasks d (some r)
store_against-SameTasks d r (some previous) = elim (Bool-cases (same_reconciliation previous r)) [
  | inl e ↦ rw e (same_tasks d d.reconciliation)
  | inr e ↦ rw e (same_tasks d (some r))
]

store_only-SameTasks :
    (d : QueueData) (r : TaskReconciliationResult) → Writes (SameTasks d) (store_only d r)
unfolding store_only store_reconciliation
store_only-SameTasks d r =
    Writes-if (store_reconciliation d r).0.recorded
      (λ _. written (store_against-SameTasks d r (bind d.reconciliation reparse_reconciliation)))
      (λ _. left _)

-- When a task runs and the request does not match its worker, or the worker is alive, or the
-- evidence on the task is in conflict, reconciliation writes at most its own record: the pending,
-- paused, running and past tasks and the next id stay as they are.
pub reconcile_body-fails_closed :
    (clock : Clock) (request : Option TaskReconciliationRequest) (alive : TaskJob → Bool)
    (checked_at : String) (d : QueueData) (running : TaskJob)
    → running_job d ≡ some running
    → (truthy (reconciliation_request_mismatch request running)
        || alive running
        || truthy (terminal_reconciliation_evidence running).conflict)
      ≡ true
    → Writes (SameTasks d) (reconcile_body clock request alive checked_at d)
unfolding reconcile_body judge
reconcile_body-fails_closed clock request alive checked_at d running found h = rw found (
    Writes-if (truthy (reconciliation_request_mismatch request running))
      (λ _. store_only-SameTasks d _)
      (λ m.
        Writes-if (alive running) (λ _. left _)
          (λ a.
            Writes-if (truthy (terminal_reconciliation_evidence running).conflict)
              (λ _. store_only-SameTasks d _) (λ c. absurd (none_of _ _ _ m a c h)))))
  where
    none_of : (a b c : Bool) → a ≡ false → b ≡ false → c ≡ false → (a || b || c) ≡ true → ⊥
    none_of a b c h k l m = ground arith

-- When a task runs, `retry_running_task` writes only if the task's attempts are fewer than its
-- maximum.
pub retry_running_body-bounded :
    (clock : Clock) (i : ℕ) (result code class worker : String) (delay : ℤ) (actor trigger : String)
    (d : QueueData) (running : TaskJob)
    → running_job d ≡ some running
    → Writes
        (λ d'. suc running.attempt ≤ running.max_attempts)
        (retry_running_body clock i result code class worker delay actor trigger d)
unfolding retry_running_body
retry_running_body-bounded clock i result code class worker delay actor trigger d running found =
    rw found (
      Writes-if
        (not (eqb running.id i)
          || fenced worker running
          || leb running.max_attempts running.attempt)
        (λ _. left none)
        (λ h. written (
          left_over (not (eqb running.id i)) (fenced worker running)
            (leb running.max_attempts running.attempt) refl h)))
  where
    left_over :
        (a b c : Bool)
        → leb running.max_attempts running.attempt ≡ c
        → (a || b || c) ≡ false
        → suc running.attempt ≤ running.max_attempts
    left_over a b c e h = ground (arith, e, h)

-- What a change of a past task writes: the history differs in the task with the id, which had the
-- status `from`; of its fields, the status, the time of its end and the result are new.
pub record Restatused (d : QueueData) (i : ℕ) (from to now result : String) (d' : QueueData)
    : Type 0 where
  pub before : List TaskJob
  pub job : TaskJob
  pub behind : List TaskJob
  pub was : parsed_jobs d.history ≡ before ++ job ∷ behind
  pub same_id : job.id ≡ i
  pub status : (job.status == from) ≡ true
  pub is :
      d'.history
      ≡ before
        ++ record job { status = to; completed_at = now; result = or_else result job.result }
          ∷ behind
  pub same_next : d'.next_id ≡ d.next_id
  pub pending : d'.pending ≡ d.pending
  pub paused : d'.paused ≡ d.paused
  pub running : d'.running ≡ d.running

restatus-Restatused :
    (d : QueueData) (i : ℕ) (from to now result : String) (event : TaskJob → EventRequest)
    → Writes (Restatused d i from to now result) (restatus d i from to now result event)
unfolding restatused_job
restatus-Restatused d i from to now result event =
    Writes-on_option (split_first (λ j. eqb j.id i) (parsed_jobs d.history)) (λ _. left none)
      (λ (before, job, behind) found.
        Writes-if (not (job.status == from)) (λ _. left none)
          (λ h. written (changed before job behind found h)))
  where
    changed :
        (before : List TaskJob) (job : TaskJob) (behind : List TaskJob)
        → split_first (λ j. eqb j.id i) (parsed_jobs d.history) ≡ some (before, job, behind)
        → not (job.status == from) ≡ false
        → Restatused d i from to now result
            (record d { history = before ++ restatused_job job to now result ∷ behind })
    changed before job behind found h =
        let (split, same) = split_first-eq-some (λ j. eqb j.id i) (parsed_jobs d.history) found in
        record {
          before = before;
          job = job;
          behind = behind;
          was = split;
          same_id = ground (arith, same);
          status = ground (arith, h);
          is = refl;
          same_next = refl;
          pending = refl;
          paused = refl;
          running = refl;
        }

-- Whatever `regress_task` writes differs in the past task with the given id, in its place: its
-- status was `completed`, and it now has the status `regressed`, the given time, the given result
-- if that is not empty, and all its other fields as before; the next id and the pending, paused
-- and running tasks stay as they are.
pub regress_body-Restatused :
    (i : ℕ) (result actor trigger now : String) (d : QueueData)
    → Writes
        (Restatused d i "completed" "regressed" now result)
        (regress_body i result actor trigger now d)
unfolding regress_body
regress_body-Restatused i result actor trigger now d =
    restatus-Restatused d i "completed" "regressed" now result
      (λ job. event_with_result job "regressed" actor trigger result)

-- Whatever `resolve_regressed_task` writes differs in the past task with the given id, in its
-- place: its status was `regressed`, and it now has the resolution as its status, the given time,
-- the given result if that is not empty, and all its other fields as before; the next id and the
-- pending, paused and running tasks stay as they are.
pub resolve_body-Restatused :
    (i : ℕ) (resolution result actor trigger : String) (related : Option ℕ) (now : String)
    (d : QueueData)
    → Writes
        (Restatused d i "regressed" resolution now result)
        (resolve_body i resolution result actor trigger related now d)
unfolding resolve_body
resolve_body-Restatused i resolution result actor trigger related now d =
    Writes-if _ (λ _. left none)
      (λ _.
        restatus-Restatused d i "regressed" resolution now result
          (related_event resolution actor trigger result related))
