-- ===== src/Queue/Reach.antt =====
-- src/enoch/tasks/queue.py: every operation as a step from one world to the next, and the worlds
-- that any sequence of them leads to.
use enoch.Base.{ℕ, [], ◌∷◌, String, Bool, true, false, Option, if◌then◌else◌}
use enoch.Base.Int.{ℤ, positive}
use enoch.Base.Text.{strip, truthy, lower, one_of, or_else}
use enoch.Job.{TaskJob, ConversationId}
use enoch.Job.Normalize.{positive_int}
use enoch.Queue.Types.{QueueData, Result, ok, err, Outcome, World}
use enoch.Queue.Store.{transaction}
use enoch.Queue.Clock.{Clock}
use enoch.Queue.Invariant.{
  Kept, Added, Writes, Writes-mono, Kept-IsSound, Added-IsSound, write_queue-IsSound, FileIsSound,
  transaction-IsSound, IsStoredData,
}
use enoch.Queue.Enqueue.{
  NewTask, Checked, check_request, after_checks, enqueue_body, enqueue_front_body,
  begin_direct_body, enqueue_task, enqueue_task_front, begin_direct_task,
}
use enoch.Queue.Begin.{begin_next_task}
use enoch.Queue.Worker.{
  Probe, claim_running_task, claim_body, heartbeat_task, heartbeat_body, record_task_workspace,
}
use enoch.Queue.Finish.{Ending, finish_running_task, cancel_task, cancel_running_task}
use enoch.Queue.Pause.{pause_task, resume_paused_tasks}
use enoch.Queue.Retry.{retry_failed_task, retry_running_task}
use enoch.Queue.Regress.{regress_task, resolve_regressed_task, resolve_body}
use enoch.Queue.Record.{
  messaged_job, reported_job, run_job, record_task_status_message, record_task_result,
  RuntimeResult, record_task_runtime_result, TaskPublicationState, record_task_publication,
  publication_body, publish_stages, TaskTerminalEvidence, record_task_terminal_evidence,
  evidence_body,
}
use enoch.Queue.Evidence.{TaskReconciliationRequest}
use enoch.Queue.Reconcile.{reconcile_running_task}
use enoch.Queue.Conserve.Starts.{begin_next_body-Kept}
use enoch.Queue.Conserve.Unread.{
  enqueue_body-IsSoundFile, enqueue_front_body-IsSoundFile, begin_direct_body-IsSoundFile,
  evidence_body-IsSoundFile,
}
use enoch.Queue.Conserve.Ends.{finish_body-Kept, cancel_body-Kept, cancel_running_body-Kept}
use enoch.Queue.Conserve.Workers.{
  claim_body-Kept, heartbeat_body-Kept, workspace_body-Kept, publication_body-Kept,
  retry_running_body-Kept,
}
use enoch.Queue.Conserve.Paused.{pause_body-Kept}
use enoch.Queue.Conserve.Resumed.{resume_body-Kept}
use enoch.Queue.Conserve.Retried.{retry_failed_body-Added}
use enoch.Queue.Conserve.Changes.{
  messaged_job-IsStored, reported_job-IsStored, run_job-IsStored, id-messaged_job, id-reported_job,
  id-run_job, regress_body-Kept, resolve_body-Kept, update_body-Kept,
}
use enoch.Queue.Conserve.Reconciled.{reconcile_body-Kept}

-- A call of an operation of the queue, with whatever arguments.
pub data Step (w : World) : World → Type 0 where
  enqueues : (t : NewTask) (now : String) → Step w (enqueue_task t now w).1
  enqueues_front : (t : NewTask) (now : String) → Step w (enqueue_task_front t now w).1
  begins_direct :
      (t : NewTask) (created started : String) → Step w (begin_direct_task t created started w).1
  begins_next : (clock : Clock) (now : String) → Step w (begin_next_task clock now w).1
  claims :
      (kill : ℕ → Probe) (task_id : ℕ) (worker_id : String) (pid : ℤ) (now lease : String)
      → Step w (claim_running_task kill task_id worker_id pid now lease w).1
  beats :
      (task_id : ℕ) (worker_id now lease : String)
      → Step w (heartbeat_task task_id worker_id now lease w).1
  places :
      (task_id : ℕ) (worker_id path id : String)
      → Step w (record_task_workspace task_id worker_id path id w).1
  finishes :
      (task_id : ℕ) (e : Ending) (now : String) → Step w (finish_running_task task_id e now w).1
  cancels :
      (task_id : ℕ) (actor trigger now : String)
      → Step w (cancel_task task_id actor trigger now w).1
  stops :
      (result actor trigger : String) (expected : Option ℕ) (worker_id now : String)
      → Step w (cancel_running_task result actor trigger expected worker_id now w).1
  pauses :
      (task_id : ℕ) (result actor trigger worker_id : String)
      → Step w (pause_task task_id result actor trigger worker_id w).1
  resumes :
      (task_id : Option ℕ) (actor trigger : String)
      → Step w (resume_paused_tasks task_id actor trigger w).1
  retries :
      (task_id : ℕ) (result actor trigger now : String)
      → Step w (retry_failed_task task_id result actor trigger now w).1
  requeues :
      (clock : Clock) (task_id : ℕ) (result code class worker_id : String) (delay : ℤ)
      (actor trigger : String)
      → Step w
          (retry_running_task clock task_id result code class worker_id delay actor trigger w).1
  regresses :
      (task_id : ℕ) (result actor trigger now : String)
      → Step w (regress_task task_id result actor trigger now w).1
  resolves :
      (task_id : ℕ) (resolution result actor trigger : String) (related : Option ℤ) (now : String)
      → Step w (resolve_regressed_task task_id resolution result actor trigger related now w).1
  messages :
      (task_id : ℕ) (message_id : ConversationId)
      → Step w (record_task_status_message task_id message_id w).1
  reports : (task_id : ℕ) (result : String) → Step w (record_task_result task_id result w).1
  runs :
      (task_id : ℕ) (r : RuntimeResult) (provider : String)
      → Step w (record_task_runtime_result task_id r provider w).1
  publishes :
      (task_id : ℕ) (worker_id : String) (state : TaskPublicationState)
      → Step w (record_task_publication task_id worker_id state w).1
  testifies :
      (task_id : ℕ) (worker_id : String) (e : TaskTerminalEvidence) (now : String)
      → Step w (record_task_terminal_evidence task_id worker_id e now w).1
  reconciles :
      (clock : Clock) (request : Option TaskReconciliationRequest) (alive : TaskJob → Bool)
      (checked_at now : String)
      → Step w (reconcile_running_task clock request alive checked_at now w).1

-- A sequence of calls.
pub data Steps (w : World) : World → Type 0 where
  stay : Steps w w
  and_then : {v u : World} → Steps w v → Step v u → Steps w u

module _ {A : Type 0} (w : World) (s : FileIsSound w.file) (body : QueueData → Outcome A) where
  keeps :
      ((d : QueueData) → IsStoredData d → Writes (Kept d) (body d))
      → FileIsSound (transaction body w).1.file
  keeps h =
      transaction-IsSound body
        (λ d sound.
          Writes-mono (λ d' k. write_queue-IsSound (Kept-IsSound sound k)) (h d sound.stored))
        w s

  adds :
      ((d : QueueData) → IsStoredData d → Writes (Added d) (body d))
      → FileIsSound (transaction body w).1.file
  adds h =
      transaction-IsSound body
        (λ d sound.
          Writes-mono (λ d' k. write_queue-IsSound (Added-IsSound sound k)) (h d sound.stored))
        w s

-- A call that is refused before its transaction.
refused_or :
    {A : Type 0} (b : Bool) (x y : Result A × World)
    → FileIsSound x.1.file
    → FileIsSound y.1.file
    → FileIsSound (if b then x else y).1.file
refused_or true x y hx hy = hx
refused_or false x y hx hy = hy

checked :
    (r : Result Checked) (body : Checked → QueueData → Outcome TaskJob) (w : World)
    → FileIsSound w.file
    → ((c : Checked) → FileIsSound (transaction (body c) w).1.file)
    → FileIsSound (after_checks r body w).1.file
checked (err e) body w s h = s
checked (ok c) body w s h = h c

-- Each operation keeps the file sound.
Step-FileIsSound : {w v : World} → Step w v → FileIsSound w.file → FileIsSound v.file
unfolding enqueue_task enqueue_task_front begin_direct_task begin_next_task claim_running_task
    heartbeat_task record_task_workspace finish_running_task cancel_task cancel_running_task
    pause_task resume_paused_tasks retry_failed_task retry_running_task regress_task
    resolve_regressed_task record_task_status_message record_task_result record_task_runtime_result
    record_task_publication record_task_terminal_evidence reconcile_running_task
Step-FileIsSound {w} (enqueues t now) s =
    checked (check_request t) (λ c. enqueue_body t c now) w s
      (λ c. transaction-IsSound _ (λ d sound. enqueue_body-IsSoundFile t c d sound now) w s)
Step-FileIsSound {w} (enqueues_front t now) s =
    checked (check_request t) (λ c. enqueue_front_body t c now) w s
      (λ c. transaction-IsSound _ (λ d sound. enqueue_front_body-IsSoundFile t c d sound now) w s)
Step-FileIsSound {w} (begins_direct t created started) s =
    checked (check_request t) (λ c. begin_direct_body t c created started) w s
      (λ c.
        transaction-IsSound _ (λ d sound. begin_direct_body-IsSoundFile t c d sound created started)
          w s)
Step-FileIsSound {w} (begins_next clock now) s = keeps w s _ (begin_next_body-Kept clock now)
Step-FileIsSound {w} (claims kill i worker pid now lease) s =
    refused_or _ (_, w) (transaction (claim_body kill i (strip worker) (positive pid) now lease) w)
      s (keeps w s _ (claim_body-Kept kill i (strip worker) (positive pid) now lease))
Step-FileIsSound {w} (beats i worker now lease) s =
    refused_or _ (_, w) (transaction (heartbeat_body i (strip worker) now lease) w) s
      (keeps w s _ (heartbeat_body-Kept i (strip worker) now lease))
Step-FileIsSound {w} (places i worker path id) s =
    keeps w s _ (workspace_body-Kept i worker path id)
Step-FileIsSound {w} (finishes i e now) s = keeps w s _ (finish_body-Kept i e now)
Step-FileIsSound {w} (cancels i actor trigger now) s =
    keeps w s _ (cancel_body-Kept i actor trigger now)
Step-FileIsSound {w} (stops result actor trigger expected worker now) s =
    keeps w s _ (cancel_running_body-Kept result actor trigger expected worker now)
Step-FileIsSound {w} (pauses i result actor trigger worker) s =
    transaction-IsSound _
      (λ d sound.
        Writes-mono (λ d' k. write_queue-IsSound (Kept-IsSound sound k))
          (pause_body-Kept i result actor trigger worker d sound))
      w s
Step-FileIsSound {w} (resumes i actor trigger) s = keeps w s _ (resume_body-Kept i actor trigger)
Step-FileIsSound {w} (retries i result actor trigger now) s =
    adds w s _ (retry_failed_body-Added i result actor trigger now)
Step-FileIsSound {w} (requeues clock i result code class worker delay actor trigger) s =
    keeps w s _ (retry_running_body-Kept clock i result code class worker delay actor trigger)
Step-FileIsSound {w} (regresses i result actor trigger now) s =
    keeps w s _ (λ d sd. regress_body-Kept d sd i result actor trigger now)
Step-FileIsSound {w} (resolves i resolution result actor trigger related now) s =
    refused_or (one_of (lower (strip resolution)) ("reverted" ∷ "forward-fixed" ∷ []))
      (transaction
        (resolve_body i (lower (strip resolution)) result actor trigger (positive_int related) now)
        w)
      (_, w)
      (keeps w s _ (λ d sd.
        resolve_body-Kept d sd i (lower (strip resolution)) result actor trigger
          (positive_int related) now))
      s
Step-FileIsSound {w} (messages i message) s = keeps w s _ (
    update_body-Kept i (messaged_job message) (id-messaged_job message)
      (λ job h. messaged_job-IsStored job h message) true)
Step-FileIsSound {w} (reports i result) s = keeps w s _ (
    update_body-Kept i (reported_job result) (id-reported_job result)
      (λ job h. reported_job-IsStored job h result) false)
Step-FileIsSound {w} (runs i r provider) s = keeps w s _ (
    update_body-Kept i (run_job r provider) (id-run_job r provider)
      (λ job h. run_job-IsStored job h r provider) false)
Step-FileIsSound {w} (publishes i worker state) s =
    refused_or (one_of state.stage publish_stages) (transaction (publication_body i worker state) w)
      (_, w) (keeps w s _ (publication_body-Kept i worker state)) s
Step-FileIsSound {w} (testifies i worker e now) s =
    refused_or (truthy (strip worker)) (transaction (evidence_body i (strip worker) e now) w) (_, w)
      (transaction-IsSound _ (evidence_body-IsSoundFile i (strip worker) e now) w s) s
Step-FileIsSound {w} (reconciles clock request alive checked_at now) s =
    keeps w s _ (reconcile_body-Kept clock request alive (or_else (strip checked_at) now))

-- From a sound file, or from no file at all, any sequence of calls of the queue's operations,
-- with whatever arguments and whether each succeeds or raises, leaves the file absent or sound:
-- `_parse_job` returns a job for every task in it, unless `urlsplit` raises on one of its review
-- addresses, no id occurs twice in all of the pending, paused, running and past tasks together,
-- and no id from `next_id` on occurs.
pub Steps-FileIsSound : {w v : World} → FileIsSound w.file → Steps w v → FileIsSound v.file
Steps-FileIsSound s stay = s
Steps-FileIsSound s (and_then steps step) = Step-FileIsSound step (Steps-FileIsSound s steps)
