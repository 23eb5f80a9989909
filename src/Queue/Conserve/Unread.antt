-- ===== src/Queue/Conserve/Unread.antt =====
-- src/enoch/tasks/queue.py: new tasks and terminal evidence that cannot be read back, and the file
-- that the queue is written to then.
use enoch.Base.{
  ℕ, ◌+◌, ◌≤◌, ◌≡◌, refl, ap, none, some, List, [], ◌∷◌, ◌++◌, arith, String, Option-cases, inl,
  inr,
}
use enoch.Base.Text.{truthy}
use enoch.Job.{TaskJob}
use enoch.Job.Reparse.{reparse}
use enoch.Queue.Types.{QueueData}
use enoch.Queue.Store.{parsed_jobs, running_job, next_id, write_queue, find_task_by_idempotency_key}
use enoch.Queue.Count.{IsStored}
use enoch.Queue.Moves.{Kept-replace}
use enoch.Queue.Invariant.{
  IsSound, Writes, raised, left, written, Writes-on_option, Writes-if, write_queue-IsSound,
  Added-IsSound, Kept-IsSound,
}
use enoch.Queue.Enqueue.{
  NewTask, Checked, job_of_request, direct_job, enqueue_body, enqueue_front_body, begin_direct_body,
}
use enoch.Queue.Worker.{held_by}
use enoch.Queue.Record.{TaskTerminalEvidence, with_evidence, same_evidence, evidence_body}
use enoch.Queue.Conserve.Workers.{held_by-eq-some}
use enoch.Queue.Conserve.Starts.{Added-behind, Added-before, Added-running, nothing_stored}

-- The file that the queue is written to is sound.
abbrev pub IsSoundFile : QueueData → Type 0
IsSoundFile d = IsSound (write_queue d)

dropped :
    (xs : List TaskJob) (job : TaskJob)
    → reparse job ≡ none
    → parsed_jobs (xs ++ job ∷ []) ≡ parsed_jobs xs
dropped [] job e = rw e refl
dropped (x ∷ xs) job e = elim (Option-cases (reparse x)) [
  | inl n ↦ rw n (dropped xs job e)
  | inr (j, s) ↦ rw s (ap (λ (l : List TaskJob). j ∷ l) (dropped xs job e))
]

stored : (job j : TaskJob) → reparse job ≡ some j → IsStored job
stored job j e = rw e refl

-- No task runs any more.
emptied :
    (d : QueueData) (m : ℕ)
    → IsSound d
    → d.next_id ≤ m
    → IsSound (record d { running = none; next_id = m })
emptied d m s h = record {
  stored = record {
    pending = s.stored.pending;
    paused = s.stored.paused;
    running = tt;
    history = s.stored.history;
  };
  unique = λ n. omega (arith, s.unique n);
  fresh = λ n k. omega (arith, s.fresh n (omega (arith, h)));
}

replaced-IsSoundFile :
    (d : QueueData) (running job : TaskJob)
    → IsSound d
    → running_job d ≡ some running
    → job.id ≡ running.id
    → IsSoundFile (record d { running = some job })
unfolding write_queue
replaced-IsSoundFile d running job s found same = elim (Option-cases (reparse job)) [
  | inl e ↦ rw e (write_queue-IsSound (emptied d d.next_id s (omega arith)))
  | inr (j, e) ↦
      write_queue-IsSound
        (Kept-IsSound s (Kept-replace d s.stored running found job same (stored job j e)))
]

module _ (d : QueueData) (s : IsSound d) (job : TaskJob) (same : job.id ≡ next_id d) where
  skipped : IsSound (record d { next_id = job.id + 1 })
  skipped = record {
    stored = record {
      pending = s.stored.pending;
      paused = s.stored.paused;
      running = s.stored.running;
      history = s.stored.history;
    };
    unique = s.unique;
    fresh = λ n h. s.fresh n (omega (arith, same));
  }

  behind-IsSoundFile :
      IsSoundFile (record d { pending = d.pending ++ job ∷ []; next_id = job.id + 1 })
  unfolding write_queue
  behind-IsSoundFile = elim (Option-cases (reparse job)) [
    | inl e ↦ rw (dropped d.pending job e) (write_queue-IsSound skipped)
    | inr (j, e) ↦
        write_queue-IsSound (Added-IsSound s (Added-behind d s.stored job same (stored job j e)))
  ]

  before-IsSoundFile : IsSoundFile (record d { pending = job ∷ d.pending; next_id = job.id + 1 })
  unfolding write_queue
  before-IsSoundFile = elim (Option-cases (reparse job)) [
    | inl e ↦ rw e (write_queue-IsSound skipped)
    | inr (j, e) ↦
        write_queue-IsSound (Added-IsSound s (Added-before d s.stored job same (stored job j e)))
  ]

  running-IsSoundFile :
      d.running ≡ none → IsSoundFile (record d { running = some job; next_id = job.id + 1 })
  unfolding write_queue
  running-IsSoundFile idle = elim (Option-cases (reparse job)) [
    | inl e ↦ rw e (write_queue-IsSound (emptied d (job.id + 1) s (omega (arith, same))))
    | inr (j, e) ↦
        write_queue-IsSound
          (Added-IsSound s (Added-running d s.stored job same (stored job j e) idle))
  ]

module _ (t : NewTask) (c : Checked) (d : QueueData) (s : IsSound d) where
  pub enqueue_body-IsSoundFile : (now : String) → Writes IsSoundFile (enqueue_body t c now d)
  unfolding enqueue_body job_of_request
  enqueue_body-IsSoundFile now =
      Writes-on_option (find_task_by_idempotency_key d t.idempotency_key)
        (λ _. written (behind-IsSoundFile d s (job_of_request t c (next_id d) now) refl))
        (λ existing _. left existing)

  pub enqueue_front_body-IsSoundFile :
      (now : String) → Writes IsSoundFile (enqueue_front_body t c now d)
  unfolding enqueue_front_body job_of_request
  enqueue_front_body-IsSoundFile now =
      Writes-on_option (find_task_by_idempotency_key d t.idempotency_key)
        (λ _. written (before-IsSoundFile d s (job_of_request t c (next_id d) now) refl))
        (λ existing _. left existing)

  pub begin_direct_body-IsSoundFile :
      (created started : String) → Writes IsSoundFile (begin_direct_body t c created started d)
  unfolding begin_direct_body direct_job job_of_request
  begin_direct_body-IsSoundFile created started =
      Writes-on_option (find_task_by_idempotency_key d t.idempotency_key)
        (λ _.
          Writes-on_option (running_job d)
            (λ idle. written (
              running-IsSoundFile d s (direct_job t c (next_id d) created started) refl
                (nothing_stored d.running s.stored.running idle)))
            (λ running _. raised _))
        (λ existing _. raised _)

pub evidence_body-IsSoundFile :
    (task_id : ℕ) (worker_id : String) (e : TaskTerminalEvidence) (now : String) (d : QueueData)
    → IsSound d
    → Writes IsSoundFile (evidence_body task_id worker_id e now d)
unfolding evidence_body with_evidence
evidence_body-IsSoundFile task_id worker_id e now d s =
    Writes-on_option (held_by d task_id worker_id) (λ _. left none)
      (λ running h.
        Writes-if (truthy running.terminal_status)
          (λ _. Writes-if (same_evidence running e) (λ _. left (some running)) (λ _. raised _))
          (λ _. written (
            replaced-IsSoundFile d running (with_evidence running e now) s
              (held_by-eq-some d task_id worker_id h) refl)))
