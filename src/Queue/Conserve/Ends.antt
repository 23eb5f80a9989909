-- ===== src/Queue/Conserve/Ends.antt =====
-- src/enoch/tasks/queue.py: the ids in a queue before and after a task ends or is cancelled.
use enoch.Base.{
  ℕ, ◌≡◌, refl, subst, not, Option, none, some, List, [], ◌∷◌, ◌++◌, arith, String, eqb,
  split_first, split_first-eq-some,
}
use enoch.Job.{TaskJob}
use enoch.Job.Reparse.{reparse}
use enoch.Queue.Types.{QueueData}
use enoch.Queue.Store.{parsed_jobs, running_job}
use enoch.Queue.Count.{IsStored}
use enoch.Queue.Stored.{finish_again}
use enoch.Queue.Moves.{running-IsStored, Kept-to_history}
use enoch.Queue.Invariant.{IsStoredData, Kept, Writes, left, written, Writes-on_option, Writes-if}
use enoch.Queue.Count.{
  count, AllStored, nil, cons, AllStored-append, AllStored-parsed, AllStored-split, count-split,
  count-parsed, count-append,
}
use enoch.Queue.Finish.{
  cancel_body, cancelled_job, other_task, stopped_job, Ending, finished_job, finish_body, fenced,
  cancel_running_body,
}

finished_job-IsStored :
    (running : TaskJob) (e : Ending) (now : String)
    → IsStored running
    → IsStored (finished_job running e now)
unfolding reparse finished_job
finished_job-IsStored running e now h = finish_again running (finished_job running e now) _ _ _ h

-- On a queue whose tasks can all be read back, where `urlsplit` returns on their addresses,
-- whatever the end of the running task writes holds the same ids as often as before, has the same
-- next id, and holds only tasks that can be read back, where `urlsplit` returns on their
-- addresses.
pub finish_body-Kept :
    (task_id : ℕ) (e : Ending) (now : String) (d : QueueData)
    → IsStoredData d
    → Writes (Kept d) (finish_body task_id e now d)
unfolding finish_body
finish_body-Kept task_id e now d s =
    Writes-on_option (running_job d) (λ _. left none)
      λ running found.
        Writes-if (not (eqb running.id task_id)) (λ _. left none)
          λ _.
            Writes-if (fenced e.worker_id running) (λ _. left none)
              λ _. written (
                Kept-to_history d s running found (finished_job running e now) refl
                  (finished_job-IsStored running e now (running-IsStored d s running found))
                  d.reconciliation)

cancelled-IsStored :
    (job : TaskJob) (now : String) → IsStored job → IsStored (cancelled_job job now)
unfolding reparse
cancelled-IsStored job now h = finish_again job (cancelled_job job now) _ _ _ h

-- On a queue whose tasks can all be read back, where `urlsplit` returns on their addresses,
-- whatever `cancel_task` writes holds the same ids as often as before, has the same next id, and
-- holds only tasks that can be read back, where `urlsplit` returns on their addresses.
pub cancel_body-Kept :
    (task_id : ℕ) (event_actor trigger now : String) (d : QueueData)
    → IsStoredData d
    → Writes (Kept d) (cancel_body task_id event_actor trigger now d)
unfolding cancel_body count
cancel_body-Kept task_id event_actor trigger now d s =
    Writes-on_option (split_first (λ job. eqb job.id task_id) (parsed_jobs d.pending))
      (λ _.
        Writes-on_option (split_first (λ job. eqb job.id task_id) (parsed_jobs d.paused))
          (λ _. left none)
          λ (before, job, behind) found. written (from_paused before job behind found))
      λ (before, job, behind) found. written (from_pending before job behind found)
  where
    history-stored :
        (job : TaskJob)
        → IsStored job
        → AllStored (parsed_jobs d.history ++ cancelled_job job now ∷ [])
    history-stored job h =
        AllStored-append (parsed_jobs d.history) (cancelled_job job now ∷ [])
          (AllStored-parsed d.history s.history) (cons (cancelled-IsStored job now h) nil)

    from_pending :
        (before : List TaskJob) (job : TaskJob) (behind : List TaskJob)
        → split_first (λ job. eqb job.id task_id) (parsed_jobs d.pending)
          ≡ some (before, job, behind)
        → Kept d (record d {
          pending = before ++ behind;
          paused = parsed_jobs d.paused;
          history = parsed_jobs d.history ++ cancelled_job job now ∷ [];
        })
    from_pending before job behind found =
        let (whole, passed) = split_first-eq-some _ (parsed_jobs d.pending) found in
        let (q, rest) =
          AllStored-split before job behind
            (subst AllStored whole (AllStored-parsed d.pending s.pending)) in
        record {
          stored = record {
            pending = rest;
            paused = AllStored-parsed d.paused s.paused;
            running = s.running;
            history = history-stored job q;
          };
          same = λ n. omega (
            arith,
            count-split n (parsed_jobs d.pending) before job behind whole,
            count-parsed n d.pending s.pending,
            count-parsed n d.paused s.paused,
            count-parsed n d.history s.history,
            count-append n (parsed_jobs d.history) (cancelled_job job now ∷ []),
          );
          next = refl;
        }

    from_paused :
        (before : List TaskJob) (job : TaskJob) (behind : List TaskJob)
        → split_first (λ job. eqb job.id task_id) (parsed_jobs d.paused)
          ≡ some (before, job, behind)
        → Kept d (record d {
          pending = parsed_jobs d.pending;
          paused = before ++ behind;
          history = parsed_jobs d.history ++ cancelled_job job now ∷ [];
        })
    from_paused before job behind found =
        let (whole, passed) = split_first-eq-some _ (parsed_jobs d.paused) found in
        let (q, rest) =
          AllStored-split before job behind
            (subst AllStored whole (AllStored-parsed d.paused s.paused)) in
        record {
          stored = record {
            pending = AllStored-parsed d.pending s.pending;
            paused = rest;
            running = s.running;
            history = history-stored job q;
          };
          same = λ n. omega (
            arith,
            count-split n (parsed_jobs d.paused) before job behind whole,
            count-parsed n d.pending s.pending,
            count-parsed n d.paused s.paused,
            count-parsed n d.history s.history,
            count-append n (parsed_jobs d.history) (cancelled_job job now ∷ []),
          );
          next = refl;
        }

pub cancel_running_body-Kept :
    (result event_actor trigger : String) (expected : Option ℕ) (worker_id now : String)
    (d : QueueData)
    → IsStoredData d
    → Writes (Kept d) (cancel_running_body result event_actor trigger expected worker_id now d)
unfolding cancel_running_body reparse
cancel_running_body-Kept result event_actor trigger expected worker_id now d s =
    Writes-on_option (running_job d) (λ _. left none)
      λ running found.
        Writes-if (other_task expected running) (λ _. left none)
          λ _.
            Writes-if (fenced worker_id running) (λ _. left none)
              λ _. written (
                Kept-to_history d s running found (stopped_job running result now) refl
                  (finish_again running (stopped_job running result now) _ _ _
                    (running-IsStored d s running found))
                  d.reconciliation)
