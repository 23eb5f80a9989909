-- ===== src/Queue/Moves.antt =====
-- src/enoch/tasks/queue.py: the three ways in which operations move the running task, by id.
use enoch.Base.{ℕ, ◌≡◌, refl, subst, sym, ◌∙◌, ap, Option, none, some, [], ◌∷◌, ◌++◌, arith}
use enoch.Job.{TaskJob}
use enoch.Queue.Types.{QueueData, TaskReconciliationResult}
use enoch.Queue.Store.{parsed_jobs, running_job}
use enoch.Queue.Count.{
  count, count_option, one, nil, cons, IsStored, OptionStored, count-append, AllStored-append,
  count-parsed, AllStored-parsed, count-running, one-reparse, OptionStored-running,
}
use enoch.Queue.Invariant.{IsStoredData, Kept}

module _ (d : QueueData) (s : IsStoredData d) (running : TaskJob)
    (found : running_job d ≡ some running) where
  -- The running task counts once, and can be read back.
  pub running_counts : (n : ℕ) → one n running ≡ count_option n d.running
  running_counts n = ap (count_option n) (sym found) ∙ count-running n d.running s.running

  pub running-IsStored : IsStored running
  running-IsStored = subst OptionStored found (OptionStored-running d.running s.running)

  -- A job with the running task's id.
  module _ (job : TaskJob) (same : job.id ≡ running.id) (stored : IsStored job) where
    job_counts : (n : ℕ) → one n job ≡ count_option n d.running
    job_counts n = one-reparse n running job same ∙ running_counts n

    -- It replaces the running task.
    pub Kept-replace : Kept d (record d { running = some job })
    Kept-replace = record {
      stored = record {
        pending = s.pending;
        paused = s.paused;
        running = stored;
        history = s.history;
      };
      same = λ n. omega (arith, job_counts n);
      next = refl;
    }

    -- It goes to the end of the history.
    pub Kept-to_history :
        (r : Option TaskReconciliationResult)
        → Kept d (record d {
          running = none;
          history = parsed_jobs d.history ++ job ∷ [];
          reconciliation = r;
        })
    unfolding count
    Kept-to_history r = record {
      stored = record {
        pending = s.pending;
        paused = s.paused;
        running = tt;
        history =
            AllStored-append (parsed_jobs d.history) (job ∷ [])
              (AllStored-parsed d.history s.history) (cons stored nil);
      };
      same = λ n. omega (
        arith,
        job_counts n,
        count-append n (parsed_jobs d.history) (job ∷ []),
        count-parsed n d.history s.history,
      );
      next = refl;
    }

    -- It goes to the front of the pending tasks.
    pub Kept-to_pending :
        (r : Option TaskReconciliationResult)
        → Kept d
            (record d { running = none; pending = job ∷ parsed_jobs d.pending; reconciliation = r })
    unfolding count
    Kept-to_pending r = record {
      stored = record {
        pending = cons stored (AllStored-parsed d.pending s.pending);
        paused = s.paused;
        running = tt;
        history = s.history;
      };
      same = λ n. omega (arith, job_counts n, count-parsed n d.pending s.pending);
      next = refl;
    }
