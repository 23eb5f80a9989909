-- ===== src/Queue/Conserve/Starts.antt =====
-- src/enoch/tasks/queue.py: the ids in a queue before and after a task is added or started.
use enoch.Base.{
  ℕ, ◌+◌, ◌≡◌, refl, subst, sym, ap, ◌∙◌, Bool, true, false, Option, none, some, List, [], ◌∷◌,
  ◌++◌, arith, String, eqb, if◌then◌else◌, some-injective,
}
use mathlib.Core.List.{append_assoc}
use enoch.Job.{TaskJob}
use enoch.Job.Reparse.{reparse}
use enoch.Queue.Types.{QueueData}
use enoch.Queue.Store.{parsed_jobs, running_job, find_task_by_idempotency_key, next_id, bind}
use enoch.Queue.Clock.{Clock}
use enoch.Queue.Count.{
  count, count_option, one, AllStored, nil, cons, IsStored, OptionStored, count-append,
  AllStored-append, count-parsed, AllStored-parsed, count-split, AllStored-split, one-reparse,
}
use enoch.Queue.Stored.{finish_again}
use enoch.Queue.Invariant.{
  IsStoredData, Kept, Added, Writes, raised, left, written, Writes-on_option,
}
use enoch.Queue.Enqueue.{
  NewTask, Checked, job_of_request, enqueue_body, enqueue_front_body, begin_direct_body, direct_job,
}
use enoch.Queue.Begin.{first_ready, task_is_ready, blocked_lanes, started_job, begin_next_body}

pub nothing_stored : (o : Option TaskJob) → OptionStored o → bind o reparse ≡ none → o ≡ none
nothing_stored none s h = refl
nothing_stored (some x) s h = absurd (ground arith)

module _ (d : QueueData) (s : IsStoredData d) (job : TaskJob) (same : job.id ≡ next_id d)
    (stored : IsStored job) where
  one-next : (n : ℕ) → one n job ≡ (if eqb (next_id d) n then 1 else 0)
  one-next n = ap (λ (i : ℕ). if eqb i n then 1 else 0) same

  -- The new task stands behind the pending tasks.
  pub Added-behind : Added d (record d { pending = d.pending ++ job ∷ []; next_id = job.id + 1 })
  unfolding count
  Added-behind = record {
    stored = record {
      pending = AllStored-append d.pending (job ∷ []) s.pending (cons stored nil);
      paused = s.paused;
      running = s.running;
      history = s.history;
    };
    more = λ n. omega (arith, one-next n, count-append n d.pending (job ∷ []));
    next = omega (arith, same);
  }

  -- It stands in front of the pending tasks.
  pub Added-before : Added d (record d { pending = job ∷ d.pending; next_id = job.id + 1 })
  unfolding count
  Added-before = record {
    stored = record {
      pending = cons stored s.pending;
      paused = s.paused;
      running = s.running;
      history = s.history;
    };
    more = λ n. omega (arith, one-next n);
    next = omega (arith, same);
  }

  -- It runs at once, where no task ran.
  pub Added-running :
      d.running ≡ none → Added d (record d { running = some job; next_id = job.id + 1 })
  Added-running idle = record {
    stored = record {
      pending = s.pending;
      paused = s.paused;
      running = stored;
      history = s.history;
    };
    more = λ n. omega (arith, one-next n, ap (count_option n) idle);
    next = omega (arith, same);
  }

module _ (t : NewTask) (c : Checked) (d : QueueData) (s : IsStoredData d) where
  -- On a queue whose tasks can all be read back, where `urlsplit` returns on their addresses, and
  -- for a request whose task can be read back, whatever `enqueue_task` writes holds one task
  -- more, with the next id; every other id occurs as often as before, the next id grows by one,
  -- and all tasks can be read back, where `urlsplit` returns on their addresses.
  pub enqueue_body-Added :
      (now : String)
      → IsStored (job_of_request t c (next_id d) now)
      → Writes (Added d) (enqueue_body t c now d)
  unfolding enqueue_body job_of_request
  enqueue_body-Added now h =
      Writes-on_option (find_task_by_idempotency_key d t.idempotency_key)
        (λ _. written (Added-behind d s (job_of_request t c (next_id d) now) refl h))
        (λ existing _. left existing)

  pub enqueue_front_body-Added :
      (now : String)
      → IsStored (job_of_request t c (next_id d) now)
      → Writes (Added d) (enqueue_front_body t c now d)
  unfolding enqueue_front_body job_of_request
  enqueue_front_body-Added now h =
      Writes-on_option (find_task_by_idempotency_key d t.idempotency_key)
        (λ _. written (Added-before d s (job_of_request t c (next_id d) now) refl h))
        (λ existing _. left existing)

  pub begin_direct_body-Added :
      (created started : String)
      → IsStored (direct_job t c (next_id d) created started)
      → Writes (Added d) (begin_direct_body t c created started d)
  unfolding begin_direct_body direct_job job_of_request
  begin_direct_body-Added created started h =
      Writes-on_option (find_task_by_idempotency_key d t.idempotency_key)
        (λ _.
          Writes-on_option (running_job d)
            (λ idle. written (
              Added-running d s (direct_job t c (next_id d) created started) refl h
                (nothing_stored d.running s.running idle)))
            (λ running _. raised _))
        (λ existing _. raised _)

-- What the search of `begin_next_task` finds, in its place.
pub first_ready-eq-some :
    (clock : Clock) (blocked : List String) (ps xs : List TaskJob) {b a : List TaskJob}
    {j : TaskJob}
    → first_ready clock blocked ps xs ≡ some (b, j, a)
    → (ps ++ xs ≡ b ++ j ∷ a) × (task_is_ready clock blocked b j ≡ true)
unfolding first_ready
first_ready-eq-some clock blocked ps [] h = absurd (cc)
first_ready-eq-some clock blocked ps (x ∷ xs) {b} {a} {j} h =
    go (task_is_ready clock blocked ps x) refl h
      (first_ready-eq-some clock blocked (ps ++ x ∷ []) xs)
  where
    go :
        (t : Bool)
        → task_is_ready clock blocked ps x ≡ t
        → (if t then some (ps, x, xs) else first_ready clock blocked (ps ++ x ∷ []) xs)
          ≡ some (b, j, a)
        → (first_ready clock blocked (ps ++ x ∷ []) xs ≡ some (b, j, a)
            → ((ps ++ x ∷ []) ++ xs ≡ b ++ j ∷ a) × (task_is_ready clock blocked b j ≡ true))
        → (ps ++ x ∷ xs ≡ b ++ j ∷ a) × (task_is_ready clock blocked b j ≡ true)
    go true e h rest =
        let same = some-injective h in
        (
          (λ i. (same i).0 ++ (same i).1 ∷ (same i).2),
          (λ i. task_is_ready clock blocked (sym same i).0 (sym same i).1) ∙ e,
        )
    go false e h rest =
        let (split, ready) = rest h in (sym (append_assoc ps (x ∷ []) xs) ∙ split, ready)

-- A ready task leaves the pending tasks and runs.
module _ (d : QueueData) (s : IsStoredData d) (before behind : List TaskJob) (job : TaskJob)
    (idle : running_job d ≡ none) (split : parsed_jobs d.pending ≡ before ++ job ∷ behind) where
  pub Kept-start :
      (started : String)
      → Kept d (record d { pending = before ++ behind; running = some (started_job job started) })
  unfolding reparse started_job
  Kept-start started =
      let (stored, others) =
        AllStored-split before job behind
          (subst AllStored split (AllStored-parsed d.pending s.pending)) in
      record {
        stored = record {
          pending = others;
          paused = s.paused;
          running = finish_again job (started_job job started) _ _ _ stored;
          history = s.history;
        };
        same = λ n. omega (
          arith,
          one-reparse n job (started_job job started) refl,
          count-split n (parsed_jobs d.pending) before job behind split,
          count-parsed n d.pending s.pending,
          ap (count_option n) (nothing_stored d.running s.running idle),
        );
        next = refl;
      }

-- On a queue whose tasks can all be read back, where `urlsplit` returns on their addresses,
-- whatever `begin_next_task` writes holds the same ids as often as before, has the same next id,
-- and holds only tasks that can be read back, where `urlsplit` returns on their addresses.
pub begin_next_body-Kept :
    (clock : Clock) (started : String) (d : QueueData)
    → IsStoredData d
    → Writes (Kept d) (begin_next_body clock started d)
unfolding begin_next_body started_job
begin_next_body-Kept clock started d s =
    Writes-on_option (running_job d)
      (λ idle.
        Writes-on_option
          (first_ready clock (blocked_lanes (parsed_jobs d.paused)) [] (parsed_jobs d.pending))
          (λ _. left none)
          (λ (before, job, behind) found. written (
            Kept-start d s before behind job idle
              (first_ready-eq-some clock (blocked_lanes (parsed_jobs d.paused)) []
                (parsed_jobs d.pending) found).0
              started)))
      (λ running _. left none)
