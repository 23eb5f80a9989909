-- ===== src/Queue/Fences.antt =====
-- src/enoch/tasks/queue.py: calls of a worker that does not hold the running task.
use enoch.Base.{
  ℕ, suc, ◌≡◌, refl, ap, ◌∙◌, arith, String, Bool, true, false, not, ◌&&◌, ◌||◌, none, some, ◌==◌,
  eqb, if◌then◌else◌, inl, inr, Bool-cases,
}
use enoch.Base.Int.{ℤ, pos}
use enoch.Base.Text.{truthy, strip}
use enoch.Job.{TaskJob}
use enoch.Queue.Types.{QueueData, ok, err, Outcome, Error, raise, leave, World}
use enoch.Queue.Store.{running_job, load_queue, transaction, run_body, finish}
use enoch.Queue.Clock.{Clock}
use enoch.Queue.Worker.{
  Probe, held_by, held_by_other, task_worker_is_active, claim_job, claim_body, heartbeat_body,
  heartbeat_task, record_task_workspace, workspace_body, claim_running_task,
}
use enoch.Queue.Finish.{Ending, finish_body, fenced, finish_running_task}
use enoch.Queue.Pause.{pause_body, pause_task}
use enoch.Queue.Retry.{retry_running_body, retry_running_task}

-- A body that leaves the queue makes a transaction that leaves the world.
pub transaction-leave :
    {A : Type 0} (body : QueueData → Outcome A) (w : World) (d : QueueData) (a : A)
    → load_queue w ≡ ok d
    → body d ≡ leave a
    → transaction body w ≡ (ok a, w)
unfolding transaction
transaction-leave body w d a h k = ap (run_body w body) h ∙ ap (finish w) k

-- One that raises does so too.
pub transaction-raise :
    {A : Type 0} (body : QueueData → Outcome A) (w : World) (d : QueueData) (e : Error)
    → load_queue w ≡ ok d
    → body d ≡ raise e
    → transaction body w ≡ (err e, w)
unfolding transaction
transaction-raise body w d e h k = ap (run_body w body) h ∙ ap (finish w) k

module _ {A : Type 0} (x y : A) where
  second : (b c : Bool) → c ≡ true → (if b then x else if c then x else y) ≡ x
  second true c h = refl
  second false true h = refl
  second false false h = absurd (cc)

  inner : (z : A) (b c : Bool) → b ≡ true → c ≡ true → (if b then (if c then x else y) else z) ≡ x
  inner z true true h k = refl
  inner z true false h k = absurd (cc)
  inner z false c h k = absurd (cc)

  refused : (b c : Bool) → c ≡ false → (if b && c then y else x) ≡ x
  refused true true h = absurd (cc)
  refused true false h = refl
  refused false c h = refl

  middle : (b c e : Bool) → c ≡ true → (if b || c || e then x else y) ≡ x
  middle true c e h = refl
  middle false true e h = refl
  middle false false e h = absurd (cc)

module _ (d : QueueData) (running : TaskJob) (found : running_job d ≡ some running)
    (worker : String) (named : truthy worker ≡ true)
    (other : (running.worker_id == worker) ≡ false) where
  stale : fenced worker running ≡ true
  stale = ground (arith, named, other)

  finish_body-fenced :
      (i : ℕ) (e : Ending) (now : String)
      → e.worker_id ≡ worker
      → finish_body i e now d ≡ leave none
  unfolding finish_body
  finish_body-fenced i e now same = rw (found, same) (second _ _ _ (fenced worker running) stale)

  retry_running_body-fenced :
      (clock : Clock) (i : ℕ) (result code class : String) (delay : ℤ) (actor trigger : String)
      → retry_running_body clock i result code class worker delay actor trigger d ≡ leave none
  unfolding retry_running_body
  retry_running_body-fenced clock i result code class delay actor trigger =
      rw found (middle _ _ _ (fenced worker running) _ stale)

  held_by-fenced : (i : ℕ) → held_by d i worker ≡ none
  unfolding held_by
  held_by-fenced i =
      rw (held_by, found)
        (refused none (some running) (eqb running.id i) (running.worker_id == worker) other)

  pause_body-fenced :
      (result actor trigger : String)
      → pause_body running.id result actor trigger worker d ≡ leave none
  unfolding pause_body
  pause_body-fenced result actor trigger =
      rw found
        (inner _ _ _ (eqb running.id running.id) (fenced worker running) (ground arith) stale)

  heartbeat_body-fenced :
      (i : ℕ) (now lease : String) → heartbeat_body i worker now lease d ≡ leave none
  unfolding heartbeat_body
  heartbeat_body-fenced i now lease = rw (held_by-fenced i) refl

  workspace_body-fenced :
      (i : ℕ) (path id : String) → workspace_body i worker path id d ≡ leave none
  unfolding workspace_body
  workspace_body-fenced i path id = rw (named, held_by-fenced i) refl

-- When the queue can be read, a task runs, and a worker with a clean name that is not blank is
-- not the one that holds the task, then its calls to end the task, to have it attempted again, to
-- pause it, to send a heartbeat or to place its workspace all return `None` and change neither
-- the file nor the events.
pub stale_worker-changes_nothing :
    (w : World) (d : QueueData) (running : TaskJob) (worker : String) (i : ℕ) (e : Ending)
    (clock : Clock) (result code class actor trigger now lease : String) (delay : ℤ)
    → load_queue w ≡ ok d
    → running_job d ≡ some running
    → truthy worker ≡ true
    → strip worker ≡ worker
    → (running.worker_id == worker) ≡ false
    → (finish_running_task i (record e { worker_id = worker }) now w ≡ (ok none, w))
      × (retry_running_task clock i result code class worker delay actor trigger w ≡ (ok none, w))
      × (pause_task running.id result actor trigger worker w ≡ (ok none, w))
      × (heartbeat_task i worker now lease w ≡ (ok none, w))
      × (record_task_workspace i worker result code w ≡ (ok none, w))
unfolding finish_running_task retry_running_task pause_task heartbeat_task record_task_workspace
stale_worker-changes_nothing w d running worker i e clock result code class actor trigger now lease
      delay loaded found named clean other =
    (
      transaction-leave (finish_body i (record e { worker_id = worker }) now) w d none loaded (
          finish_body-fenced d running found worker named other i (record e { worker_id = worker })
            now refl),
      transaction-leave (retry_running_body clock i result code class worker delay actor trigger) w
          d none loaded
          (retry_running_body-fenced d running found worker named other clock i result code class
            delay actor trigger),
      transaction-leave (pause_body running.id result actor trigger worker) w d none loaded
          (pause_body-fenced d running found worker named other result actor trigger),
      rw (clean, named)
          (transaction-leave (heartbeat_body i worker now lease) w d none loaded
            (heartbeat_body-fenced d running found worker named other i now lease)),
      transaction-leave (workspace_body i worker result code) w d none loaded
          (workspace_body-fenced d running found worker named other i result code),
    )

active-named :
    (kill : ℕ → Probe) (running : TaskJob)
    → task_worker_is_active kill running ≡ true
    → truthy running.worker_id ≡ true
unfolding task_worker_is_active
active-named kill running h = elim (Bool-cases (truthy running.worker_id)) [
  | inl e ↦ e
  | inr e ↦ absurd (ground (arith, e, h))
]

other-holds :
    (kill : ℕ → Probe) (running : TaskJob) (worker : String)
    → (running.worker_id == worker) ≡ false
    → task_worker_is_active kill running ≡ true
    → held_by_other kill worker running ≡ true
unfolding held_by_other
other-holds kill running worker other alive =
    go (truthy running.worker_id) (running.worker_id == worker) (task_worker_is_active kill running)
      (active-named kill running alive) other alive
  where
    go : (a b c : Bool) → a ≡ true → b ≡ false → c ≡ true → (a && not b && c) ≡ true
    go a b c h k l = ground arith

claim_body-excluded :
    (d : QueueData) (running : TaskJob) (kill : ℕ → Probe) (i : ℕ) (worker : String) (pid : ℕ)
    (now lease : String)
    → running_job d ≡ some running
    → (running.worker_id == worker) ≡ false
    → task_worker_is_active kill running ≡ true
    → claim_body kill i worker (some (suc pid)) now lease d ≡ leave none
unfolding claim_body claim_job
claim_body-excluded d running kill i worker pid now lease found other alive =
    rw found (go (eqb running.id i))
  where
    go :
        (b : Bool)
        → (if b then claim_job kill worker (some (suc pid)) now lease d running else leave none)
          ≡ leave none
    go true = rw (other-holds kill running worker other alive) refl
    go false = refl

-- When the queue can be read and a task runs whose worker is alive, a claim by another worker,
-- with a name that is not blank and a process id above 0, returns `None` and changes neither the
-- file nor the events.
pub claim_running_task-excluded :
    (w : World) (d : QueueData) (running : TaskJob) (kill : ℕ → Probe) (i : ℕ) (worker : String)
    (pid : ℕ) (now lease : String)
    → load_queue w ≡ ok d
    → running_job d ≡ some running
    → truthy (strip worker) ≡ true
    → (running.worker_id == strip worker) ≡ false
    → task_worker_is_active kill running ≡ true
    → claim_running_task kill i worker (pos (suc pid)) now lease w ≡ (ok none, w)
unfolding claim_running_task
claim_running_task-excluded w d running kill i worker pid now lease loaded found named other alive =
    rw named (
      transaction-leave (claim_body kill i (strip worker) (some (suc pid)) now lease) w d none
        loaded
        (claim_body-excluded d running kill i (strip worker) pid now lease found other alive))
