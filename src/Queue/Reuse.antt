-- ===== src/Queue/Reuse.antt =====
-- src/enoch/tasks/queue.py: requests whose idempotency key is known.
use enoch.Base.{
  ◌≡◌, refl, ◌∙◌, String, Bool, true, ◌||◌, some, List, [], ◌∷◌, ◌++◌, any, find, ◌==◌, arith, inl,
  inr, Bool-cases,
}
use enoch.Base.Text.{strip, truthy}
use enoch.Job.{TaskJob}
use enoch.Queue.Types.{QueueData, ok, err, task_already_exists, World}
use enoch.Queue.Store.{
  find_task_by_idempotency_key, load_queue, parsed_jobs, running_job, singleton, all_jobs,
}
use enoch.Queue.Enqueue.{
  NewTask, Checked, check_request, enqueue_body, enqueue_front_body, begin_direct_body,
  enqueue_task, enqueue_task_front, begin_direct_task,
}
use enoch.Queue.Fences.{transaction-leave, transaction-raise}

-- A task of the list has the key.
abbrev pub holds_key : String → List TaskJob → Bool
holds_key key jobs = any (λ job. job.idempotency_key == key) jobs

find-any :
    (p : TaskJob → Bool) (xs : List TaskJob)
    → any p xs ≡ true
    → (x : TaskJob) × (find p xs ≡ some x) × (p x ≡ true)
find-any p [] h = absurd (cc)
find-any p (x ∷ xs) h = elim (Bool-cases (p x)) [
  | inl e ↦ (x, rw e refl, e)
  | inr e ↦ let (y, found, passes) = find-any p xs (ground (arith, e, h)) in (y, rw e found, passes)
]

any-append : (p : TaskJob → Bool) (xs ys : List TaskJob) → any p (xs ++ ys) ≡ (any p xs || any p ys)
any-append p [] ys = refl
any-append p (x ∷ xs) ys = ground (arith, any-append p xs ys)

-- The lookup goes through all four parts of the queue.
lookup-finds :
    (d : QueueData) (raw_key : String)
    → truthy (strip raw_key) ≡ true
    → (holds_key (strip raw_key) (parsed_jobs d.pending)
        || holds_key (strip raw_key) (parsed_jobs d.paused)
        || holds_key (strip raw_key) (singleton (running_job d))
        || holds_key (strip raw_key) (parsed_jobs d.history))
      ≡ true
    → (existing : TaskJob) × (find_task_by_idempotency_key d raw_key ≡ some existing)
      × ((existing.idempotency_key == strip raw_key) ≡ true)
unfolding find_task_by_idempotency_key
lookup-finds d raw_key named h =
    let p = λ (job : TaskJob). job.idempotency_key == strip raw_key in
    let running = singleton (running_job d) in
    let last = any-append p running (parsed_jobs d.history) in
    let behind = any-append p (parsed_jobs d.paused) (running ++ parsed_jobs d.history) in
    let whole = any-append p (parsed_jobs d.pending) _ in
    rw named (find-any p (all_jobs d) (whole ∙ join_or _ _ _ _ _ _ last behind h))
  where
    join_or :
        (a b c e x y : Bool)
        → x ≡ (c || e)
        → y ≡ (b || x)
        → (a || b || c || e) ≡ true
        → (a || y) ≡ true
    join_or a b c e x y p q h = ground arith

-- When the queue can be read, a request passes the checks and has a key that is not blank, and a
-- pending, paused, running or past task has that key, then there is a task with the key that
-- `enqueue_task` and `enqueue_task_front` return and that `begin_direct_task` raises
-- `TaskAlreadyExists` with, and none of them changes the file or reports an event.
pub known_key-makes_no_task :
    (w : World) (d : QueueData) (t : NewTask) (c : Checked) (created started : String)
    → load_queue w ≡ ok d
    → check_request t ≡ ok c
    → truthy (strip t.idempotency_key) ≡ true
    → (holds_key (strip t.idempotency_key) (parsed_jobs d.pending)
        || holds_key (strip t.idempotency_key) (parsed_jobs d.paused)
        || holds_key (strip t.idempotency_key) (singleton (running_job d))
        || holds_key (strip t.idempotency_key) (parsed_jobs d.history))
      ≡ true
    → (existing : TaskJob) × ((existing.idempotency_key == strip t.idempotency_key) ≡ true)
      × (enqueue_task t created w ≡ (ok existing, w))
      × (enqueue_task_front t created w ≡ (ok existing, w))
      × (begin_direct_task t created started w ≡ (err (task_already_exists existing), w))
unfolding enqueue_task enqueue_task_front begin_direct_task enqueue_body enqueue_front_body
    begin_direct_body
known_key-makes_no_task w d t c created started loaded valid named held =
    let (existing, known, same) = lookup-finds d t.idempotency_key named held in
    (
      existing,
      same,
      rw valid (transaction-leave (enqueue_body t c created) w d existing loaded (rw known refl)),
      rw valid
          (transaction-leave (enqueue_front_body t c created) w d existing loaded (rw known refl)),
      rw valid (
          transaction-raise (begin_direct_body t c created started) w d
            (task_already_exists existing) loaded (rw known refl)),
    )
