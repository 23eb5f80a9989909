-- ===== src/Queue/Store.antt =====
-- src/enoch/tasks/queue.py: reading and writing the queue's file, and finding tasks in it.
use enoch.Base.{
  ℕ, ◌+◌, max, String, Bool, true, not, ◌&&◌, Option, none, some, List, [], ◌∷◌, ◌++◌, eqb, ◌==◌,
  find, filter_map, traverse, if◌then◌else◌,
}
use enoch.Base.Text.{truthy, strip}
use enoch.ReviewUrls.{dedupe_strings, all_split, parse_review_urls}
use enoch.Job.{TaskJob}
use enoch.Job.Normalize.{positive_nat}
use enoch.Job.Reparse.{reparse}
use enoch.Queue.Types.{
  TaskReconciliationResult, QueueData, Result, ok, err, Error, value_error, state_corruption,
  Outcome, raise, leave, commit, World, Operation,
}

-- `_parse_reconciliation(_reconciliation_to_dict(raw))`
unfoldable pub reparse_reconciliation : TaskReconciliationResult → Option TaskReconciliationResult
reparse_reconciliation raw =
    if not (truthy (strip raw.checked_at))
    then none
    else some (record {
      outcome = raw.outcome;
      checked_at = strip raw.checked_at;
      task_id = positive_nat raw.task_id;
      previous_status = strip raw.previous_status;
      resulting_status = strip raw.resulting_status;
      evidence = dedupe_strings raw.evidence;
      reason = strip raw.reason;
      worker_id = strip raw.worker_id;
      worker_heartbeat_at = strip raw.worker_heartbeat_at;
      worker_lease_id = strip raw.worker_lease_id;
      recorded = true;
    })

abbrev pub bind {ℓ κ} : {A : Type ℓ} {B : Type κ} → Option A → (A → Option B) → Option B
bind none f = none
bind (some a) f = f a

abbrev with_urls : Option (List String) → TaskJob → Result (Option TaskJob)
with_urls none raw = err (value_error "urlsplit")
with_urls (some urls) raw = ok (reparse raw)

-- `_parse_job`, which raises where `_parse_review_urls` does.
unfoldable pub parse_job : (String → Bool) → TaskJob → Result (Option TaskJob)
parse_job splits raw = with_urls (parse_review_urls splits raw.review_urls) raw

-- `_pending_jobs`, `_paused_jobs`, `_history_jobs`
abbrev pub parsed_jobs : List TaskJob → List TaskJob
parsed_jobs raw = filter_map reparse raw

-- `_parse_job(data.get("running"))`
abbrev pub running_job : QueueData → Option TaskJob
running_job data' = bind data'.running reparse

abbrev pub singleton {ℓ} : {A : Type ℓ} → Option A → List A
singleton none = []
singleton (some a) = a ∷ []

-- The tasks in the order in which the code searches them.
abbrev pub all_jobs : QueueData → List TaskJob
all_jobs data' =
    parsed_jobs data'.pending
    ++ (parsed_jobs data'.paused ++ (singleton (running_job data') ++ parsed_jobs data'.history))

-- `_find_task`
unfoldable pub find_task : QueueData → Option ℕ → Option TaskJob
find_task data' none = none
find_task data' (some task_id) = find (λ job. eqb job.id task_id) (all_jobs data')

-- `_find_task_by_idempotency_key`
unfoldable pub find_task_by_idempotency_key : QueueData → String → Option TaskJob
find_task_by_idempotency_key data' key =
    let normalized = strip key in
    if not (truthy normalized)
    then none
    else find (λ job. job.idempotency_key == normalized) (all_jobs data')

-- `_next_id`
abbrev pub next_id : QueueData → ℕ
next_id data' = max 1 data'.next_id

-- The largest id of a list, 0 for none.
unfoldable pub max_id : List TaskJob → ℕ
max_id [] = 0
max_id (job ∷ jobs) = max job.id (max_id jobs)

-- `_empty_queue`
abbrev pub empty_queue : QueueData
empty_queue = record {
  next_id = 1;
  pending = [];
  paused = [];
  running = none;
  history = [];
  reconciliation = none;
}

-- All tasks of a dictionary, in the order in which `_load_queue` checks them.
abbrev pub stored_jobs : QueueData → List TaskJob
stored_jobs raw = raw.pending ++ (raw.paused ++ (raw.history ++ singleton raw.running))

abbrev pub problem_of : Result (Option TaskJob) → Option Error → Option Error
problem_of (err e) later = some e
problem_of (ok none) later = some (state_corruption "found an invalid task")
problem_of (ok (some job)) later = later

-- The checks of `_load_queue` on the tasks: what the first task that fails raises.
unfoldable pub first_problem : (String → Bool) → List TaskJob → Option Error
unfolding parse_job
first_problem splits [] = none
first_problem splits (raw ∷ rest) = problem_of (parse_job splits raw) (first_problem splits rest)

abbrev pub unless : Option Error → Result QueueData → Result QueueData
unless none r = r
unless (some e) r = err e

-- A value that has to parse if it is there.
abbrev pub parse_present {ℓ} : {A : Type ℓ} → (A → Option A) → Option A → Option (Option A)
parse_present parse none = some none
parse_present parse (some raw) = elim (parse raw) [ none ↦ none | some a ↦ some (some a) ]

abbrev pub loaded :
    ℕ
    → Option (List TaskJob)
    → Option (List TaskJob)
    → Option (List TaskJob)
    → Option (Option TaskJob)
    → Option (Option TaskReconciliationResult)
    → Result QueueData
loaded next (some pending) (some paused) (some history) (some running) (some reconciliation) =
    ok (record {
      next_id = max next (
          max (max (max (max_id pending) (max_id (singleton running))) (max_id paused))
            (max_id history)
          + 1);
      pending = pending;
      paused = paused;
      running = running;
      history = history;
      reconciliation = reconciliation;
    })
loaded next _ _ _ _ _ = err (state_corruption "found an invalid task")

-- `_load_queue`, of a file that `_write_queue` made
unfoldable pub load_data : (String → Bool) → QueueData → Result QueueData
unfolding max_id first_problem
load_data splits raw = unless (first_problem splits (stored_jobs raw)) (
    loaded raw.next_id (traverse reparse raw.pending) (traverse reparse raw.paused)
      (traverse reparse raw.history) (parse_present reparse raw.running)
      (parse_present reparse_reconciliation raw.reconciliation))

unfoldable pub load_queue : World → Result QueueData
unfolding load_data
load_queue w = elim w.file [
  | none ↦ load_data w.splits empty_queue
  | some raw ↦ load_data w.splits raw
]

-- `urlsplit` returns on the addresses of every task that `_write_queue` reads back.
unfoldable pub all_parse : (String → Bool) → List TaskJob → Bool
all_parse splits [] = true
all_parse splits (raw ∷ rest) = all_split splits raw.review_urls && all_parse splits rest

-- `_write_queue`: what the file holds afterwards, where it does not raise
unfoldable pub write_queue : QueueData → QueueData
write_queue data' = record {
  next_id = next_id data';
  pending = parsed_jobs data'.pending;
  paused = parsed_jobs data'.paused;
  running = running_job data';
  history = parsed_jobs data'.history;
  reconciliation = bind data'.reconciliation reparse_reconciliation;
}

abbrev pub finish : {A : Type 0} → World → Outcome A → Result A × World
finish w (raise e) = (err e, w)
finish w (leave a) = (ok a, w)
finish w (commit data' events a) =
    if all_parse w.splits (stored_jobs data')
    then (ok a, record w { file = some (write_queue data'); events = w.events ++ events })
    else (err (value_error "urlsplit"), w)

abbrev pub run_body :
    {A : Type 0} → World → (QueueData → Outcome A) → Result QueueData → Result A × World
run_body w body (err e) = (err e, w)
run_body w body (ok data') = finish w (body data')

-- `with _queue_transaction(root): data = _load_queue(root) ...`
unfoldable pub transaction : {A : Type 0} → (QueueData → Outcome A) → Operation A
transaction body w = run_body w body (load_queue w)
