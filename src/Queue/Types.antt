-- ===== src/Queue/Types.antt =====
-- src/enoch/tasks/queue.py: the queue's data, its errors, the events that it reports, and the
-- results of an operation.
use enoch.Base.{ℕ, String, Bool, Option, none, some, List, [], ◌∷◌}
use enoch.Job.{TaskJob}

-- `ReconciliationOutcome`
pub data ReconciliationOutcome : Type 0 where
  no_op terminal_repair interrupted_worker_recovery conflict : ReconciliationOutcome
  unsupported_evidence : ReconciliationOutcome

pub record TaskReconciliationResult : Type 0 where
  pub outcome : ReconciliationOutcome
  pub checked_at : String
  pub task_id : Option ℕ
  pub previous_status : String
  pub resulting_status : String
  pub evidence : List String
  pub reason : String
  pub worker_id : String
  pub worker_heartbeat_at : String
  pub worker_lease_id : String
  pub recorded : Bool

-- The dictionary of a queue. Each task in it is the dictionary of the job that stands here, and
-- the reconciliation record likewise.
pub record QueueData : Type 0 where
  pub next_id : ℕ
  pub pending : List TaskJob
  pub paused : List TaskJob
  pub running : Option TaskJob
  pub history : List TaskJob
  pub reconciliation : Option TaskReconciliationResult

-- Why a task cannot be retried; the texts of `TaskRetryError`.
pub data RetryProblem : Type 0 where
  not_retryable : ℕ → RetryProblem
  retried_as_failed : ℕ → ℕ → RetryProblem
  has_retry : ℕ → ℕ → String → RetryProblem

pub data Error : Type 0 where
  value_error runtime_error state_corruption : String → Error
  task_retry_error : RetryProblem → Error
  task_already_exists : TaskJob → Error

pub data Result {ℓ} (A : Type ℓ) : Type ℓ where
  ok : A → Result A
  err : Error → Result A

infixl 10 ◌>>=◌
abbrev pub ◌>>=◌ {ℓ κ} : {A : Type ℓ} {B : Type κ} → Result A → (A → Result B) → Result B
ok a >>= f = f a
err e >>= f = err e

abbrev pub or_raise {ℓ} : {A : Type ℓ} → Option A → Error → Result A
or_raise none e = err e
or_raise (some a) e = ok a

-- A call of `_record_task_event_safely`.
pub record EventRequest : Type 0 where
  pub job : TaskJob
  pub event : String
  pub event_actor : String
  pub trigger : String
  pub result : String
  pub related_task_id : Option ℕ

-- What the body of a transaction ends in: an exception, a return that writes nothing, or a
-- return after `_write_queue` and the calls that report events.
pub data Outcome {ℓ} (A : Type ℓ) : Type ℓ where
  raise : Error → Outcome A
  leave : A → Outcome A
  commit : QueueData → List EventRequest → A → Outcome A

-- The queue's file, if there is one, the events reported so far, and the texts on which Python's
-- `urlsplit` returns: it raises a `ValueError` on the others.
pub record World : Type 0 where
  pub splits : String → Bool
  pub file : Option QueueData
  pub events : List EventRequest

-- An operation on the queue.
abbrev pub Operation : Type 0 → Type 0
Operation A = World → Result A × World

-- A branch on a value that may be absent.
abbrev pub on_option {ℓ κ} :
    {A : Type ℓ} {B : Type κ} → Option A → Outcome B → (A → Outcome B) → Outcome B
on_option none absent present = absent
on_option (some a) absent present = present a

-- A branch on an empty list.
abbrev pub on_list {ℓ κ} :
    {A : Type ℓ} {B : Type κ} → List A → Outcome B → (A → List A → Outcome B) → Outcome B
on_list [] empty full = empty
on_list (a ∷ as') empty full = full a as'
