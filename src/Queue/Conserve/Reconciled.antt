-- ===== src/Queue/Conserve/Reconciled.antt =====
-- src/enoch/tasks/queue.py: the ids in a queue before and after `reconcile_running_task`.
use enoch.Base.{
  ◌≡◌, refl, Bool, not, Option, none, some, [], ◌∷◌, String, eqb, leb, any, null, Bool-cases, inl,
  inr,
}
use enoch.Base.Text.{truthy}
use enoch.Job.{TaskJob}
use enoch.Job.Reparse.{reparse}
use enoch.Queue.Types.{
  QueueData, TaskReconciliationResult, terminal_repair, interrupted_worker_recovery,
}
use enoch.Queue.Store.{bind, reparse_reconciliation, running_job, parsed_jobs}
use enoch.Queue.Clock.{Clock}
use enoch.Queue.Stored.{finish_again}
use enoch.Queue.Moves.{running-IsStored, Kept-to_history, Kept-to_pending}
use enoch.Queue.Invariant.{IsStoredData, Kept, Writes, left, written, Writes-on_option, Writes-if}
use enoch.Queue.Evidence.{
  TaskReconciliationRequest, reconciliation_request_mismatch, Verdict,
  terminal_reconciliation_evidence, unsupported_reconciliation_evidence, store_reconciliation,
  same_reconciliation, store_against,
}
use enoch.Queue.Reconcile.{
  result_about, store_only, repaired_job, exhausted_job, requeued_job, repair, exhaust, requeue,
  recover, judge, reconcile_body,
}

-- A new reconciliation record moves no task.
Kept-reconciliation :
    (d : QueueData)
    → IsStoredData d
    → (r : Option TaskReconciliationResult) → Kept d (record d { reconciliation = r })
Kept-reconciliation d s r = record {
  stored = record {
    pending = s.pending;
    paused = s.paused;
    running = s.running;
    history = s.history;
  };
  same = λ n. refl;
  next = refl;
}

store_against-Kept :
    (d : QueueData) (result : TaskReconciliationResult) (o : Option TaskReconciliationResult)
    → IsStoredData d
    → Kept d (store_against d result o).1
store_against-Kept d result none s = Kept-reconciliation d s (some result)
store_against-Kept d result (some previous) s =
    elim (Bool-cases (same_reconciliation previous result)) [
      | inl e ↦ rw e (Kept-reconciliation d s d.reconciliation)
      | inr e ↦ rw e (Kept-reconciliation d s (some result))
    ]

store_reconciliation-Kept :
    (d : QueueData)
    → IsStoredData d
    → (result : TaskReconciliationResult) → Kept d (store_reconciliation d result).1
unfolding store_reconciliation
store_reconciliation-Kept d s result =
    store_against-Kept d result (bind d.reconciliation reparse_reconciliation) s

store_only-Kept :
    (d : QueueData)
    → IsStoredData d
    → (result : TaskReconciliationResult) → Writes (Kept d) (store_only d result)
unfolding store_only
store_only-Kept d s result =
    Writes-if (store_reconciliation d result).0.recorded
      (λ _. written (store_reconciliation-Kept d s result)) (λ _. left _)

module _ (d : QueueData) (s : IsStoredData d) (running : TaskJob)
    (found : running_job d ≡ some running) (checked_at : String) where
  repair-Kept : (v : Verdict) → Writes (Kept d) (repair d running checked_at v)
  unfolding repair reparse
  repair-Kept v =
      Writes-if (any (λ job. eqb job.id running.id) (parsed_jobs d.history))
        (λ _. store_only-Kept d s _)
        λ _. written (
          Kept-to_history d s running found (repaired_job running v.status checked_at) refl
            (finish_again running (repaired_job running v.status checked_at) _ _ _
              (running-IsStored d s running found))
            (some (
              result_about running checked_at terminal_repair v.status v.evidence
                "Durable terminal evidence finalized the running task.")))

  exhaust-Kept : Writes (Kept d) (exhaust d running checked_at)
  unfolding exhaust reparse
  exhaust-Kept = written (
      Kept-to_history d s running found (exhausted_job running checked_at) refl
        (finish_again running (exhausted_job running checked_at) _ _ _
          (running-IsStored d s running found))
        (some (
          result_about running checked_at interrupted_worker_recovery "failed"
            ("inactive-worker" ∷ "retry-policy-exhausted" ∷ [])
            "The inactive worker exhausted bounded recovery attempts.")))

  requeue-Kept : (clock : Clock) → Writes (Kept d) (requeue clock d running checked_at)
  unfolding requeue reparse
  requeue-Kept clock = written (
      Kept-to_pending d s running found (requeued_job clock running checked_at) refl
        (finish_again running (requeued_job clock running checked_at) _ _ _
          (running-IsStored d s running found))
        (some (
          result_about running checked_at interrupted_worker_recovery "pending"
            ("inactive-worker" ∷ "retry-policy-available" ∷ [])
            "The inactive worker was returned to the bounded retry queue.")))

  judge-Kept : (clock : Clock) (v : Verdict) → Writes (Kept d) (judge clock d running checked_at v)
  unfolding judge recover
  judge-Kept clock v =
      Writes-if (truthy v.conflict) (λ _. store_only-Kept d s _)
        λ _.
          Writes-if (truthy v.status) (λ _. repair-Kept v)
            λ _.
              Writes-if (not (null (unsupported_reconciliation_evidence running)))
                (λ _. store_only-Kept d s _)
                λ _.
                  Writes-if (leb running.max_attempts running.attempt) (λ _. exhaust-Kept)
                    (λ _. requeue-Kept clock)

-- On a queue whose tasks can all be read back, where `urlsplit` returns on their addresses,
-- whatever reconciliation writes, on every branch, holds the same ids as often as before, has the
-- same next id, and holds only tasks that can be read back, where `urlsplit` returns on their
-- addresses.
pub reconcile_body-Kept :
    (clock : Clock) (request : Option TaskReconciliationRequest) (alive : TaskJob → Bool)
    (checked_at : String) (d : QueueData)
    → IsStoredData d
    → Writes (Kept d) (reconcile_body clock request alive checked_at d)
unfolding reconcile_body
reconcile_body-Kept clock request alive checked_at d s =
    Writes-on_option (running_job d) (λ _. left _)
      λ running found.
        Writes-if (truthy (reconciliation_request_mismatch request running))
          (λ _. store_only-Kept d s _)
          λ _.
            Writes-if (alive running) (λ _. left _)
              λ _.
                judge-Kept d s running found checked_at clock
                  (terminal_reconciliation_evidence running)
