-- ===== src/Queue/Evidence.antt =====
-- src/enoch/tasks/queue.py: what durable evidence says of a running task whose worker is gone.
use enoch.Base.{
  ℕ, String, Bool, true, false, not, ◌&&◌, ◌||◌, Option, none, some, List, [], ◌∷◌, eqb, ◌==◌,
  if◌then◌else◌,
}
use enoch.Base.Text.{truthy, one_of, join}
use enoch.ReviewUrls.{dedupe_strings}
use enoch.Job.{TaskJob}
use enoch.Job.Reparse.{terminal_statuses}
use enoch.Queue.Types.{
  ReconciliationOutcome, no_op, terminal_repair, interrupted_worker_recovery, conflict,
  unsupported_evidence, TaskReconciliationResult, QueueData,
}
use enoch.Queue.Store.{reparse_reconciliation, bind}
use enoch.Queue.Published.{job_has_confirmed_published_review}
use enoch.Queue.Record.{publish_stages}

-- The identity that a caller of the reconciliation expects, stripped by its constructor.
pub record TaskReconciliationRequest : Type 0 where
  pub expected_task_id : ℕ
  pub expected_worker_id : String
  pub expected_worker_heartbeat_at : String
  pub expected_worker_lease_id : String

abbrev when : Bool → String → List String → List String
when b s rest = if b then s ∷ rest else rest

-- The names of the fields that differ.
unfoldable pub mismatches : TaskReconciliationRequest → TaskJob → List String
mismatches r running = when (not (eqb r.expected_task_id running.id)) "task" (
    when (not (r.expected_worker_id == running.worker_id)) "worker" (
      when (not (r.expected_worker_heartbeat_at == running.worker_heartbeat_at)) "lease"
        (when (not (r.expected_worker_lease_id == running.worker_lease_id)) "lease-token" [])))

-- `_reconciliation_request_mismatch`; the text is empty if nothing differs
unfoldable pub reconciliation_request_mismatch : Option TaskReconciliationRequest → TaskJob → String
unfolding mismatches
reconciliation_request_mismatch none running = ""
reconciliation_request_mismatch (some r) running = elim (mismatches r running) [
  | [] ↦ ""
  | m ∷ ms ↦
      join "" (
        "The running task no longer matches the expected " ∷ join ", " (m ∷ ms) ∷ " identity." ∷ [])
]

-- What the evidence comes to: a terminal status (empty if there is none), the evidence, and a
-- conflict (empty if there is none).
pub record Verdict : Type 0 where
  pub status : String
  pub evidence : List String
  pub conflict : String

abbrev verdict : String → List String → String → Verdict
verdict status evidence conflict' = record {
  status = status;
  evidence = evidence;
  conflict = conflict';
}

-- A status that the evidence supports, checked.
abbrev supported : String → List String → Verdict
supported status evidence =
    if one_of status terminal_statuses
    then verdict status evidence ""
    else verdict "" evidence "Unsupported terminal status"

-- `_terminal_reconciliation_evidence`. The statuses are at most the recorded one, and "completed"
-- for a published review.
unfoldable pub terminal_reconciliation_evidence : TaskJob → Verdict
terminal_reconciliation_evidence running =
    let published = job_has_confirmed_published_review running in
    let recorded = join "" ("terminal-evidence:" ∷ running.terminal_evidence_source ∷ []) in
    let whole = truthy running.terminal_evidence_source && truthy running.terminal_evidence_at in
    if not (truthy running.terminal_status)
    then (if published then supported "completed" ("published-review" ∷ []) else verdict "" [] "")
    else if not whole
    then (if published
        then verdict "" ("terminal-evidence:incomplete" ∷ "published-review" ∷ [])
            "Incomplete terminal evidence conflicts with a published review."
        else verdict "" [] "")
    else if not published
    then supported running.terminal_status (recorded ∷ [])
    else if running.terminal_status == "completed"
    then supported "completed" (recorded ∷ "published-review" ∷ [])
    else verdict "" (recorded ∷ "published-review" ∷ [])
        "Durable terminal evidence has conflicting outcomes."

-- `_unsupported_reconciliation_evidence`
unfoldable pub unsupported_reconciliation_evidence : TaskJob → List String
unsupported_reconciliation_evidence running =
    let published = job_has_confirmed_published_review running in
    dedupe_strings (
      when
        (truthy running.terminal_status
          && (not (truthy running.terminal_evidence_source)
              || not (truthy running.terminal_evidence_at)))
        "terminal-evidence:incomplete"
        (when (truthy running.publish_stage && not (one_of running.publish_stage publish_stages))
          (join "" ("publish-stage:" ∷ running.publish_stage ∷ []))
          (when
            ((running.publish_stage == "review_published" || running.review_published)
              && not published)
            "published-review:incomplete"
            (when
              ((truthy running.review_id || truthy running.review_url)
                && not running.review_published)
              "unconfirmed-review" []))))

abbrev same_outcome : ReconciliationOutcome → ReconciliationOutcome → Bool
same_outcome no_op no_op = true
same_outcome terminal_repair terminal_repair = true
same_outcome interrupted_worker_recovery interrupted_worker_recovery = true
same_outcome conflict conflict = true
same_outcome unsupported_evidence unsupported_evidence = true
same_outcome _ _ = false

abbrev same_id : Option ℕ → Option ℕ → Bool
same_id none none = true
same_id (some a) (some b) = eqb a b
same_id _ _ = false

pub same_texts : List String → List String → Bool
same_texts [] [] = true
same_texts (x ∷ xs) (y ∷ ys) = x == y && same_texts xs ys
same_texts _ _ = false

-- `_same_reconciliation`: all fields but `checked_at` and `recorded`
unfoldable pub same_reconciliation : TaskReconciliationResult → TaskReconciliationResult → Bool
unfolding same_texts
same_reconciliation a b =
    same_outcome a.outcome b.outcome
    && same_id a.task_id b.task_id
    && a.previous_status == b.previous_status
    && a.resulting_status == b.resulting_status
    && same_texts a.evidence b.evidence
    && a.reason == b.reason
    && a.worker_id == b.worker_id
    && a.worker_heartbeat_at == b.worker_heartbeat_at
    && a.worker_lease_id == b.worker_lease_id

-- The result against the record that is there: that record is kept if it says the same.
abbrev pub store_against :
    QueueData
    → TaskReconciliationResult
    → Option TaskReconciliationResult
    → TaskReconciliationResult × QueueData
store_against d result none = (result, record d { reconciliation = some result })
store_against d result (some previous) =
    if same_reconciliation previous result
    then (record result { checked_at = previous.checked_at; recorded = false }, d)
    else (result, record d { reconciliation = some result })

-- `_store_reconciliation`
unfoldable pub store_reconciliation :
    QueueData → TaskReconciliationResult → TaskReconciliationResult × QueueData
unfolding same_reconciliation
store_reconciliation d result =
    store_against d result (bind d.reconciliation reparse_reconciliation)
