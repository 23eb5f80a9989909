-- ===== src/Queue/Conserve/Workers.antt =====
-- src/enoch/tasks/queue.py: the ids in a queue before and after the calls of a worker, of a record or
-- of `retry_running_task`.
use enoch.Base.{
  ℕ, ◌≡◌, refl, Bool, true, false, not, Option, none, some, String, eqb, leb, ◌||◌, ◌&&◌, ◌==◌,
  if◌then◌else◌,
}
use enoch.Base.Int.{ℤ}
use enoch.Base.Text.{truthy}
use enoch.Job.{TaskJob}
use enoch.Job.Reparse.{reparse, terminal_ok}
use enoch.Base.Text.{strip, lower}
use enoch.Queue.Types.{QueueData}
use enoch.Queue.Store.{running_job}
use enoch.Queue.Clock.{Clock, retry_at}
use enoch.Queue.Stored.{finish_again, finish_other}
use enoch.Queue.Moves.{running-IsStored, Kept-replace, Kept-to_pending}
use enoch.Queue.Invariant.{
  IsStoredData, Kept, Writes, raised, left, written, Writes-on_option, Writes-if,
}
use enoch.Queue.Worker.{
  Probe, claimed_job, held_by_other, claim_body, held_by, beaten_job, heartbeat_body, placed_job,
  workspace_body,
}
use enoch.Queue.Finish.{fenced}
use enoch.Queue.Retry.{recovered_job, retry_running_body}
use enoch.Queue.Record.{
  TaskPublicationState, published_job, publication_body, TaskTerminalEvidence, with_evidence,
  same_evidence, evidence_body,
}

pub claim_body-Kept :
    (kill : ℕ → Probe) (task_id : ℕ) (worker_id : String) (pid : Option ℕ) (now lease : String)
    (d : QueueData)
    → IsStoredData d
    → Writes (Kept d) (claim_body kill task_id worker_id pid now lease d)
unfolding claim_body reparse
claim_body-Kept kill task_id worker_id pid now lease d s =
    Writes-on_option (running_job d) (λ _. left none)
      λ running found.
        Writes-if (eqb running.id task_id)
          (λ _.
            Writes-if (held_by_other kill worker_id running) (λ _. left none)
              λ _. written (
                Kept-replace d s running found (claimed_job running worker_id pid now lease) refl (
                  finish_again running (claimed_job running worker_id pid now lease) _ _ _
                    (running-IsStored d s running found))))
          (λ _. left none)

if_some {ℓ} :
    {A : Type ℓ} (b : Bool) (o : Option A) {a : A} → (if b then o else none) ≡ some a → o ≡ some a
if_some true o h = h
if_some false o h = absurd (cc)

-- The task that a worker holds is the running one.
pub held_by-eq-some :
    (d : QueueData) (task_id : ℕ) (worker_id : String) {running : TaskJob}
    → held_by d task_id worker_id ≡ some running
    → running_job d ≡ some running
unfolding held_by
held_by-eq-some d task_id worker_id {running} h = go (running_job d) h
  where
    go :
        (o : Option TaskJob)
        → (elim o [
          | none ↦ none
          | some r ↦ if eqb r.id task_id && r.worker_id == worker_id then some r else none
        ])
          ≡ some running
        → o ≡ some running
    go none e = absurd (cc)
    go (some r) e = if_some (eqb r.id task_id && r.worker_id == worker_id) (some r) e

pub heartbeat_body-Kept :
    (task_id : ℕ) (worker_id now lease : String) (d : QueueData)
    → IsStoredData d
    → Writes (Kept d) (heartbeat_body task_id worker_id now lease d)
unfolding heartbeat_body reparse
heartbeat_body-Kept task_id worker_id now lease d s =
    Writes-on_option (held_by d task_id worker_id) (λ _. left none)
      λ running h.
        let found = held_by-eq-some d task_id worker_id h in
        written (
          Kept-replace d s running found (beaten_job running now lease) refl (
            finish_again running (beaten_job running now lease) _ _ _
              (running-IsStored d s running found)))

pub workspace_body-Kept :
    (task_id : ℕ) (worker_id workspace_path workspace_id : String) (d : QueueData)
    → IsStoredData d
    → Writes (Kept d) (workspace_body task_id worker_id workspace_path workspace_id d)
unfolding workspace_body reparse
workspace_body-Kept task_id worker_id workspace_path workspace_id d s =
    Writes-on_option (if truthy worker_id then held_by d task_id worker_id else none)
      (λ _. left none)
      λ running h.
        let found = held_by-eq-some d task_id worker_id (if_some (truthy worker_id) _ h) in
        written (
          Kept-replace d s running found (placed_job running workspace_path workspace_id) refl (
            finish_again running (placed_job running workspace_path workspace_id) _ _ _
              (running-IsStored d s running found)))

pub publication_body-Kept :
    (task_id : ℕ) (worker_id : String) (state : TaskPublicationState) (d : QueueData)
    → IsStoredData d
    → Writes (Kept d) (publication_body task_id worker_id state d)
unfolding publication_body reparse
publication_body-Kept task_id worker_id state d s =
    Writes-on_option (if truthy worker_id then held_by d task_id worker_id else none)
      (λ _. left none)
      λ running h.
        let found = held_by-eq-some d task_id worker_id (if_some (truthy worker_id) _ h) in
        written (
          Kept-replace d s running found (published_job running state) refl (
            finish_again running (published_job running state) _ _ _
              (running-IsStored d s running found)))

-- Evidence is recorded with a status that can be read.
pub evidence_body-Kept :
    (task_id : ℕ) (worker_id : String) (e : TaskTerminalEvidence) (now : String) (d : QueueData)
    → terminal_ok (lower (strip e.status)) ≡ true
    → IsStoredData d
    → Writes (Kept d) (evidence_body task_id worker_id e now d)
unfolding evidence_body reparse
evidence_body-Kept task_id worker_id e now d readable s =
    Writes-on_option (held_by d task_id worker_id) (λ _. left none)
      λ running h.
        let found = held_by-eq-some d task_id worker_id h in
        Writes-if (truthy running.terminal_status)
          (λ _. Writes-if (same_evidence running e) (λ _. left (some running)) (λ _. raised _))
          (λ _. written (
            Kept-replace d s running found (with_evidence running e now) refl (
              finish_other running (with_evidence running e now) _ _
                (terminal_ok (lower (strip running.terminal_status)))
                (terminal_ok (lower (strip e.status))) _ _ (running-IsStored d s running found)
                readable)))

pub retry_running_body-Kept :
    (clock : Clock) (task_id : ℕ) (result failure_code failure_class worker_id : String) (delay : ℤ)
    (event_actor trigger : String) (d : QueueData)
    → IsStoredData d
    → Writes (Kept d) (
        retry_running_body clock task_id result failure_code failure_class worker_id delay
          event_actor trigger d)
unfolding retry_running_body reparse strip lower
retry_running_body-Kept clock task_id result code class worker_id delay actor trigger d s =
    Writes-on_option (running_job d) (λ _. left none)
      λ running found.
        let job = recovered_job running result code class (retry_at clock delay) in
        Writes-if
          (not (eqb running.id task_id)
            || fenced worker_id running
            || leb running.max_attempts running.attempt)
          (λ _. left none)
          λ _. written (
            Kept-to_pending d s running found job refl
              (finish_other running job _ _ (terminal_ok (lower (strip running.terminal_status)))
                true _ _ (running-IsStored d s running found) refl)
              d.reconciliation)
