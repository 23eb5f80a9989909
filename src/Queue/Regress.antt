-- ===== src/Queue/Regress.antt =====
-- src/enoch/tasks/queue.py: completed work that proves to be wrong, `regress_task`,
-- `resolve_regressed_task` and `revert_task`.
use enoch.Base.{
  ℕ, String, Bool, true, false, not, ◌&&◌, ◌||◌, Option, none, some, [], ◌∷◌, ◌++◌, eqb, ◌==◌,
  split_first, if◌then◌else◌,
}
use enoch.Base.Int.{ℤ}
use enoch.Base.Text.{strip, lower, or_else, one_of}
use enoch.Job.{TaskJob}
use enoch.Job.Normalize.{positive_int}
use enoch.Queue.Types.{
  on_option, QueueData, Result, ok, err, value_error, EventRequest, Outcome, leave, commit, World,
  Operation,
}
use enoch.Queue.Store.{parsed_jobs, find_task, transaction}
use enoch.Queue.Finish.{event_with_result}

unfoldable pub restatused_job : TaskJob → String → String → String → TaskJob
restatused_job job status now result = record job {
  status = status;
  completed_at = now;
  result = or_else result job.result;
}

-- The first job of the history with this id takes a new status, if it has the old one.
abbrev pub restatus :
    QueueData
    → ℕ
    → String
    → String
    → String
    → String
    → (TaskJob → EventRequest)
    → Outcome (Option TaskJob)
restatus d task_id from to now result event =
    on_option (split_first (λ job. eqb job.id task_id) (parsed_jobs d.history)) (leave none)
      (λ (before, job, behind).
        if not (job.status == from)
        then leave none
        else (let updated = restatused_job job to now result in
            commit (record d { history = before ++ updated ∷ behind }) (event updated ∷ [])
              (some updated)))

unfoldable pub regress_body :
    ℕ → String → String → String → String → QueueData → Outcome (Option TaskJob)
unfolding restatused_job
regress_body task_id result event_actor trigger now d =
    restatus d task_id "completed" "regressed" now result
      (λ job. event_with_result job "regressed" event_actor trigger result)

unfoldable pub regress_task : ℕ → String → String → String → String → Operation (Option TaskJob)
regress_task task_id result event_actor trigger now =
    transaction (regress_body task_id result event_actor trigger now)

-- A forward fix names another completed task.
abbrev pub unrelated : ℕ → Option TaskJob → Bool
unrelated task_id none = true
unrelated task_id (some related) = eqb related.id task_id || not (related.status == "completed")

abbrev pub related_event : String → String → String → String → Option ℕ → TaskJob → EventRequest
related_event resolution event_actor trigger result related job =
    let request = event_with_result job resolution event_actor trigger result in
    record request { related_task_id = related }

unfoldable pub resolve_body :
    ℕ → String → String → String → String → Option ℕ → String → QueueData → Outcome (Option TaskJob)
unfolding restatused_job
resolve_body task_id resolution result event_actor trigger related now d =
    if resolution == "forward-fixed" && unrelated task_id (find_task d related)
    then leave none
    else restatus d task_id "regressed" resolution now result
        (related_event resolution event_actor trigger result related)

unfoldable pub resolve_regressed_task :
    ℕ → String → String → String → String → Option ℤ → String → Operation (Option TaskJob)
resolve_regressed_task task_id resolution result event_actor trigger related_task_id now w =
    let normalized = lower (strip resolution) in
    if one_of normalized ("reverted" ∷ "forward-fixed" ∷ [])
    then transaction
        (resolve_body task_id normalized result event_actor trigger (positive_int related_task_id)
          now)
        w
    else (err (value_error "Regression resolution must be reverted or forward-fixed."), w)

-- `_find_task_in_status`
unfoldable pub find_task_in_status : ℕ → Operation (Option TaskJob)
find_task_in_status task_id = transaction (λ d. leave (find_task d (some task_id)))

abbrev then_run : {A B : Type 0} → Result A × World → (A → Operation B) → Result B × World
then_run (ok a, w) next = next a w
then_run (err e, w) next = (err e, w)

-- `current is None or current.status != "regressed"`
abbrev is_regressed : Option TaskJob → Bool
is_regressed none = false
is_regressed (some job) = job.status == "regressed"

-- Three transactions, each over the file that the one before left; `now₁` and `now₂` are the
-- times of the second and the third.
unfoldable pub revert_task :
    ℕ → String → String → String → Option ℤ → String → String → Operation (Option TaskJob)
revert_task task_id result event_actor trigger related_task_id now₁ now₂ w =
    then_run (find_task_in_status task_id w) λ found w₁. elim found [
      | none ↦ (ok none, w₁)
      | some current ↦
          then_run
            (if current.status == "completed"
              then regress_task task_id result event_actor trigger now₁ w₁
              else (ok (some current), w₁))
            λ current' w₂.
              if is_regressed current'
              then resolve_regressed_task task_id "reverted" result event_actor trigger
                  related_task_id now₂ w₂
              else (ok none, w₂)
    ]
