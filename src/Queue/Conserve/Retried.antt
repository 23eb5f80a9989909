-- ===== src/Queue/Conserve/Retried.antt =====
-- src/enoch/tasks/queue.py: the ids in a queue before and after `retry_failed_task`.
use enoch.Base.{
  ℕ, ◌≡◌, refl, subst, String, Bool, true, false, ◌&&◌, Option, none, some, List, [], ◌∷◌, arith,
  find, keep, is_some, ltb, if◌then◌else◌, some-injective,
}
use enoch.Base.Text.{strip, lower, truthy}
use enoch.Job.{TaskJob, ConversationId}
use enoch.Job.Reparse.{reparse, Payload, finish_parse, terminal_ok}
use enoch.Queue.Types.{QueueData}
use enoch.Queue.Store.{parsed_jobs, all_jobs, next_id}
use enoch.Queue.Count.{IsStored, AllStored, nil, cons, AllStored-parsed}
use enoch.Queue.Invariant.{
  IsStoredData, Added, Writes, raised, written, Writes-on_option, Writes-on_list,
}
use enoch.Queue.Retry.{is_retryable, is_retry_of, retry_job, retry_failed_body}
use enoch.Queue.Conserve.Starts.{Added-behind}

-- Another id, and no terminal status.
finish_new :
    (r j : TaskJob) (p : Option Payload) (c : Option ConversationId) (s t u b b' : Bool)
    → is_some (finish_parse r p c (s && b && b')) ≡ true
    → t ≡ true
    → u ≡ true
    → is_some (finish_parse j p c (t && u && b')) ≡ true
finish_new r j none c s t u b b' h k l = absurd (cc)
finish_new r j (some p) none s t u b b' h k l = absurd (cc)
finish_new r j (some p) (some c) false t u b b' h k l = absurd (cc)
finish_new r j (some p) (some c) true t u false b' h k l = absurd (cc)
finish_new r j (some p) (some c) true t u true false h k l = absurd (cc)
finish_new r j (some p) (some c) true t u true true h k l = rw (k, l) refl

found-IsStored :
    (p : TaskJob → Bool) (xs : List TaskJob) {j : TaskJob}
    → AllStored xs
    → find p xs ≡ some j
    → IsStored j
found-IsStored p [] nil h = absurd (cc)
found-IsStored p (x ∷ xs) {j} (cons q s) h = go (p x) h (found-IsStored p xs s)
  where
    go :
        (b : Bool)
        → (if b then some x else find p xs) ≡ some j
        → (find p xs ≡ some j → IsStored j)
        → IsStored j
    go true e rest = subst IsStored (some-injective e) q
    go false e rest = rest e

pub no_status : terminal_ok (lower (strip "")) ≡ true
unfolding strip lower
no_status = refl

retry_job-IsStored :
    (original : TaskJob) (result trigger created_at : String) (id : ℕ)
    → IsStored original
    → ltb 0 id ≡ true
    → IsStored (retry_job original result trigger id created_at)
unfolding reparse retry_job
retry_job-IsStored original result trigger created_at id h k =
    finish_new original (retry_job original result trigger id created_at) _ _ _
      (terminal_ok (lower (strip ""))) (ltb 0 id) (ltb 0 original.id) (truthy (strip original.text))
      h no_status k

-- On a queue whose tasks can all be read back, where `urlsplit` returns on their addresses,
-- whatever `retry_failed_task` writes holds one task more, with the next id; every other id
-- occurs as often as before, the next id grows by one, and all tasks can be read back, where
-- `urlsplit` returns on their addresses.
pub retry_failed_body-Added :
    (task_id : ℕ) (result event_actor trigger now : String) (d : QueueData)
    → IsStoredData d
    → Writes (Added d) (retry_failed_body task_id result event_actor trigger now d)
unfolding retry_failed_body retry_job
retry_failed_body-Added task_id result event_actor trigger now d s =
    Writes-on_option (find (is_retryable task_id) (parsed_jobs d.history)) (λ _. raised _)
      (λ original found.
        Writes-on_list (keep (is_retry_of original.id) (all_jobs d))
          (λ _. written (
            Added-behind d s (retry_job original result trigger (next_id d) now) refl (
              retry_job-IsStored original result trigger now (next_id d)
                (found-IsStored (is_retryable task_id) (parsed_jobs d.history)
                  (AllStored-parsed d.history s.history) found)
                (ground arith))))
          (λ first others _. raised _))
