-- ===== src/Queue/Conserve/Changes.antt =====
-- src/enoch/tasks/queue.py: the ids in a queue before and after a task is changed in its place.
use enoch.Base.{
  ℕ, ◌≡◌, refl, subst, String, Bool, true, false, not, Option, none, some, List, [], ◌∷◌, ◌++◌,
  arith, eqb, map, any, split_first, split_first-eq-some, if◌then◌else◌, ◌==◌, ◌&&◌, ◌||◌,
}
use enoch.Job.{TaskJob, ConversationId}
use enoch.Job.Reparse.{reparse}
use enoch.Queue.Types.{QueueData, EventRequest}
use enoch.Queue.Store.{parsed_jobs, running_job, find_task}
use enoch.Queue.Count.{
  count, count_option, one, AllStored, nil, cons, IsStored, OptionStored, count-append,
  AllStored-append, AllStored-append_left, AllStored-append_right, count-parsed, AllStored-parsed,
  count-split, AllStored-split, one-reparse, count-running, OptionStored-running,
}
use enoch.Queue.Stored.{finish_again}
use enoch.Queue.Invariant.{IsStoredData, Kept, Writes, left, written, Writes-on_option, Writes-if}
use enoch.Queue.Regress.{
  restatused_job, restatus, regress_body, resolve_body, unrelated, related_event,
}
use enoch.Queue.Finish.{event_with_result}
use enoch.Queue.Record.{
  messaged_job, reported_job, run_job, RuntimeResult, update_with_id, map_option, any_option,
  update_body,
}

-- A task of the history takes another status.
module _ (d : QueueData) (s : IsStoredData d) where
  pub restatus-Kept :
      (task_id : ℕ) (from to now result : String) (event : TaskJob → EventRequest)
      → Writes (Kept d) (restatus d task_id from to now result event)
  unfolding reparse restatused_job count
  restatus-Kept task_id from to now result event =
      Writes-on_option (split_first (λ job. eqb job.id task_id) (parsed_jobs d.history))
        (λ _. left none)
        (λ (before, job, behind) found.
          Writes-if (not (job.status == from)) (λ _. left none)
            (λ _. written (
              replaced before job behind
                (split_first-eq-some (λ j. eqb j.id task_id) (parsed_jobs d.history) found).0)))
    where
      replaced :
          (before : List TaskJob) (job : TaskJob) (behind : List TaskJob)
          → parsed_jobs d.history ≡ before ++ job ∷ behind
          → Kept d (record d { history = before ++ restatused_job job to now result ∷ behind })
      replaced before job behind split =
          let all = subst AllStored split (AllStored-parsed d.history s.history) in
          let (stored, others) = AllStored-split before job behind all in
          record {
            stored = record {
              pending = s.pending;
              paused = s.paused;
              running = s.running;
              history = AllStored-append before _ (AllStored-append_left before behind others) (
                  cons (finish_again job (restatused_job job to now result) _ _ _ stored)
                    (AllStored-append_right before behind others));
            };
            same = λ n. omega (
              arith,
              one-reparse n job (restatused_job job to now result) refl,
              count-split n (parsed_jobs d.history) before job behind split,
              count-append n before behind,
              count-append n before (restatused_job job to now result ∷ behind),
              count-parsed n d.history s.history,
            );
            next = refl;
          }

  pub regress_body-Kept :
      (task_id : ℕ) (result event_actor trigger now : String)
      → Writes (Kept d) (regress_body task_id result event_actor trigger now d)
  unfolding regress_body
  regress_body-Kept task_id result event_actor trigger now =
      restatus-Kept task_id "completed" "regressed" now result
        (λ job. event_with_result job "regressed" event_actor trigger result)

  pub resolve_body-Kept :
      (task_id : ℕ) (resolution result event_actor trigger : String) (related : Option ℕ)
      (now : String)
      → Writes (Kept d) (resolve_body task_id resolution result event_actor trigger related now d)
  unfolding resolve_body
  resolve_body-Kept task_id resolution result event_actor trigger related now =
      Writes-if (resolution == "forward-fixed" && unrelated task_id (find_task d related))
        (λ _. left none)
        (λ _.
          restatus-Kept task_id "regressed" resolution now result
            (related_event resolution event_actor trigger result related))

-- A change that keeps the id and leaves the task readable, on every task with an id.
module _ (task_id : ℕ) (change : TaskJob → TaskJob)
    (same : (job : TaskJob) → (change job).id ≡ job.id)
    (stored : (job : TaskJob) → IsStored job → IsStored (change job)) where
  update_with_id-IsStored :
      (job : TaskJob) → IsStored job → IsStored (update_with_id task_id change job)
  update_with_id-IsStored job h = go (eqb job.id task_id)
    where
      go : (b : Bool) → IsStored (if b then change job else job)
      go true = stored job h
      go false = h

  one-update_with_id :
      (n : ℕ) (job : TaskJob) → one n (update_with_id task_id change job) ≡ one n job
  one-update_with_id n job = go (eqb job.id task_id)
    where
      go : (b : Bool) → one n (if b then change job else job) ≡ one n job
      go true = one-reparse n job (change job) (same job)
      go false = refl

  AllStored-updated :
      (xs : List TaskJob) → AllStored xs → AllStored (map (update_with_id task_id change) xs)
  AllStored-updated [] nil = nil
  AllStored-updated (x ∷ xs) (cons p h) =
      cons (update_with_id-IsStored x p) (AllStored-updated xs h)

  count-updated :
      (n : ℕ) (xs : List TaskJob) → count n (map (update_with_id task_id change) xs) ≡ count n xs
  unfolding count
  count-updated n [] = refl
  count-updated n (x ∷ xs) = omega (arith, one-update_with_id n x, count-updated n xs)

  OptionStored-updated :
      (o : Option TaskJob)
      → OptionStored o
      → OptionStored (map_option (update_with_id task_id change) o)
  OptionStored-updated none h = tt
  OptionStored-updated (some x) p = update_with_id-IsStored x p

  count_option-updated :
      (n : ℕ) (o : Option TaskJob)
      → count_option n (map_option (update_with_id task_id change) o) ≡ count_option n o
  count_option-updated n none = refl
  count_option-updated n (some x) = one-update_with_id n x

  pub update_body-Kept :
      (with_paused : Bool) (d : QueueData)
      → IsStoredData d
      → Writes (Kept d) (update_body with_paused task_id change d)
  unfolding update_body
  update_body-Kept with_paused d s =
      Writes-if
        (any (λ job. eqb job.id task_id) (parsed_jobs d.pending)
          || (with_paused && any (λ job. eqb job.id task_id) (parsed_jobs d.paused))
          || any_option (λ job. eqb job.id task_id) (running_job d))
        (λ _. written (kept with_paused)) (λ _. left tt)
    where
      paused_stored :
          (b : Bool)
          → AllStored
              (if b then map (update_with_id task_id change) (parsed_jobs d.paused) else d.paused)
      paused_stored true = AllStored-updated _ (AllStored-parsed d.paused s.paused)
      paused_stored false = s.paused

      paused_count :
          (n : ℕ) (b : Bool)
          → count n
              (if b then map (update_with_id task_id change) (parsed_jobs d.paused) else d.paused)
            ≡ count n d.paused
      paused_count n true =
          omega (arith, count-updated n (parsed_jobs d.paused), count-parsed n d.paused s.paused)
      paused_count n false = refl

      kept :
          (b : Bool)
          → Kept d (record d {
            pending = map (update_with_id task_id change) (parsed_jobs d.pending);
            paused =
                if b then map (update_with_id task_id change) (parsed_jobs d.paused) else d.paused;
            running = map_option (update_with_id task_id change) (running_job d);
          })
      kept b = record {
        stored = record {
          pending = AllStored-updated _ (AllStored-parsed d.pending s.pending);
          paused = paused_stored b;
          running = OptionStored-updated _ (OptionStored-running d.running s.running);
          history = s.history;
        };
        same = λ n. omega (
          arith,
          count-updated n (parsed_jobs d.pending),
          count-parsed n d.pending s.pending,
          paused_count n b,
          count_option-updated n (running_job d),
          count-running n d.running s.running,
        );
        next = refl;
      }

module _ (job : TaskJob) (h : IsStored job) where
  pub messaged_job-IsStored : (message : ConversationId) → IsStored (messaged_job message job)
  unfolding reparse messaged_job
  messaged_job-IsStored message = finish_again job (messaged_job message job) _ _ _ h

  pub reported_job-IsStored : (result : String) → IsStored (reported_job result job)
  unfolding reparse reported_job
  reported_job-IsStored result = finish_again job (reported_job result job) _ _ _ h

  pub run_job-IsStored : (r : RuntimeResult) (provider : String) → IsStored (run_job r provider job)
  unfolding reparse run_job
  run_job-IsStored r provider = finish_again job (run_job r provider job) _ _ _ h

pub id-messaged_job :
    (message : ConversationId) (job : TaskJob) → (messaged_job message job).id ≡ job.id
unfolding messaged_job
id-messaged_job message job = refl

pub id-reported_job : (result : String) (job : TaskJob) → (reported_job result job).id ≡ job.id
unfolding reported_job
id-reported_job result job = refl

pub id-run_job :
    (r : RuntimeResult) (provider : String) (job : TaskJob) → (run_job r provider job).id ≡ job.id
unfolding run_job
id-run_job r provider job = refl
