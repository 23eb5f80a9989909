-- ===== src/Queue/Examples.antt =====
-- Runs of the queue's theorems on small queues.
mod Reading
use enoch.Base.{
  String, ◌≡◌, refl, ap, sym, subst, ◌∙◌, some, none, [], ◌∷◌, ◌++◌, Bool, true, false, arith,
}
use enoch.Base.Int.{pos}
use enoch.Base.Text.{strip, lower, clean_text}
use enoch.Json.{end}
use enoch.Json.Encode.{encoded_fields}
use enoch.Payloads.{require_extension_lane_namespace, require_extension_payload_namespace}
use enoch.Payloads.Bounds.{normalize_extension_metadata, normalize_members}
use enoch.Payloads.References.{references_from_json}
use enoch.ReviewUrls.{
  merge_review_urls, dedupe_strings, review_urls_in, web_review_urls, parse_review_urls, all_split,
}
use enoch.Job.{TaskJob}
use enoch.Job.Normalize.{
  normalize_conversation_id, normalize_message_id, normalize_task_source,
  normalize_provenance_actor, task_requirements, normalize_task_initiator,
}
use enoch.Job.Reparse.{reparse, parse_payload, clean_job}
use enoch.Base.{◌≤◌, ◌||◌, ◌==◌}
use enoch.Base.Text.{truthy, split, join}
use enoch.Queue.Types.{QueueData, ok, err, value_error, task_already_exists}
use enoch.Queue.Count.{IsStored}
use enoch.Queue.Invariant.{Kept, Added, Writes, written, FileIsSound}
use enoch.Queue.Clock.{task_is_due}
use enoch.Queue.Enqueue.{
  Checked, job_of_request, enqueue_body, check_request, enqueue_task, enqueue_task_front,
  begin_direct_task,
}
use enoch.Queue.Begin.{
  lane_predecessors_finished, begin_next_body, begin_next_task, first_ready, task_is_ready,
}
use enoch.Queue.Worker.{
  heartbeat_task, record_task_workspace, delivered, task_worker_is_active, claim_running_task,
}
use enoch.Queue.Finish.{finish_body, finished_job, cancel_body, finish_running_task}
use enoch.Queue.Pause.{pause_body, pause_task, resume_body}
use enoch.Queue.Retry.{retry_running_task, retry_running_body, retry_failed_body}
use enoch.Queue.Regress.{regress_body, resolve_body}
use enoch.Queue.Evidence.{reconciliation_request_mismatch}
use enoch.Queue.Reconcile.{reconcile_body}
use enoch.Queue.Fences.{stale_worker-changes_nothing, claim_running_task-excluded}
use enoch.Queue.Order.{
  none_ready, first_ready-IsFirst, first_ready-eq-none, StartedInOrder,
  begin_next_body-StartedInOrder,
}
use enoch.Queue.Reuse.{holds_key, known_key-makes_no_task}
use enoch.Queue.Cautious.{
  SameTasks, reconcile_body-fails_closed, retry_running_body-bounded, Restatused,
  regress_body-Restatused, resolve_body-Restatused,
}
use enoch.Queue.Conserve.Starts.{enqueue_body-Added, begin_next_body-Kept}
use enoch.Queue.Conserve.Ends.{finish_body-Kept, cancel_body-Kept}
use enoch.Queue.Conserve.Paused.{pause_body-Kept}
use enoch.Queue.Conserve.Resumed.{resume_body-Kept}
use enoch.Queue.Conserve.Retried.{retry_failed_body-Added}
use enoch.Queue.Conserve.Reconciled.{reconcile_body-Kept}
use enoch.Queue.Parsing.{adds_split, all_add_split, parse_job_stable}
use enoch.Queue.Readable.{is_ok, load_data-write_queue, transaction-readable}
use enoch.Queue.Store.{
  load_queue, parsed_jobs, running_job, singleton, parse_job, all_parse, stored_jobs, first_problem,
  load_data, write_queue, transaction,
}
use enoch.Queue.Reach.{stay, and_then, enqueues, begins_next, Steps-FileIsSound}
use enoch.Queue.Fixtures.{
  busy, waiting, done, splits, waiting-reads, queue, world, clock, busy-reads, world-loads,
  queue-runs, queue-IsStoredData, queue-IsSound, request, empty, ending,
}

Steps-FileIsSound_example :
    FileIsSound (begin_next_task clock "t1" (enqueue_task request "t0" empty).1).1.file
Steps-FileIsSound_example =
    Steps-FileIsSound {w = empty} tt
      (and_then (and_then stay (enqueues request "t0")) (begins_next clock "t1"))

w2-clean : strip "w2" ≡ "w2"
unfolding strip
w2-clean = refl

stale_worker-changes_nothing_example :
    (finish_running_task 7 (record ending { worker_id = "w2" }) "t2" world ≡ (ok none, world))
    × (retry_running_task clock 7 "r" "c" "f" "w2" (pos 5) "agent" "chat" world ≡ (ok none, world))
    × (pause_task 7 "r" "agent" "chat" "w2" world ≡ (ok none, world))
    × (heartbeat_task 7 "w2" "t2" "l2" world ≡ (ok none, world))
    × (record_task_workspace 7 "w2" "r" "c" world ≡ (ok none, world))
stale_worker-changes_nothing_example =
    stale_worker-changes_nothing world queue busy "w2" 7 ending clock "r" "c" "f" "agent" "chat"
      "t2" "l2" (pos 5) world-loads queue-runs refl w2-clean refl

w2-named : truthy (strip "w2") ≡ true
w2-named = rw w2-clean refl

busy-IsActive : task_worker_is_active (λ pid. delivered) busy ≡ true
unfolding task_worker_is_active
busy-IsActive = refl

claim_running_task-excluded_example :
    claim_running_task (λ pid. delivered) 7 "w2" (pos 43) "t2" "l2" world ≡ (ok none, world)
claim_running_task-excluded_example =
    claim_running_task-excluded world queue busy (λ pid. delivered) 7 "w2" 42 "t2" "l2" world-loads
      queue-runs w2-named (rw w2-clean refl) busy-IsActive

waiting-ready : first_ready clock [] [] (waiting ∷ []) ≡ some ([], waiting, [])
unfolding first_ready task_is_due lane_predecessors_finished
waiting-ready = refl

first_ready-IsFirst_example :
    (waiting ∷ [] ≡ [] ++ waiting ∷ [])
    × (task_is_ready clock [] [] waiting ≡ true)
    × (none_ready clock [] [] [] ≡ true)
first_ready-IsFirst_example = first_ready-IsFirst clock [] (waiting ∷ []) waiting-ready

abbrev in_lane : TaskJob
in_lane = record waiting { execution_lane = "extension/a" }

in_lane-blocked : first_ready clock ("extension/a" ∷ []) [] (in_lane ∷ []) ≡ none
unfolding first_ready task_is_due lane_predecessors_finished
in_lane-blocked = refl

first_ready-eq-none_example : none_ready clock ("extension/a" ∷ []) [] (in_lane ∷ []) ≡ true
first_ready-eq-none_example =
    first_ready-eq-none clock ("extension/a" ∷ []) [] (in_lane ∷ []) in_lane-blocked

abbrev idle_queue : QueueData
idle_queue = record queue { running = none; pending = waiting ∷ in_lane ∷ [] }

begin_next_body-StartedInOrder_example :
    Writes (StartedInOrder clock idle_queue) (begin_next_body clock "t2" idle_queue)
begin_next_body-StartedInOrder_example = begin_next_body-StartedInOrder clock "t2" idle_queue

abbrev valid : Checked
valid = record {
  text = "deploy";
  source = "task";
  initiated_by = "human";
  max_attempts = 3;
  timeout_seconds = none;
  required_capabilities = [];
  extension_metadata = end;
  extension_artifact_refs = [];
  execution_lane = "";
}

request-checks : check_request request ≡ ok valid
unfolding check_request reparse parse_payload normalize_extension_metadata normalize_members
    encoded_fields references_from_json require_extension_lane_namespace
    require_extension_payload_namespace normalize_conversation_id lower strip clean_job
    normalize_message_id merge_review_urls normalize_task_source normalize_provenance_actor
    task_requirements dedupe_strings review_urls_in clean_text split join web_review_urls
    normalize_task_initiator
request-checks = refl

key-named : truthy (strip "k") ≡ true
unfolding strip
key-named = refl

key-held :
    (holds_key (strip "k") (parsed_jobs queue.pending)
      || holds_key (strip "k") (parsed_jobs queue.paused)
      || holds_key (strip "k") (singleton (running_job queue))
      || holds_key (strip "k") (parsed_jobs queue.history))
    ≡ true
unfolding strip
key-held = rw waiting-reads refl

known_key-makes_no_task_example :
    (existing : TaskJob) × ((existing.idempotency_key == strip "k") ≡ true)
    × (enqueue_task request "t2" world ≡ (ok existing, world))
    × (enqueue_task_front request "t2" world ≡ (ok existing, world))
    × (begin_direct_task request "t2" "t3" world ≡ (err (task_already_exists existing), world))
known_key-makes_no_task_example =
    known_key-makes_no_task world queue request valid "t2" "t3" world-loads request-checks key-named
      key-held

abbrev deploy : TaskJob
deploy = job_of_request request valid 9 "t2"

deploy-IsStored : IsStored (job_of_request request valid 9 "t2")
unfolding job_of_request reparse parse_payload normalize_extension_metadata normalize_members
    encoded_fields references_from_json require_extension_lane_namespace
    require_extension_payload_namespace normalize_conversation_id lower strip clean_job
    normalize_message_id merge_review_urls normalize_task_source normalize_provenance_actor
    task_requirements dedupe_strings review_urls_in clean_text split join web_review_urls
    normalize_task_initiator
deploy-IsStored = refl

enqueue_body-Added_example : Writes (Added queue) (enqueue_body request valid "t2" queue)
enqueue_body-Added_example =
    enqueue_body-Added request valid queue queue-IsStoredData "t2" deploy-IsStored

reconcile_body-fails_closed_example :
    Writes (SameTasks queue) (reconcile_body clock none (λ job. true) "t2" queue)
reconcile_body-fails_closed_example =
    reconcile_body-fails_closed clock none (λ job. true) "t2" queue busy queue-runs
      (rw (or_true (truthy (reconciliation_request_mismatch none busy))) refl)
  where
    or_true : (b : Bool) → (b || true) ≡ true
    or_true b = ground arith

retry_running_body-bounded_example :
    Writes (λ d'. 2 ≤ 3) (retry_running_body clock 7 "r" "c" "f" "w1" (pos 5) "agent" "chat" queue)
retry_running_body-bounded_example =
    retry_running_body-bounded clock 7 "r" "c" "f" "w1" (pos 5) "agent" "chat" queue busy queue-runs

finish_body-Kept_example : Writes (Kept queue) (finish_body 7 ending "t2" queue)
finish_body-Kept_example = finish_body-Kept 7 ending "t2" queue queue-IsStoredData

cancel_body-Kept_example : Writes (Kept queue) (cancel_body 8 "human" "chat" "t2" queue)
cancel_body-Kept_example = cancel_body-Kept 8 "human" "chat" "t2" queue queue-IsStoredData

pause_body-Kept_example : Writes (Kept queue) (pause_body 7 "r" "human" "chat" "w1" queue)
pause_body-Kept_example = pause_body-Kept 7 "r" "human" "chat" "w1" queue queue-IsSound

resume_body-Kept_example : Writes (Kept queue) (resume_body none "human" "chat" queue)
resume_body-Kept_example = resume_body-Kept none "human" "chat" queue queue-IsStoredData

retry_failed_body-Added_example :
    Writes (Added queue) (retry_failed_body 5 "r" "human" "chat" "t2" queue)
retry_failed_body-Added_example =
    retry_failed_body-Added 5 "r" "human" "chat" "t2" queue queue-IsStoredData

begin_next_body-Kept_example : Writes (Kept queue) (begin_next_body clock "t2" queue)
begin_next_body-Kept_example = begin_next_body-Kept clock "t2" queue queue-IsStoredData

reconcile_body-Kept_example :
    Writes (Kept queue) (reconcile_body clock none (λ job. false) "t2" queue)
reconcile_body-Kept_example =
    reconcile_body-Kept clock none (λ job. false) "t2" queue queue-IsStoredData
