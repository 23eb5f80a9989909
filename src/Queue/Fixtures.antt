-- ===== src/Queue/Fixtures.antt =====
-- Small queues, tasks and requests on which the theorems are run.
use enoch.Base.{String, Bool, not, ◌||◌, ◌≡◌, refl, some, none, [], ◌∷◌, false, arith}
use enoch.Base.Int.{pos}
use enoch.Base.Text.{contains, strip, lower, clean_text}
use enoch.Json.{end, obj}
use enoch.Json.Encode.{encoded_fields}
use enoch.Payloads.{require_extension_lane_namespace, require_extension_payload_namespace}
use enoch.Payloads.Bounds.{normalize_extension_metadata, normalize_members}
use enoch.Payloads.References.{references_from_json}
use enoch.ReviewUrls.{
  merge_review_urls, dedupe_strings, review_urls_in, web_review_urls, parse_review_urls,
}
use enoch.Job.{TaskJob, number, new_job}
use enoch.Job.Normalize.{
  normalize_conversation_id, normalize_message_id, normalize_task_source,
  normalize_provenance_actor, task_requirements, normalize_task_initiator,
}
use enoch.Job.Reparse.{reparse, parse_payload, clean_job}
use enoch.Queue.Types.{QueueData, World, ok}
use enoch.Queue.Store.{load_queue, running_job}
use enoch.Queue.Count.{count, nil, cons, IsStored}
use enoch.Queue.Invariant.{IsStoredData, IsSound}
use enoch.Queue.Clock.{Clock}
use enoch.Queue.Enqueue.{NewTask}
use enoch.Queue.Finish.{Ending}

abbrev pub busy : TaskJob
busy =
    let job = new_job 7 (number (pos 1)) "build" "t0" in
    record job { status = "running"; worker_id = "w1"; worker_pid = some 42; attempt = 1 }

abbrev pub waiting : TaskJob
waiting = let job = new_job 8 (number (pos 1)) "test" "t1" in record job { idempotency_key = "k" }

abbrev pub done : TaskJob
done = let job = new_job 5 (number (pos 1)) "plan" "t0" in record job { status = "failed" }

abbrev pub queue : QueueData
queue = record {
  next_id = 9;
  pending = waiting ∷ [];
  paused = [];
  running = some busy;
  history = done ∷ [];
  reconciliation = none;
}

-- A text with a bracket and no closing one is refused.
abbrev pub splits : String → Bool
splits url = not (contains url "[") || contains url "]"

abbrev pub world : World
world = record { splits = splits; file = some queue; events = [] }

abbrev pub clock : Clock
clock = record { fromisoformat = λ s. none; isoformat = λ d. "t9"; now = 0 }

pub busy-reads : reparse busy ≡ some busy
unfolding reparse parse_payload normalize_extension_metadata normalize_members encoded_fields
    references_from_json require_extension_lane_namespace require_extension_payload_namespace
    normalize_conversation_id lower strip clean_job normalize_message_id merge_review_urls
    normalize_task_source normalize_provenance_actor task_requirements dedupe_strings review_urls_in
    clean_text parse_review_urls normalize_task_initiator
busy-reads = refl

pub busy-IsStored : IsStored busy
busy-IsStored = rw busy-reads refl

pub waiting-reads : reparse waiting ≡ some waiting
unfolding reparse parse_payload normalize_extension_metadata normalize_members encoded_fields
    references_from_json require_extension_lane_namespace require_extension_payload_namespace
    normalize_conversation_id lower strip clean_job normalize_message_id merge_review_urls
    normalize_task_source normalize_provenance_actor task_requirements dedupe_strings review_urls_in
    clean_text parse_review_urls normalize_task_initiator
waiting-reads = refl

pub waiting-IsStored : IsStored waiting
waiting-IsStored = rw waiting-reads refl

pub done-reads : reparse done ≡ some done
unfolding reparse parse_payload normalize_extension_metadata normalize_members encoded_fields
    references_from_json require_extension_lane_namespace require_extension_payload_namespace
    normalize_conversation_id lower strip clean_job normalize_message_id merge_review_urls
    normalize_task_source normalize_provenance_actor task_requirements dedupe_strings review_urls_in
    clean_text parse_review_urls normalize_task_initiator
done-reads = refl

pub done-IsStored : IsStored done
done-IsStored = rw done-reads refl

pub world-loads : load_queue world ≡ ok queue
unfolding load_queue reparse parse_payload normalize_extension_metadata normalize_members
    encoded_fields references_from_json require_extension_lane_namespace
    require_extension_payload_namespace normalize_conversation_id lower strip clean_job
    normalize_message_id merge_review_urls normalize_task_source normalize_provenance_actor
    task_requirements dedupe_strings review_urls_in clean_text web_review_urls
    normalize_task_initiator parse_review_urls
world-loads = refl

pub queue-runs : running_job queue ≡ some busy
queue-runs = busy-reads

pub queue-IsStoredData : IsStoredData queue
queue-IsStoredData = record {
  pending = cons waiting-IsStored nil;
  paused = nil;
  running = busy-IsStored;
  history = cons done-IsStored nil;
}

pub queue-IsSound : IsSound queue
unfolding count
queue-IsSound = record {
  stored = queue-IsStoredData;
  unique = λ n. ground arith;
  fresh = λ n h. ground (arith, h);
}

abbrev pub request : NewTask
request = record {
  chat_id = number (pos 1);
  text = "deploy";
  thread_id = none;
  context = "";
  context_source = "";
  source = "task";
  initiated_by = "human";
  event_actor = "human";
  trigger = "chat";
  candidate_id = "";
  parent_task_id = none;
  evidence_source = "";
  signal_actor = "";
  candidate_actor = "";
  approval_actor = "";
  parent_candidate_id = "";
  source_task_id = none;
  max_attempts = pos 3;
  timeout_seconds = none;
  required_capabilities = [];
  idempotency_key = "k";
  extension_metadata = obj end;
  extension_artifact_refs = [];
  execution_lane = "";
}

abbrev pub empty : World
empty = record { splits = splits; file = none; events = [] }

abbrev pub ending : Ending
ending = record {
  status = "completed";
  result = "ok";
  event_actor = "agent";
  trigger = "worker";
  worker_id = "w1";
  failure_code = "";
  failure_class = "";
  retryable = false;
}
