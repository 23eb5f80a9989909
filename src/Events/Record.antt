-- ===== src/Events/Record.antt =====
-- src/enoch/tasks/events.py: the event that is recorded for a task. `none` is the `ValueError`
-- that the code raises.
use Prim.Native.Char.{Char, code}
use Prim.Native.String.{String, ◌++◌}
use enoch.Base.{
  ℕ, Bool, true, false, ◌&&◌, ◌||◌, Option, none, some, List, [], ◌∷◌, max, leb, eqb, is_some,
  if◌then◌else◌, ◌==◌,
}
use enoch.Base.Text.{
  truthy, or_else, one_of, strip, rstrip, lower, len, clean_text, split_where, starts_with,
  drop_prefix, take_chars,
}
use enoch.Json.{obj}
use enoch.Job.{TaskJob}
use enoch.Job.Normalize.{
  normalize_task_source, normalize_task_initiator, normalize_provenance_actor, positive_nat,
}
use enoch.Job.Reparse.{Payload, join_payload}
use enoch.Payloads.{require_extension_lane_namespace}
use enoch.Payloads.Bounds.{normalize_extension_metadata}
use enoch.Payloads.References.{normalize_extension_artifact_references}
use enoch.ReviewUrls.{dedupe_strings}
use enoch.Events.{TaskEvent, task_event_types, task_event_actors, terminal_events}

abbrev pub summary_limit : ℕ
summary_limit = 4000

-- `_clip`
unfoldable pub clip : String → String
clip text =
    let cleaned = strip text in
    if leb (len cleaned) summary_limit
    then cleaned
    else rstrip (take_chars summary_limit cleaned) ++ "\n\n[truncated]"

-- `_event_time`; `now` is `current_time()`
unfoldable pub event_time : TaskJob → String → String → String
event_time job event now =
    if event == "created"
    then or_else job.created_at now
    else if event == "started"
    then or_else job.started_at now
    else if one_of event terminal_events
    then or_else job.completed_at now
    else now

-- A character at which `splitlines` ends a line; a line feed behind a carriage return gives one
-- blank line more here, which the search for files passes over.
line_end : Char → Bool
line_end ch =
    let c = code ch in
    (leb 10 c && leb c 13) || (leb 28 c && leb c 30) || eqb c 0x85 || eqb c 0x2028 || eqb c 0x2029

-- The loop of `_changed_files`, on stripped lines.
listed_files : Bool → List String → List String
listed_files in_files [] = []
listed_files in_files (raw_line ∷ lines) =
    let line = strip raw_line in
    let inside = listed_files true lines in
    let same = listed_files in_files lines in
    let outside = listed_files false lines in
    if line == "Files:"
    then inside
    else if in_files && starts_with line "- "
    then strip (drop_prefix line "- ") ∷ same
    else if in_files && truthy line
    then outside
    else same

-- `_changed_files`
unfoldable pub changed_files : String → List String
unfolding listed_files line_end
changed_files result = dedupe_strings (listed_files false (split_where line_end result))

-- What a call of `record_task_event` passes on, beside the job.
pub record Call : Type 0 where
  pub event : String
  pub event_actor : String
  pub trigger : String
  pub result : String
  pub related_task_id : Option ℕ
  -- `uuid4().hex`
  pub hex : String
  -- `current_time()`
  pub now : String

-- The event with its parts normalized.
unfoldable pub new_event : TaskJob → Call → String → String → Payload → TaskEvent
unfolding clip event_time changed_files
new_event job call source initiated_by payload =
    let summary = clip (or_else call.result job.result) in
    let event = lower (clean_text call.event) in
    record {
      id = "event-" ++ call.hex;
      task_id = job.id;
      occurred_at = event_time job event call.now;
      event = event;
      source = source;
      initiated_by = initiated_by;
      event_actor = lower (clean_text call.event_actor);
      trigger = clean_text (or_else call.trigger job.trigger);
      request = clean_text job.text;
      result_summary = summary;
      context_source = clean_text job.context_source;
      candidate_id = clean_text job.candidate_id;
      parent_task_id = positive_nat job.parent_task_id;
      evidence_source = lower (clean_text job.evidence_source);
      signal_actor = normalize_provenance_actor job.signal_actor;
      candidate_actor = normalize_provenance_actor job.candidate_actor;
      approval_actor = normalize_provenance_actor job.approval_actor;
      parent_candidate_id = clean_text job.parent_candidate_id;
      source_task_id = positive_nat job.source_task_id;
      related_task_id = positive_nat call.related_task_id;
      workspace_id = clean_text job.workspace_id;
      review_id = clean_text job.review_id;
      review_urls = dedupe_strings job.review_urls;
      changed_files = changed_files summary;
      publish_stage = lower (clean_text job.publish_stage);
      revision_id = clean_text job.revision_id;
      attempt = job.attempt;
      max_attempts = max 1 job.max_attempts;
      next_attempt_at = strip job.next_attempt_at;
      failure_code = lower (clean_text job.failure_code);
      failure_class = lower (clean_text job.failure_class);
      retryable = job.retryable;
      runtime_provider = lower (clean_text job.runtime_provider);
      runtime_session_id = clean_text job.runtime_session_id;
      runtime_completion_reason = lower (clean_text job.runtime_completion_reason);
      runtime_usage = job.runtime_usage;
      runtime_event_types = dedupe_strings job.runtime_event_types;
      runtime_output_refs = dedupe_strings job.runtime_output_refs;
      runtime_side_effects = dedupe_strings job.runtime_side_effects;
      extension_metadata = payload.metadata;
      extension_artifact_refs = payload.refs;
      execution_lane = payload.lane;
    }

-- The checks of the event, its actor, the task's id and its request.
unfoldable pub is_recordable : TaskJob → Call → Bool
is_recordable job call =
    one_of (lower (clean_text call.event)) task_event_types
    && one_of (lower (clean_text call.event_actor)) task_event_actors
    && is_some (positive_nat (some job.id))
    && truthy (clean_text job.text)

abbrev pub made : TaskJob → Call → Option String → Option String → Option Payload → Option TaskEvent
made job call (some source) (some initiated_by) (some payload) =
    if is_recordable job call then some (new_event job call source initiated_by payload) else none
made job call _ _ _ = none

-- `record_task_event`: the event that it writes
unfoldable pub task_event : TaskJob → Call → Option TaskEvent
unfolding is_recordable new_event
task_event job call =
    made job call (normalize_task_source (or_else job.source "task"))
      (normalize_task_initiator (or_else job.initiated_by "human"))
      (join_payload (clean_text job.context_source)
        (normalize_extension_metadata (obj job.extension_metadata))
        (normalize_extension_artifact_references job.extension_artifact_refs)
        (require_extension_lane_namespace (clean_text job.context_source) job.execution_lane))
