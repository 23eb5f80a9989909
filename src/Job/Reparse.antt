-- ===== src/Job/Reparse.antt =====
-- src/enoch/tasks/queue.py: `_parse_job` of a dictionary that `_job_to_dict` made. The queue keeps
-- such dictionaries only, so a stored task is represented by the job that its dictionary was made
-- from, and `reparse` is what reading it back gives where `urlsplit` returns on each of its
-- `review_urls`; `none` is the `None` of `_parse_job`. Where `urlsplit` raises, `parse_job` of
-- Queue/Store does.
use enoch.Base.{
  String, Bool, true, not, ◌&&◌, ◌||◌, Option, none, some, List, [], ◌∷◌, max, ltb, if◌then◌else◌,
}
use enoch.Base.Text.{truthy, strip, lower, one_of, or_else}
use enoch.Json.{obj}
use enoch.Payloads.{require_extension_payload_namespace, require_extension_lane_namespace}
use enoch.Payloads.Bounds.{Metadata, normalize_extension_metadata}
use enoch.Payloads.References.{ArtifactReference, references_from_json}
use enoch.ReviewUrls.{merge_review_urls, web_review_urls, review_urls_in, dedupe_strings}
use enoch.Job.{ConversationId, TaskJob}
use enoch.Job.Normalize.{
  normalize_conversation_id, normalize_message_id, normalize_task_source, normalize_task_initiator,
  normalize_provenance_actor, legacy_signal_actor, legacy_approval_actor, task_requirements,
  positive_nat,
}

-- What the `try` block that returns `None` on a `ValueError` computes.
pub record Payload : Type 0 where
  pub metadata : Metadata
  pub refs : List ArtifactReference
  pub lane : String

abbrev pub join_payload :
    String → Option Metadata → Option (List ArtifactReference) → Option String → Option Payload
join_payload source (some m) (some rs) (some lane) =
    if require_extension_payload_namespace source m rs
    then some (record { metadata = m; refs = rs; lane = lane })
    else none
join_payload source _ _ _ = none

unfoldable pub parse_payload : String → Metadata → List ArtifactReference → String → Option Payload
parse_payload context_source metadata refs lane =
    join_payload context_source (normalize_extension_metadata (obj metadata))
      (references_from_json refs) (require_extension_lane_namespace context_source lane)

-- `source` and `initiated_by`: both defaults if either is refused
abbrev parse_origin : Option String → Option String → String × String
parse_origin (some source) (some initiated_by) = (source, initiated_by)
parse_origin _ _ = ("task", "human")

abbrev or_empty : Option (List String) → List String
or_empty none = []
or_empty (some xs) = xs

abbrev pub one_url : String → List String
one_url url = if truthy url then url ∷ [] else []

abbrev pub terminal_statuses : List String
terminal_statuses = "completed" ∷ "failed" ∷ "cancelled" ∷ []

-- The normalized job, field by field.
unfoldable pub clean_job : TaskJob → ConversationId → Payload → TaskJob
clean_job raw chat_id payload =
    let result = strip raw.result in
    let (source, initiated_by) =
      parse_origin (normalize_task_source (or_else raw.source "task"))
        (normalize_task_initiator (or_else raw.initiated_by "human")) in
    let trigger = strip raw.trigger in
    let context_source = strip raw.context_source in
    let candidate_id = strip raw.candidate_id in
    let evidence_source = lower (strip raw.evidence_source) in
    let evidence_source' =
      if truthy candidate_id then or_else evidence_source source else evidence_source in
    let signal_actor = normalize_provenance_actor raw.signal_actor in
    let candidate_actor = normalize_provenance_actor raw.candidate_actor in
    let approval_actor = normalize_provenance_actor raw.approval_actor in
    let review_url = strip raw.review_url in
    record {
      id = raw.id;
      chat_id = chat_id;
      text = strip raw.text;
      created_at = strip raw.created_at;
      thread_id = normalize_message_id raw.thread_id;
      started_at = strip raw.started_at;
      completed_at = strip raw.completed_at;
      status = or_else (strip raw.status) "pending";
      status_message_id = normalize_message_id raw.status_message_id;
      result = result;
      review_urls = merge_review_urls (
          merge_review_urls (web_review_urls raw.review_urls ∷ review_urls_in result ∷ [])
          ∷ one_url review_url
          ∷ []);
      context = strip raw.context;
      context_source = context_source;
      source = source;
      initiated_by = initiated_by;
      trigger = trigger;
      candidate_id = candidate_id;
      parent_task_id = positive_nat raw.parent_task_id;
      evidence_source = evidence_source';
      signal_actor =
          if truthy candidate_id
          then or_else signal_actor (legacy_signal_actor evidence_source')
          else signal_actor;
      candidate_actor =
          if truthy candidate_id then or_else candidate_actor "agent" else candidate_actor;
      approval_actor =
          if truthy candidate_id
          then or_else approval_actor (legacy_approval_actor trigger context_source initiated_by)
          else approval_actor;
      parent_candidate_id = strip raw.parent_candidate_id;
      source_task_id = positive_nat raw.source_task_id;
      worker_id = strip raw.worker_id;
      worker_pid = positive_nat raw.worker_pid;
      worker_heartbeat_at = strip raw.worker_heartbeat_at;
      worker_lease_id = strip raw.worker_lease_id;
      workspace_path = strip raw.workspace_path;
      workspace_id = strip raw.workspace_id;
      attempt = raw.attempt;
      max_attempts = max 1 raw.max_attempts;
      timeout_seconds = positive_nat raw.timeout_seconds;
      required_capabilities =
          or_empty (task_requirements (dedupe_strings raw.required_capabilities));
      extension_metadata = payload.metadata;
      extension_artifact_refs = payload.refs;
      execution_lane = payload.lane;
      next_attempt_at = strip raw.next_attempt_at;
      failure_code = strip raw.failure_code;
      failure_class = strip raw.failure_class;
      retryable = raw.retryable;
      runtime_provider = lower (strip raw.runtime_provider);
      runtime_session_id = strip raw.runtime_session_id;
      runtime_completion_reason = lower (strip raw.runtime_completion_reason);
      runtime_usage = raw.runtime_usage;
      runtime_event_types = dedupe_strings raw.runtime_event_types;
      runtime_output_refs = dedupe_strings raw.runtime_output_refs;
      runtime_side_effects = dedupe_strings raw.runtime_side_effects;
      idempotency_key = strip raw.idempotency_key;
      publish_stage = strip raw.publish_stage;
      revision_id = strip raw.revision_id;
      review_id = strip raw.review_id;
      review_url = review_url;
      review_published = raw.review_published;
      terminal_status = lower (strip raw.terminal_status);
      terminal_evidence_source = lower (strip raw.terminal_evidence_source);
      terminal_evidence_at = strip raw.terminal_evidence_at;
    }

-- `true` if the status that is recorded as evidence is absent or terminal.
abbrev pub terminal_ok : String → Bool
terminal_ok status = not (truthy status) || one_of status terminal_statuses

abbrev pub finish_parse : TaskJob → Option Payload → Option ConversationId → Bool → Option TaskJob
finish_parse raw (some payload) (some chat_id) true = some (clean_job raw chat_id payload)
finish_parse raw _ _ _ = none

-- `_parse_job(_job_to_dict(raw))`, where `urlsplit` returns
unfoldable pub reparse : TaskJob → Option TaskJob
reparse raw =
    finish_parse raw
      (parse_payload (strip raw.context_source) raw.extension_metadata raw.extension_artifact_refs
        raw.execution_lane)
      (normalize_conversation_id raw.chat_id)
      (terminal_ok (lower (strip raw.terminal_status)) && ltb 0 raw.id && truthy (strip raw.text))
