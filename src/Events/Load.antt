-- ===== src/Events/Load.antt =====
-- src/enoch/tasks/events.py: reading the log. `none` is the `None` of `_event_from_line`, of a
-- line that `record_task_event` wrote.
use Prim.Native.String.{String, ◌++◌}
use mathlib.Core.List.{reverse}
use enoch.Base.{
  ℕ, zero, suc, Bool, true, not, ◌&&◌, ◌||◌, Option, none, some, List, [], ◌∷◌, max, eqb, any,
  is_some, if◌then◌else◌,
}
use enoch.Base.Text.{truthy, or_else, one_of, strip, lower, clean_text, decimal}
use enoch.Job.Normalize.{
  normalize_task_source, normalize_task_initiator, normalize_provenance_actor, legacy_signal_actor,
  legacy_approval_actor, positive_nat,
}
use enoch.Job.Reparse.{Payload, parse_payload}
use enoch.ReviewUrls.{dedupe_strings}
use enoch.Events.{TaskEvent, task_event_types, task_event_actors, terminal_events}

-- The provenance of an event with a candidate, older events included.
abbrev if_candidate : String → String → String
if_candidate candidate_id text = if truthy candidate_id then text else ""

-- The event that `_event_from_line` builds.
unfoldable pub clean_event : TaskEvent → String → String → Payload → TaskEvent
clean_event raw source initiated_by payload =
    let event = lower (clean_text raw.event) in
    let trigger = clean_text raw.trigger in
    let context_source = clean_text raw.context_source in
    let candidate_id = clean_text raw.candidate_id in
    let evidence_source =
      if_candidate candidate_id (lower (clean_text (or_else raw.evidence_source source))) in
    record {
      id = or_else (clean_text raw.id) ("legacy-event-" ++ (decimal raw.task_id ++ ("-" ++ event)));
      task_id = raw.task_id;
      occurred_at = raw.occurred_at;
      event = event;
      source = source;
      initiated_by = initiated_by;
      event_actor = lower (clean_text raw.event_actor);
      trigger = trigger;
      request = clean_text raw.request;
      result_summary = strip raw.result_summary;
      context_source = context_source;
      candidate_id = candidate_id;
      parent_task_id = positive_nat raw.parent_task_id;
      evidence_source = evidence_source;
      signal_actor =
          or_else (normalize_provenance_actor raw.signal_actor)
            (if_candidate candidate_id (legacy_signal_actor evidence_source));
      candidate_actor =
          or_else (normalize_provenance_actor raw.candidate_actor)
            (if_candidate candidate_id "agent");
      approval_actor =
          or_else (normalize_provenance_actor raw.approval_actor)
            (if_candidate candidate_id (legacy_approval_actor trigger context_source initiated_by));
      parent_candidate_id = clean_text raw.parent_candidate_id;
      source_task_id = positive_nat raw.source_task_id;
      related_task_id = positive_nat raw.related_task_id;
      workspace_id = clean_text raw.workspace_id;
      review_id = clean_text raw.review_id;
      review_urls = dedupe_strings raw.review_urls;
      changed_files = dedupe_strings raw.changed_files;
      publish_stage = lower (clean_text raw.publish_stage);
      revision_id = clean_text raw.revision_id;
      attempt = raw.attempt;
      max_attempts = max 1 raw.max_attempts;
      next_attempt_at = strip raw.next_attempt_at;
      failure_code = lower (clean_text raw.failure_code);
      failure_class = lower (clean_text raw.failure_class);
      retryable = raw.retryable;
      runtime_provider = lower (clean_text raw.runtime_provider);
      runtime_session_id = clean_text raw.runtime_session_id;
      runtime_completion_reason = lower (clean_text raw.runtime_completion_reason);
      runtime_usage = raw.runtime_usage;
      runtime_event_types = dedupe_strings raw.runtime_event_types;
      runtime_output_refs = dedupe_strings raw.runtime_output_refs;
      runtime_side_effects = dedupe_strings raw.runtime_side_effects;
      extension_metadata = payload.metadata;
      extension_artifact_refs = payload.refs;
      execution_lane = payload.lane;
    }

-- The checks of the id, the event, its actor and the request.
unfoldable pub is_loadable : TaskEvent → Bool
is_loadable raw =
    is_some (positive_nat (some raw.task_id))
    && one_of (lower (clean_text raw.event)) task_event_types
    && one_of (lower (clean_text raw.event_actor)) task_event_actors
    && truthy (clean_text raw.request)

abbrev pub parsed : TaskEvent → Option String → Option String → Option Payload → Option TaskEvent
parsed raw (some source) (some initiated_by) (some payload) =
    if is_loadable raw then some (clean_event raw source initiated_by payload) else none
parsed raw _ _ _ = none

-- `_event_from_line`, of the line of an event
unfoldable pub event_from_line : TaskEvent → Option TaskEvent
unfolding is_loadable clean_event
event_from_line raw =
    parsed raw (normalize_task_source raw.source) (normalize_task_initiator raw.initiated_by) (
      parse_payload (clean_text raw.context_source) raw.extension_metadata
        raw.extension_artifact_refs raw.execution_lane)

abbrev pub of_task : Option ℕ → TaskEvent → Bool
of_task none event = true
of_task (some task_id) event = eqb event.task_id task_id

-- An event is taken with what the limit then leaves, a line without one is passed over.
abbrev pub add_event :
    Option ℕ → Option TaskEvent → List TaskEvent → List TaskEvent → List TaskEvent
add_event task_id none others rest = rest
add_event task_id (some event) others rest = if of_task task_id event then event ∷ others else rest

-- The loop of `load_task_events`, over the lines from the newest on, with what the limit leaves.
unfoldable pub newest_events : ℕ → Option ℕ → List TaskEvent → List TaskEvent
newest_events zero task_id lines = []
newest_events (suc limit) task_id [] = []
newest_events (suc limit) task_id (line ∷ lines) =
    let rest = newest_events (suc limit) task_id lines in
    let others = newest_events limit task_id lines in
    add_event task_id (event_from_line line) others rest

-- `load_task_events`
unfoldable pub load_task_events : ℕ → Option ℕ → List TaskEvent → List TaskEvent
unfolding newest_events
load_task_events limit task_id log = reverse (newest_events limit task_id (reverse log))

abbrev pub default_limit : ℕ
default_limit = 5000

unfoldable pub is_terminal : TaskEvent → Bool
is_terminal event = one_of event.event terminal_events

-- `event.task_id in seen`
abbrev pub is_seen : List ℕ → ℕ → Bool
is_seen seen task_id = any (λ n. eqb n task_id) seen

-- The loop of `load_recent_task_outcomes`, over the events from the newest on.
unfoldable pub newest_outcomes : ℕ → List ℕ → List TaskEvent → List TaskEvent
newest_outcomes zero seen events = []
newest_outcomes (suc limit) seen [] = []
newest_outcomes (suc limit) seen (event ∷ events) =
    let rest = newest_outcomes (suc limit) seen events in
    let others = newest_outcomes limit (event.task_id ∷ seen) events in
    if is_seen seen event.task_id || not (is_terminal event) then rest else event ∷ others

-- `load_recent_task_outcomes`
unfoldable pub load_recent_task_outcomes : ℕ → List TaskEvent → List TaskEvent
unfolding newest_outcomes load_task_events
load_recent_task_outcomes limit log =
    reverse (newest_outcomes limit [] (reverse (load_task_events default_limit none log)))
