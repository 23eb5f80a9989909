-- ===== src/Events/Examples.antt =====
-- A small log: the digest of the task 7 fails and is done at the next attempt, after the end of
-- the task 8; what follows is the start of the task 9.
use Prim.Native.String.{String}
use mathlib.Core.List.{reverse}
use enoch.Base.{ℕ, ◌≤◌, Option, none, some, List, [], ◌∷◌, length, filter_map, keep, map, ◌≡◌, refl}
use enoch.Base.Int.{pos}
use enoch.Job.{TaskJob, new_job, number}
use enoch.Events.{TaskEvent}
use enoch.Events.Record.{Call, task_event}
use enoch.Events.Load.{
  load_recent_task_outcomes, load_task_events, event_from_line, default_limit, of_task,
}
use enoch.Events.Newest.{take, load_task_events-newest}
use enoch.Events.Latest.{AllNewest, load_recent_task_outcomes-AllNewest}

abbrev call_of : String → Call
call_of event = record {
  event = event;
  event_actor = "Agent";
  trigger = "";
  result = "Done.\nFiles:\n- a.md\n- a.md\n";
  related_task_id = none;
  hex = "0a";
  now = "d5";
}

abbrev line_of : Option TaskEvent → List TaskEvent → List TaskEvent
line_of none lines = lines
line_of (some event) lines = event ∷ lines

abbrev written : ℕ → String → List TaskEvent → List TaskEvent
written id event lines =
    line_of (task_event (new_job id (number (pos 1)) "Write  the digest" "d0") (call_of event))
      lines

abbrev digest_log : List TaskEvent
digest_log =
    written 7 "failed" (written 8 "cancelled" (written 7 " Completed" (written 9 "started" [])))

outcomes_test :
    map {B = ℕ × String × List String}
      (λ e. (e.task_id, e.event, e.changed_files))
      (load_recent_task_outcomes 2 digest_log)
    ≡ (8, "cancelled", "a.md" ∷ []) ∷ (7, "completed", "a.md" ∷ []) ∷ []
unfolding load_recent_task_outcomes task_event enoch.Job.Normalize.normalize_task_source
    enoch.Base.Text.lower enoch.Base.Text.clean_text enoch.Job.Normalize.normalize_task_initiator
    enoch.Payloads.Bounds.normalize_extension_metadata enoch.Payloads.Bounds.normalize_members
    enoch.Json.Encode.encoded_fields
    enoch.Payloads.References.normalize_extension_artifact_references
    enoch.Payloads.require_extension_lane_namespace
    enoch.Payloads.require_extension_payload_namespace event_from_line
    enoch.Job.Reparse.parse_payload enoch.Payloads.References.references_from_json
    enoch.Events.Load.is_terminal enoch.ReviewUrls.dedupe_strings enoch.Base.Text.decimal
    enoch.Base.Text.join enoch.Base.Text.remove_prefix enoch.Base.Text.split
    enoch.Base.Text.split_at enoch.Base.Text.strip enoch.Base.Text.take_chars
    enoch.Events.Load.clean_event enoch.Events.Load.is_loadable load_task_events
    enoch.Events.Load.newest_events enoch.Events.Load.newest_outcomes
    enoch.Events.Record.changed_files enoch.Events.Record.clip enoch.Events.Record.event_time
    enoch.Events.Record.is_recordable enoch.Events.Record.new_event
    enoch.Job.Normalize.normalize_provenance_actor
outcomes_test = refl

load_recent_task_outcomes-AllNewest_example :
    AllNewest
      (reverse (load_task_events default_limit none digest_log))
      []
      (reverse (load_recent_task_outcomes 2 digest_log))
    × (length (load_recent_task_outcomes 2 digest_log) ≤ 2)
load_recent_task_outcomes-AllNewest_example = load_recent_task_outcomes-AllNewest 2 digest_log

load_task_events-newest_example :
    reverse (load_task_events 2 (some 7) digest_log)
    ≡ take 2 (keep (of_task (some 7)) (filter_map event_from_line (reverse digest_log)))
load_task_events-newest_example = load_task_events-newest 2 (some 7) digest_log
