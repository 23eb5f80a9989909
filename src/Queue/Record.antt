-- ===== src/Queue/Record.antt =====
-- src/enoch/tasks/queue.py: what is noted on a task while it waits or runs.
use enoch.Base.{
  ℕ, String, Bool, true, false, not, ◌&&◌, ◌||◌, Option, none, some, List, [], ◌∷◌, eqb, any, map,
  ◌==◌, if◌then◌else◌,
}
use enoch.Base.Text.{truthy, strip, lower, one_of, or_else}
use enoch.ReviewUrls.{merge_review_urls, dedupe_strings}
use enoch.Job.{TaskJob, ConversationId, Usage}
use enoch.Queue.Types.{
  on_option, QueueData, err, value_error, Outcome, raise, leave, commit, Operation,
}
use enoch.Queue.Store.{parsed_jobs, running_job, transaction}
use enoch.Queue.Worker.{held_by, write_running}
use enoch.Queue.Finish.{with_result_urls}

abbrev has_id : ℕ → TaskJob → Bool
has_id task_id job = eqb job.id task_id

-- The loop that updates every task of a list with this id.
abbrev pub update_with_id : ℕ → (TaskJob → TaskJob) → TaskJob → TaskJob
update_with_id task_id change job = if has_id task_id job then change job else job

abbrev pub map_option : (TaskJob → TaskJob) → Option TaskJob → Option TaskJob
map_option f none = none
map_option f (some job) = some (f job)

abbrev pub any_option : (TaskJob → Bool) → Option TaskJob → Bool
any_option p none = false
any_option p (some job) = p job

-- Update the pending tasks, and the paused ones on request, and the running one; write if any has
-- the id.
unfoldable pub update_body : Bool → ℕ → (TaskJob → TaskJob) → QueueData → Outcome (Unit {0})
update_body with_paused task_id change d =
    let pending = parsed_jobs d.pending in
    let paused = parsed_jobs d.paused in
    let running = running_job d in
    let updated = map_option (update_with_id task_id change) running in
    if any (has_id task_id) pending
      || (with_paused && any (has_id task_id) paused)
      || any_option (has_id task_id) running
    then commit
        (record d {
          pending = map (update_with_id task_id change) pending;
          paused = if with_paused then map (update_with_id task_id change) paused else d.paused;
          running = updated;
        })
        [] tt
    else leave tt

unfoldable pub messaged_job : ConversationId → TaskJob → TaskJob
messaged_job message_id job = record job { status_message_id = some message_id }

unfoldable pub record_task_status_message : ℕ → ConversationId → Operation (Unit {0})
unfolding update_body messaged_job
record_task_status_message task_id message_id =
    transaction (update_body true task_id (messaged_job message_id))

unfoldable pub reported_job : String → TaskJob → TaskJob
reported_job result job = record job { result = result; review_urls = with_result_urls job result }

unfoldable pub record_task_result : ℕ → String → Operation (Unit {0})
unfolding update_body reported_job
record_task_result task_id result = transaction (update_body false task_id (reported_job result))

-- What a runtime reports of a run: its events by type, outputs and side effects as the texts that
-- are stored.
pub record RuntimeResult : Type 0 where
  pub session_id : String
  pub completion_reason : String
  pub usage : Usage
  pub event_types : List String
  pub output_refs : List String
  pub side_effects : List String

unfoldable pub run_job : RuntimeResult → String → TaskJob → TaskJob
run_job r provider job = record job {
  runtime_provider = lower (strip provider);
  runtime_session_id = r.session_id;
  runtime_completion_reason = r.completion_reason;
  runtime_usage = some r.usage;
  runtime_event_types = dedupe_strings r.event_types;
  runtime_output_refs = dedupe_strings r.output_refs;
  runtime_side_effects = dedupe_strings r.side_effects;
}

unfoldable pub record_task_runtime_result : ℕ → RuntimeResult → String → Operation (Unit {0})
unfolding update_body run_job
record_task_runtime_result task_id r provider =
    transaction (update_body false task_id (run_job r provider))

pub record TaskPublicationState : Type 0 where
  pub stage : String
  pub revision_id : String
  pub workspace_id : String
  pub review_id : String
  pub review_url : String
  pub review_published : Option Bool

abbrev pub publish_stages : List String
publish_stages =
    "validated" ∷ "committed" ∷ "pushed" ∷ "pr_opened" ∷ "captured" ∷ "review_published" ∷ []

abbrev get_or_bool : Option Bool → Bool → Bool
get_or_bool none b = b
get_or_bool (some a) b = a

abbrev one_if : String → List String
one_if s = if truthy s then s ∷ [] else []

unfoldable pub published_job : TaskJob → TaskPublicationState → TaskJob
published_job running state = record running {
  publish_stage = state.stage;
  revision_id = or_else (strip state.revision_id) running.revision_id;
  workspace_id = or_else (strip state.workspace_id) running.workspace_id;
  review_id = or_else (strip state.review_id) running.review_id;
  review_url = or_else (strip state.review_url) running.review_url;
  review_published = get_or_bool state.review_published running.review_published;
  review_urls = merge_review_urls (running.review_urls ∷ one_if (strip state.review_url) ∷ []);
}

unfoldable pub publication_body :
    ℕ → String → TaskPublicationState → QueueData → Outcome (Option TaskJob)
unfolding published_job held_by
publication_body task_id worker_id state d =
    on_option (if truthy worker_id then held_by d task_id worker_id else none) (leave none)
      (λ running. write_running d (published_job running state))

unfoldable pub record_task_publication :
    ℕ → String → TaskPublicationState → Operation (Option TaskJob)
record_task_publication task_id worker_id state w =
    if one_of state.stage publish_stages
    then transaction (publication_body task_id worker_id state) w
    else (err (value_error "Unknown publish stage"), w)

unfoldable pub record_task_publish_state :
    ℕ → String → String → String → String → String → Option Bool → Operation (Option TaskJob)
unfolding record_task_publication
record_task_publish_state task_id worker_id stage commit_sha remote_branch pr_url published =
    record_task_publication task_id worker_id (record {
      stage = stage;
      revision_id = commit_sha;
      workspace_id = remote_branch;
      review_id = "";
      review_url = pr_url;
      review_published = published;
    })

-- `TaskTerminalEvidence`, whose texts its constructor has stripped.
pub record TaskTerminalEvidence : Type 0 where
  pub status : String
  pub result : String
  pub source : String
  pub failure_code : String
  pub failure_class : String
  pub retryable : Bool

-- `TaskTerminalEvidence.__post_init__`; `none` is its `ValueError`
unfoldable pub terminal_evidence : TaskTerminalEvidence → Option TaskTerminalEvidence
terminal_evidence raw =
    let source = lower (strip raw.source) in
    if one_of raw.status ("completed" ∷ "failed" ∷ "cancelled" ∷ []) && truthy source
    then some (record raw {
      source = source;
      result = strip raw.result;
      failure_code = strip raw.failure_code;
      failure_class = strip raw.failure_class;
    })
    else none

abbrev same_bool : Bool → Bool → Bool
same_bool true b = b
same_bool false b = not b

-- The running task has this evidence already.
unfoldable pub same_evidence : TaskJob → TaskTerminalEvidence → Bool
same_evidence running e =
    running.terminal_status == e.status
    && running.terminal_evidence_source == e.source
    && running.result == e.result
    && running.failure_code == e.failure_code
    && running.failure_class == e.failure_class
    && same_bool running.retryable e.retryable

unfoldable pub with_evidence : TaskJob → TaskTerminalEvidence → String → TaskJob
with_evidence running e now = record running {
  result = e.result;
  review_urls = with_result_urls running e.result;
  failure_code = e.failure_code;
  failure_class = e.failure_class;
  retryable = e.retryable;
  terminal_status = e.status;
  terminal_evidence_source = e.source;
  terminal_evidence_at = now;
}

unfoldable pub evidence_body :
    ℕ → String → TaskTerminalEvidence → String → QueueData → Outcome (Option TaskJob)
unfolding held_by same_evidence with_evidence
evidence_body task_id worker_id e now d =
    on_option (held_by d task_id worker_id) (leave none) (λ running.
      if truthy running.terminal_status
      then (if same_evidence running e
          then leave (some running)
          else raise (value_error "Task already has conflicting terminal evidence."))
      else write_running d (with_evidence running e now))

unfoldable pub record_task_terminal_evidence :
    ℕ → String → TaskTerminalEvidence → String → Operation (Option TaskJob)
record_task_terminal_evidence task_id worker_id e now w =
    let cleaned = strip worker_id in
    if truthy cleaned
    then transaction (evidence_body task_id cleaned e now) w
    else (err (value_error "A worker id is required."), w)
