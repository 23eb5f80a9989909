-- ===== src/Schedules/Spec.antt =====
-- src/enoch/extensions/schedules.py: what a declaration has to fulfil, and reading a durable
-- record back. `none` is the `ExtensionScheduleError` that the code raises, or the `None` of
-- `_parse_status`.
use enoch.Base.{
  ℕ, zero, suc, String, Bool, true, false, not, ◌&&◌, ◌||◌, Option, none, some, List, leb, eqb,
  is_some, if◌then◌else◌, ◌==◌,
}
use enoch.Base.Text.{truthy, strip, len, clean_text}
use enoch.Json.{obj}
use enoch.Occurrences.{normalize_daily_time, normalize_timezone}
use enoch.Job.Normalize.{task_requirements}
use enoch.Payloads.{normalize_extension_lane}
use enoch.Payloads.Bounds.{Metadata, normalize_extension_metadata}
use enoch.Payloads.References.{
  ArtifactReference, references_from_json, normalize_extension_artifact_references,
}
use enoch.Schedules.Types.{
  ExtensionScheduleSpec, ExtensionScheduleStatus, Cadence, interval, daily, cadence_of, ClaimKind,
  unclaimed, scheduled, run_now,
}
use enoch.Schedules.Times.{
  Env, parse_time, schedule_name, extension_name, schedule_id, run_now_history,
}

abbrev pub api_version : ℕ
api_version = 1

abbrev max_request_chars : ℕ
max_request_chars = 4096

abbrev max_context_chars : ℕ
max_context_chars = 65536

abbrev min_interval_seconds : ℕ
min_interval_seconds = 60

abbrev max_interval_seconds : ℕ
max_interval_seconds = 31622400

abbrev nonzero : ℕ → Bool
nonzero zero = false
nonzero (suc n) = true

abbrev same_bool : Bool → Bool → Bool
same_bool true b = b
same_bool false b = not b

-- The bounds that `__post_init__` checks on the request, the context, the interval and the time.
unfoldable pub within_bounds : String → String → ℕ → String → Bool
within_bounds request context interval_seconds daily_time =
    truthy request
    && leb (len request) max_request_chars
    && leb (len context) max_context_chars
    && not (same_bool (nonzero interval_seconds) (truthy daily_time))
    && (not (nonzero interval_seconds)
        || (leb min_interval_seconds interval_seconds && leb interval_seconds max_interval_seconds))

-- The end of `__post_init__`, on the parts that were normalized.
unfoldable pub assemble_spec :
    ExtensionScheduleSpec
    → Option String
    → Option String
    → Option String
    → Option (List String)
    → Option Metadata
    → Option (List ArtifactReference)
    → Option String
    → Option ExtensionScheduleSpec
unfolding within_bounds
assemble_spec raw (some name) (some daily_time) (some timezone) (some capabilities) (some metadata)
      (some refs) (some lane) =
    if eqb raw.api_version api_version
      && within_bounds (clean_text raw.request) (strip raw.context) raw.interval_seconds daily_time
    then some (record {
      name = name;
      request = clean_text raw.request;
      interval_seconds = raw.interval_seconds;
      daily_time = daily_time;
      timezone = timezone;
      context = strip raw.context;
      required_capabilities = capabilities;
      metadata = metadata;
      artifact_refs = refs;
      lane = lane;
      api_version = raw.api_version;
    })
    else none
assemble_spec raw _ _ _ _ _ _ _ = none

-- `ExtensionScheduleSpec(...)`, with its `__post_init__`
unfoldable pub new_spec : Env → ExtensionScheduleSpec → Option ExtensionScheduleSpec
unfolding assemble_spec
new_spec env raw =
    assemble_spec raw (schedule_name raw.name) (normalize_daily_time raw.daily_time)
      (normalize_timezone env.zones raw.timezone) (task_requirements raw.required_capabilities)
      (normalize_extension_metadata (obj raw.metadata))
      (normalize_extension_artifact_references raw.artifact_refs)
      (normalize_extension_lane raw.lane)

-- The arguments that `_parse_status` passes to `ExtensionScheduleSpec`.
abbrev pub spec_of :
    ExtensionScheduleStatus → String → List ArtifactReference → ExtensionScheduleSpec
spec_of raw name refs = record {
  name = name;
  request = raw.request;
  interval_seconds = raw.interval_seconds;
  daily_time = raw.daily_time;
  timezone = raw.timezone;
  context = raw.context;
  required_capabilities = raw.required_capabilities;
  metadata = raw.metadata;
  artifact_refs = refs;
  lane = raw.lane;
  api_version = raw.spec_version;
}

unfoldable pub read_spec :
    Env
    → ExtensionScheduleStatus
    → Option String
    → Option (List ArtifactReference)
    → Option ExtensionScheduleSpec
unfolding new_spec
read_spec env raw (some name) (some refs) = new_spec env (spec_of raw name refs)
read_spec env raw _ _ = none

-- `_optional_positive_int`, of what a record holds
abbrev pub optional_positive : Option ℕ → Option (Option ℕ)
optional_positive none = some none
optional_positive (some zero) = none
optional_positive (some (suc n)) = some (some (suc n))

abbrev pub same_cadence : Cadence → Cadence → Bool
same_cadence interval interval = true
same_cadence daily daily = true
same_cadence _ _ = false

-- `bool(claim_kind)`
abbrev pub kind_present : ClaimKind → Bool
kind_present unclaimed = false
kind_present scheduled = true
kind_present run_now = true

-- The record that `_parse_status` builds.
unfoldable pub clean_status :
    ExtensionScheduleStatus
    → String
    → String
    → ExtensionScheduleSpec
    → Option ℕ
    → List String
    → ExtensionScheduleStatus
clean_status raw extension name spec last_task_id history = record {
  id = schedule_id extension name;
  extension_name = extension;
  name = name;
  state = raw.state;
  request = spec.request;
  cadence = raw.cadence;
  interval_seconds = spec.interval_seconds;
  daily_time = spec.daily_time;
  timezone = spec.timezone;
  context = spec.context;
  required_capabilities = spec.required_capabilities;
  metadata = spec.metadata;
  artifact_refs = spec.artifact_refs;
  lane = spec.lane;
  spec_version = spec.api_version;
  created_at = strip raw.created_at;
  updated_at = strip raw.updated_at;
  next_run_at = strip raw.next_run_at;
  last_scheduled_at = strip raw.last_scheduled_at;
  last_run_at = strip raw.last_run_at;
  last_task_id = last_task_id;
  last_outcome = strip raw.last_outcome;
  last_error_code = strip raw.last_error_code;
  last_error = strip raw.last_error;
  last_error_at = strip raw.last_error_at;
  claim_id = strip raw.claim_id;
  claimed_at = strip raw.claimed_at;
  claim_kind = raw.claim_kind;
  claim_scheduled_for = strip raw.claim_scheduled_for;
  run_now_id = strip raw.run_now_id;
  run_now_key = strip raw.run_now_key;
  run_now_history = history;
  paused_at = strip raw.paused_at;
  disabled_at = strip raw.disabled_at;
}

-- The checks at the end of `_parse_status`.
unfoldable pub consistent : Env → ExtensionScheduleStatus → Bool
consistent env status =
    is_some (parse_time env status.created_at)
    && is_some (parse_time env status.next_run_at)
    && same_bool (truthy status.claim_id) (kind_present status.claim_kind)
    && (not (truthy status.claim_id)
        || (is_some (parse_time env status.claimed_at)
            && is_some (parse_time env status.claim_scheduled_for)))

unfoldable pub finish_status :
    Env
    → ExtensionScheduleStatus
    → Option String
    → Option String
    → Option ExtensionScheduleSpec
    → Option (Option ℕ)
    → Option (List String)
    → Option ExtensionScheduleStatus
unfolding clean_status consistent
finish_status env raw (some extension) (some name) (some spec) (some last_task_id) (some history) =
    let status = clean_status raw extension name spec last_task_id history in
    if raw.id == status.id
      && same_cadence raw.cadence (cadence_of spec.interval_seconds)
      && consistent env status
    then some status
    else none
finish_status env raw _ _ _ _ _ = none

-- `_parse_status(_status_to_dict(raw))`
unfoldable pub reparse_status : Env → ExtensionScheduleStatus → Option ExtensionScheduleStatus
unfolding read_spec finish_status
reparse_status env raw =
    finish_status env raw (extension_name raw.extension_name) (schedule_name raw.name)
      (read_spec env raw (schedule_name raw.name) (references_from_json raw.artifact_refs))
      (optional_positive raw.last_task_id) (run_now_history raw.run_now_history)
