-- ===== src/Schedules/Declare.antt =====
-- src/enoch/extensions/schedules.py: one declaration and the durable record that it has, or gets.
use Prim.Native.String.{String}
use enoch.Base.{
  ℕ, Bool, true, false, not, ◌&&◌, ◌||◌, Option, none, some, List, [], ◌∷◌, eqb, is_some,
  if◌then◌else◌, ◌==◌,
}
use enoch.Base.Text.{truthy}
use enoch.Json.Equality.{same_fields}
use enoch.Payloads.References.{ArtifactReference}
use enoch.Schedules.Types.{
  active, disabled, cadence_of, ClaimKind, unclaimed, scheduled, ExtensionScheduleSpec,
  ExtensionScheduleStatus,
}
use enoch.Schedules.Times.{Env, iso, text_of, parse_time, schedule_id, first_run}
use enoch.Schedules.Spec.{same_cadence}
use enoch.Schedules.Store.{same_state}

abbrev same_texts : List String → List String → Bool
same_texts [] [] = true
same_texts (x ∷ xs) (y ∷ ys) = x == y && same_texts xs ys
same_texts _ _ = false

abbrev same_references : List ArtifactReference → List ArtifactReference → Bool
same_references [] [] = true
same_references (x ∷ xs) (y ∷ ys) =
    x.kind == y.kind && x.path == y.path && x.media_type == y.media_type && same_references xs ys
same_references _ _ = false

-- `_matches_spec`
unfoldable pub matches_spec : ExtensionScheduleStatus → ExtensionScheduleSpec → Bool
matches_spec status spec =
    eqb status.spec_version spec.api_version
    && status.request == spec.request
    && same_cadence status.cadence (cadence_of spec.interval_seconds)
    && eqb status.interval_seconds spec.interval_seconds
    && status.daily_time == spec.daily_time
    && status.timezone == spec.timezone
    && status.context == spec.context
    && same_texts status.required_capabilities spec.required_capabilities
    && same_fields status.metadata spec.metadata
    && same_references status.artifact_refs spec.artifact_refs
    && status.lane == spec.lane

-- `_new_status`, with the target that `_first_run` gave
unfoldable pub new_status :
    String → ExtensionScheduleSpec → String → String → ExtensionScheduleStatus
new_status extension spec now next = record {
  id = schedule_id extension spec.name;
  extension_name = extension;
  name = spec.name;
  state = active;
  request = spec.request;
  cadence = cadence_of spec.interval_seconds;
  interval_seconds = spec.interval_seconds;
  daily_time = spec.daily_time;
  timezone = spec.timezone;
  context = spec.context;
  required_capabilities = spec.required_capabilities;
  metadata = spec.metadata;
  artifact_refs = spec.artifact_refs;
  lane = spec.lane;
  spec_version = 1;
  created_at = now;
  updated_at = now;
  next_run_at = next;
  last_scheduled_at = "";
  last_run_at = "";
  last_task_id = none;
  last_outcome = "";
  last_error_code = "";
  last_error = "";
  last_error_at = "";
  claim_id = "";
  claimed_at = "";
  claim_kind = unclaimed;
  claim_scheduled_for = "";
  run_now_id = "";
  run_now_key = "";
  run_now_history = [];
  paused_at = "";
  disabled_at = "";
}

abbrev is_scheduled : ClaimKind → Bool
is_scheduled scheduled = true
is_scheduled _ = false

-- `cadence_changed` of `_reconcile_status`
unfoldable pub cadence_changed : ExtensionScheduleStatus → ExtensionScheduleSpec → Bool
cadence_changed prior spec =
    not (same_cadence prior.cadence (cadence_of spec.interval_seconds))
    || not (eqb prior.interval_seconds spec.interval_seconds)
    || not (prior.daily_time == spec.daily_time)
    || not (prior.timezone == spec.timezone)

-- Whether `_reconcile_status` calculates a new target.
unfoldable pub needs_target : Env → ExtensionScheduleStatus → ExtensionScheduleSpec → Bool
unfolding cadence_changed
needs_target env prior spec =
    (same_state prior.state disabled && not (is_scheduled prior.claim_kind))
    || (cadence_changed prior spec && not (is_scheduled prior.claim_kind))
    || not (is_some (parse_time env prior.next_run_at))

-- The record that `_reconcile_status` builds.
unfoldable pub declared_status :
    ExtensionScheduleStatus → ExtensionScheduleSpec → String → String → ExtensionScheduleStatus
declared_status prior spec now next = record prior {
  state = if same_state prior.state disabled then active else prior.state;
  request = spec.request;
  cadence = cadence_of spec.interval_seconds;
  interval_seconds = spec.interval_seconds;
  daily_time = spec.daily_time;
  timezone = spec.timezone;
  context = spec.context;
  required_capabilities = spec.required_capabilities;
  metadata = spec.metadata;
  artifact_refs = spec.artifact_refs;
  lane = spec.lane;
  spec_version = spec.api_version;
  updated_at = now;
  next_run_at = next;
  disabled_at = "";
  paused_at = if same_state prior.state disabled then "" else prior.paused_at;
  run_now_id = if truthy prior.claim_id then prior.run_now_id else "";
  run_now_key = if truthy prior.claim_id then prior.run_now_key else "";
}

-- The target of the record; `none` where `_first_run` raises
unfoldable pub declared_target :
    Env → ExtensionScheduleStatus → ExtensionScheduleSpec → ℕ → Option String
unfolding needs_target
declared_target env prior spec current =
    if needs_target env prior spec
    then text_of env (first_run env spec current)
    else some prior.next_run_at

-- A record with what `_reconcile_status` says of it; the empty text for no change.
pub record Folded : Type 0 where
  pub item : ExtensionScheduleStatus
  pub outcome : String

abbrev pub folded_with :
    ExtensionScheduleStatus → ExtensionScheduleSpec → String → Option String → Option Folded
folded_with prior spec now none = none
folded_with prior spec now (some next) = some (record {
  item = declared_status prior spec now next;
  outcome = if same_state prior.state disabled then "reenabled" else "updated";
})

-- `_reconcile_status`; `none` where `_first_run` raises
unfoldable pub reconcile_status :
    Env → ExtensionScheduleStatus → ExtensionScheduleSpec → ℕ → Option Folded
unfolding declared_status declared_target
reconcile_status env prior spec current =
    if matches_spec prior spec && not (same_state prior.state disabled)
    then some (record { item = prior; outcome = "" })
    else folded_with prior spec (iso env current) (declared_target env prior spec current)
