-- ===== src/Schedules/Examples/Fixtures.antt =====
-- A clock that counts the seconds with digits, a declaration, and the records that it leads to.
use Prim.Native.String.{String, ◌++◌}
use Prim.Native.String.append
use enoch.Base.{
  ℕ, zero, suc, ◌+◌, ◌-◌, ◌*◌, ◌/◌, true, none, some, [], ◌∷◌, ◌≡◌, refl, ap, ◌∙◌, arith,
}
use enoch.Base.Text.{truthy, strip, len, all_chars, is_hex, lower, clean_text}
use enoch.Base.Text.Laws.{strip-append, rstrip-hex}
use enoch.Json.{end}
use enoch.Json.Encode.{encoded_fields}
use enoch.Job.Normalize.{task_requirements}
use enoch.Queue.Clock.{Clock}
use enoch.Occurrences.{whole_seconds, normalize_daily_time, normalize_timezone}
use enoch.Occurrences.Daily.{ahead_by}
use enoch.Payloads.{normalize_extension_lane}
use enoch.Payloads.Names.{key_name, lane_name}
use enoch.Payloads.Bounds.{normalize_extension_metadata, normalize_members}
use enoch.Payloads.References.{references_from_json, normalize_extension_artifact_references}
use enoch.Schedules.Types.{
  ExtensionScheduleSpec, ExtensionScheduleStatus, active, interval, run_now, World,
}
use enoch.Schedules.Times.{
  Env, schedule_name, extension_name, schedule_id, run_now_history, distinct_texts, parse_time,
}
use enoch.Schedules.Spec.{new_spec, consistent}
use enoch.Schedules.Normal.{IsNormal, clean_texts}
use enoch.Schedules.Normal.Dates.{utc, IsIsoClock, IsHex}
use enoch.Schedules.Normal.Declared.{IsSpec}
use enoch.Schedules.Normal.Lists.{nil, cons}
use enoch.Schedules.Normal.Files.{FileIsReadable}

abbrev pub tally : ℕ → String
tally zero = "0"
tally (suc n) = String.◌∷◌ "1" (tally n)

abbrev pub tally_clock : Clock
tally_clock = record {
  fromisoformat = λ s. some (utc ((len s - 2) * 1000000));
  isoformat = λ d. "d" ++ tally (d.wall / 1000000);
  now = 0;
}

tally_digits : (n : ℕ) → all_chars is_hex (tally n) ≡ true
tally_digits zero = refl
tally_digits (suc n) = tally_digits n

tally_full : (n : ℕ) → truthy (tally n) ≡ true
tally_full zero = refl
tally_full (suc n) = refl

len-tally : (n : ℕ) → len (tally n) ≡ n + 1
len-tally zero = refl
len-tally (suc n) = omega (arith, len-tally n)

len-date : (n : ℕ) → len ("d" ++ tally n) ≡ n + 2
len-date n =
    ap len (append.cons "d" "" (tally n))
    ∙ omega (arith, ap len (append.nil (tally n)) ∙ len-tally n)

pub tally_clock-IsIsoClock : IsIsoClock tally_clock
tally_clock-IsIsoClock = record {
  stripped = λ t.
      (strip-append "d" "" (tally (whole_seconds t / 1000000)) refl
        (rstrip-hex _ (tally_digits (whole_seconds t / 1000000)))
        (tally_full (whole_seconds t / 1000000))).0;
  full = λ t.
      (strip-append "d" "" (tally (whole_seconds t / 1000000)) refl
        (rstrip-hex _ (tally_digits (whole_seconds t / 1000000)))
        (tally_full (whole_seconds t / 1000000))).1;
  parses = λ t.
      ap (λ (n : ℕ). some (utc ((n - 2) * 1000000))) (len-date (whole_seconds t / 1000000))
      ∙ ap (λ (n : ℕ). some (utc n)) (omega arith);
}

abbrev pub env : Env
env = record { clock = tally_clock; zones = λ name. some (ahead_by 0) }

abbrev pub hourly : ExtensionScheduleSpec
hourly = record {
  name = "digest";
  request = "Write the digest";
  interval_seconds = 60;
  daily_time = "";
  timezone = "UTC";
  context = "";
  required_capabilities = [];
  metadata = end;
  artifact_refs = [];
  lane = "";
  api_version = 1;
}

pub hourly-IsSpec : IsSpec env hourly
unfolding new_spec schedule_name key_name lower strip normalize_daily_time normalize_timezone
    task_requirements normalize_extension_metadata normalize_members encoded_fields
    normalize_extension_artifact_references normalize_extension_lane clean_text references_from_json
hourly-IsSpec = record { built = refl; references = refl }

abbrev pub hex : String
hex = "00000000000000000000000000000000"

pub hex-IsHex : IsHex hex
hex-IsHex = record { digits = refl; long = refl }

-- A schedule with a run that was claimed.
abbrev pub taken : ExtensionScheduleStatus
taken = record {
  id = "extension:news:digest";
  extension_name = "news";
  name = "digest";
  state = active;
  request = "Write the digest";
  cadence = interval;
  interval_seconds = 60;
  daily_time = "";
  timezone = "UTC";
  context = "";
  required_capabilities = [];
  metadata = end;
  artifact_refs = [];
  lane = "";
  spec_version = 1;
  created_at = "d0";
  updated_at = "d0";
  next_run_at = "d1110";
  last_scheduled_at = "";
  last_run_at = "";
  last_task_id = none;
  last_outcome = "";
  last_error_code = "";
  last_error = "";
  last_error_at = "";
  claim_id = "c1";
  claimed_at = "d0";
  claim_kind = run_now;
  claim_scheduled_for = "d0";
  run_now_id = "run-now-1";
  run_now_key = "";
  run_now_history = [];
  paused_at = "";
  disabled_at = "";
}

pub taken-IsNormal : IsNormal env taken
unfolding strip extension_name lane_name lower schedule_name key_name schedule_id
    references_from_json clean_texts run_now_history consistent parse_time
taken-IsNormal = record {
  declared = record {
    extension = refl;
    name = refl;
    id = refl;
    spec = hourly-IsSpec.built;
    references = refl;
    cadence = refl;
  };
  texts = refl;
  task = refl;
  history = refl;
  consistent = refl;
}

abbrev pub one_taken : World
one_taken = record { file = some (taken ∷ []); events = [] }

pub one_taken-FileIsReadable : FileIsReadable env one_taken.file
unfolding distinct_texts
one_taken-FileIsReadable = record { normal = cons taken-IsNormal nil; distinct = refl }
