-- ===== src/Payloads.antt =====
-- src/enoch/tasks/payloads.py: what an extension may attach to a task. `none` is the `ValueError`
-- that the code raises.
mod Examples
pub mod Bounds
pub mod References
pub mod Names
pub mod Stable
pub mod Limits
use enoch.Base.{
  ℕ, suc, String, Bool, true, false, not, ◌&&◌, ◌||◌, Option, none, some, List, [], ◌∷◌, leb, ltb,
  if◌then◌else◌, null, ◌==◌,
}
use enoch.Base.Text.{
  truthy, strip, lower, all_chars, len, starts_with, remove_prefix, is_lower_letter, is_digit,
}
use enoch.Payloads.References.{ArtifactReference}
use enoch.Payloads.Bounds.{Metadata}
use enoch.Payloads.Names.{name_tail, lane_name}
use Prim.Native.String.{◌++◌}
use enoch.Json.{Fields, end, field}

-- `_EXTENSION_CONTEXT_SOURCE.fullmatch`
pub extension_context_source : String → Bool
unfolding remove_prefix
extension_context_source s = starts_with s "extension:" && lane_name (remove_prefix "extension:" s)

abbrev no_metadata : Metadata → Bool
no_metadata end = true
no_metadata (field k v fs) = false

-- `true` where the code returns, `false` where it raises.
unfoldable pub require_extension_payload_namespace :
    String → Metadata → List ArtifactReference → Bool
unfolding extension_context_source
require_extension_payload_namespace context_source metadata artifact_refs =
    if no_metadata metadata && null artifact_refs
    then true
    else extension_context_source context_source

unfoldable pub normalize_extension_lane : String → Option String
normalize_extension_lane value =
    let lane = lower (strip value) in
    if truthy lane && not (lane_name lane) then none else some lane

abbrev prefix_lane : String → String → String
prefix_lane context_source lane = if truthy lane then context_source ++ (":" ++ lane) else ""

pub scoped_extension_lane : String → String → Option String
unfolding normalize_extension_lane
scoped_extension_lane extension_name lane =
    let context_source = "extension:" ++ extension_name in
    if not (extension_context_source context_source)
    then none
    else elim (normalize_extension_lane lane) [
      | none ↦ none
      | some normalized ↦ some (prefix_lane context_source normalized)
    ]

abbrev is_same : Option String → String → Bool
is_same none s = false
is_same (some t) s = t == s

unfoldable pub require_extension_lane_namespace : String → String → Option String
unfolding extension_context_source scoped_extension_lane remove_prefix
require_extension_lane_namespace context_source execution_lane =
    let prefix = context_source ++ ":" in
    if not (truthy execution_lane)
    then some ""
    else if extension_context_source context_source
        && starts_with execution_lane prefix
        && is_same
            (scoped_extension_lane (remove_prefix "extension:" context_source)
              (remove_prefix prefix execution_lane))
            execution_lane
    then some execution_lane
    else none

unfoldable pub local_extension_lane : String → String → Option String
unfolding require_extension_lane_namespace remove_prefix
local_extension_lane extension_name execution_lane =
    elim (require_extension_lane_namespace ("extension:" ++ extension_name) execution_lane) [
      | none ↦ none
      | some canonical ↦
          if truthy canonical
          then some (remove_prefix ("extension:" ++ (extension_name ++ ":")) canonical)
          else some ""
    ]
