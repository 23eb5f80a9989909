-- ===== src/Payloads/Examples.antt =====
-- Runs of the payload's theorems on a small payload.
use enoch.Base.{◌≤◌, ◌+◌, ◌≡◌, refl, some, [], ◌∷◌}
use enoch.Base.Text.{strip, lower, split_at, join, remove_prefix}
use enoch.Payloads.Names.{key_name, lane_name, media_type_parts}
use enoch.Json.{str, obj, field, end}
use enoch.Json.Encode.{encoded_fields}
use enoch.Payloads.{require_extension_lane_namespace}
use enoch.Payloads.Bounds.{Metadata, normalize_extension_metadata, normalize_members}
use enoch.Payloads.References.{ArtifactReference, references_from_json}
use enoch.Payloads.Limits.{size_fields, levels, normalize_extension_metadata-bounds}
use enoch.Payloads.Stable.{references_stable}

abbrev topic : Metadata
topic = field "topic" (str "rust") end

topic-reads : normalize_extension_metadata (obj topic) ≡ some topic
unfolding normalize_extension_metadata normalize_members key_name encoded_fields
topic-reads = refl

lane-reads :
    require_extension_lane_namespace "extension:digest" "extension:digest:daily"
    ≡ some "extension:digest:daily"
unfolding require_extension_lane_namespace lane_name lower strip remove_prefix
lane-reads = refl

abbrev report : ArtifactReference
report = record { kind = "report"; path = "artifacts/report.md"; media_type = "text/markdown" }

report-reads : references_from_json (report ∷ []) ≡ some (report ∷ [])
unfolding references_from_json strip split_at lower key_name media_type_parts join
report-reads = refl

references_stable_example : references_from_json (report ∷ []) ≡ some (report ∷ [])
references_stable_example = references_stable (report ∷ []) report-reads

normalize_extension_metadata-bounds_example :
    (size_fields topic ≤ 256) × (levels (obj topic) ≤ 5) × (encoded_fields topic + 2 ≤ 16384)
normalize_extension_metadata-bounds_example = normalize_extension_metadata-bounds topic topic-reads
