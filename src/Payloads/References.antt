-- ===== src/Payloads/References.antt =====
-- src/enoch/tasks/payloads.py: references to an extension's artifacts.
use Prim.Native.Char.{code}
use Prim.Native.String.{String}
use enoch.Base.{
  Bool, true, false, not, ◌&&◌, ◌||◌, Option, none, some, List, [], ◌∷◌, leb, ltb, any, length,
  traverse, if◌then◌else◌, ◌==◌,
}
use enoch.Base.Text.{
  truthy, strip, lower, split_at, join, all_chars, len, one_of, starts_with, contains,
}
use enoch.Payloads.Names.{key_name, media_type_parts}

pub record ArtifactReference : Type 0 where
  pub kind : String
  pub path : String
  pub media_type : String

abbrev bad_segment : String → Bool
bad_segment s = not (truthy s) || one_of s ("." ∷ ".." ∷ []) || ltb 128 (len s)

abbrev under_extensions : List String → Bool
under_extensions [] = false
under_extensions (s ∷ rest) = lower s == "extensions"

abbrev backslash : String
backslash = "\\"

-- The checks of `_artifact_path` on a stripped path.
unfoldable pub checked_path : String → Option String
checked_path path =
    let segments = split_at "/" path in
    if not (truthy path)
      || ltb 512 (len path)
      || starts_with path "/"
      || contains path backslash
      || not (all_chars (λ c. leb 32 (code c)) path)
      || contains path "://"
    then none
    else if any bad_segment segments || under_extensions segments
    then none
    else some (join "/" segments)

-- `_artifact_path`
unfoldable pub artifact_path : String → Option String
artifact_path value = checked_path (strip value)

-- The checks of `ExtensionArtifactReference.__post_init__` on the normalized fields.
unfoldable pub assemble : String → Option String → String → Option ArtifactReference
assemble kind none media_type = none
assemble kind (some path) media_type =
    if not (key_name kind)
    then none
    else if truthy media_type && not (media_type_parts (split_at "/" media_type))
    then none
    else some (record { kind = kind; path = path; media_type = media_type })

-- `ExtensionArtifactReference.__post_init__`
unfoldable pub artifact_reference : String → String → String → Option ArtifactReference
unfolding artifact_path checked_path assemble
artifact_reference kind path media_type =
    assemble (lower (strip kind)) (artifact_path path) (lower (strip media_type))

abbrev same_reference : ArtifactReference → ArtifactReference → Bool
same_reference a b = a.kind == b.kind && a.path == b.path && a.media_type == b.media_type

pub all_distinct : List ArtifactReference → Bool
all_distinct [] = true
all_distinct (r ∷ rs) = not (any (same_reference r) rs) && all_distinct rs

unfoldable pub normalize_extension_artifact_references :
    List ArtifactReference → Option (List ArtifactReference)
unfolding all_distinct
normalize_extension_artifact_references references =
    if ltb 64 (length references)
    then none
    else if all_distinct references
    then some references
    else none

-- A reference that was written by `asdict` and is built again.
unfoldable pub rebuild : ArtifactReference → Option ArtifactReference
unfolding artifact_reference
rebuild r = artifact_reference r.kind r.path r.media_type

-- `extension_artifact_references_from_json`, of a list that
-- `extension_artifact_references_to_json` made
unfoldable pub references_from_json : List ArtifactReference → Option (List ArtifactReference)
unfolding rebuild normalize_extension_artifact_references
references_from_json raw = elim (traverse rebuild raw) [
  | none ↦ none
  | some references ↦ normalize_extension_artifact_references references
]
