-- ===== src/Payloads/Stable.antt =====
-- src/enoch/tasks/payloads.py: normalizing again what was normalized.
use Prim.Native.String.{String}
use enoch.Base.{
  some-injective, ℕ, suc, ◌≡◌, refl, ap, ◌∙◌, sym, Bool, true, false, not, ◌&&◌, Option, none, some,
  List, [], ◌∷◌, arith, traverse, if◌then◌else◌, Option-cases, inl, inr, ◌⊎◌,
}
use enoch.Base.Text.{truthy, strip, lower}
use enoch.Base.Text.Laws.{strip-strip, lower-strip_idem, join-split_at}
use enoch.Json.{Json, null, bool, int, float, str, arr, obj, Items, nil, cons, Fields, end, field}
use enoch.Payloads.{require_extension_lane_namespace}
use enoch.Payloads.Bounds.{
  Metadata, normalize_json_value, normalize_members, normalize_items, then_item, then_field,
  reserved_key, normalize_extension_metadata,
}
use enoch.Payloads.Names.{key_name}
use enoch.Payloads.References.{
  ArtifactReference, checked_path, assemble, artifact_path, artifact_reference, rebuild,
  references_from_json, normalize_extension_artifact_references,
}

-- A test in front of a result that is there passed.
pub if_true {ℓ} :
    {A : Type ℓ} (b : Bool) (o : Option A) {a : A} → (if b then o else none) ≡ some a → o ≡ some a
if_true true o h = h
if_true false o h = absurd (cc)

-- What a successful step of the two loops consists of.
pub then_item-eq-some :
    (o : Option (ℕ × Json)) (rest : ℕ → Option (ℕ × Items)) {m : ℕ} {ys : Items}
    → then_item o rest ≡ some (m, ys)
    → (n : ℕ) × (v : Json) × (xs : Items) × (o ≡ some (n, v))
      × (rest n ≡ some (m, xs))
      × (ys ≡ cons v xs)
then_item-eq-some none rest {m} {ys} h = absurd (cc)
then_item-eq-some (some (n, v)) rest {m} {ys} h = elim (Option-cases (rest n)) [
  | inl e ↦ absurd (ground (arith, e))
  | inr ((k, xs), e) ↦ (n, v, xs, refl, ground (arith, e), ground (arith, e))
]

pub then_field-eq-some :
    (key : String) (o : Option (ℕ × Json)) (rest : ℕ → Option (ℕ × Fields)) {m : ℕ} {ys : Fields}
    → then_field key o rest ≡ some (m, ys)
    → (n : ℕ) × (v : Json) × (fs : Fields) × (o ≡ some (n, v))
      × (rest n ≡ some (m, fs))
      × (ys ≡ field key v fs)
then_field-eq-some key none rest {m} {ys} h = absurd (cc)
then_field-eq-some key (some (n, v)) rest {m} {ys} h = elim (Option-cases (rest n)) [
  | inl e ↦ absurd (ground (arith, e))
  | inr ((k, xs), e) ↦ (n, v, xs, refl, ground (arith, e), ground (arith, e))
]

mutual
  unfolding normalize_json_value

  value_unchanged :
      (v : Json) (depth n : ℕ) {m : ℕ} {v' : Json}
      → normalize_json_value v depth n ≡ some (m, v')
      → v' ≡ v
  value_unchanged null depth n h = ground arith
  value_unchanged (bool b) depth n h = ground arith
  value_unchanged (int i) depth n h = ground arith
  value_unchanged (float x) depth n h = ground arith
  value_unchanged (str s) depth n h = ground arith
  value_unchanged (arr xs) depth n h =
      elim (Option-cases (normalize_items xs (suc depth) (suc n))) [
        | inl e ↦ ground (arith, e)
        | inr ((k, ys), e) ↦ ground (arith, e, items_unchanged xs (suc depth) (suc n) e)
      ]
  value_unchanged (obj fs) depth n h = elim (Option-cases (normalize_members fs depth (suc n))) [
    | inl e ↦ ground (arith, e)
    | inr ((k, ys), e) ↦ ground (arith, e, members_unchanged fs depth (suc n) e)
  ]

  items_unchanged :
      (xs : Items) (depth n : ℕ) {m : ℕ} {xs' : Items}
      → normalize_items xs depth n ≡ some (m, xs')
      → xs' ≡ xs
  items_unchanged nil depth n h = ground arith
  items_unchanged (cons x xs) depth n h =
      let (k, v, ys, p, q, e) = then_item-eq-some (normalize_json_value x depth n) _ h in
      cc (value_unchanged x depth n p, items_unchanged xs depth k q, e)

  members_unchanged :
      (fs : Fields) (depth n : ℕ) {m : ℕ} {fs' : Fields}
      → normalize_members fs depth n ≡ some (m, fs')
      → fs' ≡ fs
  members_unchanged end depth n h = ground arith
  members_unchanged (field k v₀ fs) depth n h =
      let (c, v, ys, p, q, e) =
        then_field-eq-some k (normalize_json_value v₀ (suc depth) n) _
          (if_true (key_name k && not (reserved_key k)) _ h) in
      cc (value_unchanged v₀ (suc depth) n p, members_unchanged fs depth c q, e)

-- Metadata that is accepted is unchanged.
pub metadata_unchanged :
    (m : Metadata) {m' : Metadata} → normalize_extension_metadata (obj m) ≡ some m' → m' ≡ m
unfolding normalize_extension_metadata
metadata_unchanged m h = elim (Option-cases (normalize_members m 1 0)) [
  | inl e ↦ ground (arith, e)
  | inr ((k, ys), e) ↦ ground (arith, e, members_unchanged m 1 0 e)
]

-- Metadata that was accepted is accepted again, unchanged.
pub metadata_stable :
    (m : Metadata) {m' : Metadata}
    → normalize_extension_metadata (obj m) ≡ some m'
    → normalize_extension_metadata (obj m') ≡ some m'
metadata_stable m h = rw (metadata_unchanged m h) (h ∙ ap some (metadata_unchanged m h))

lane_cases : (t : String) → (t ≡ "") ⊎ (truthy t ≡ true)
lane_cases String.[] = inl refl
lane_cases (String.◌∷◌ c s) = inr refl

-- A lane that is accepted is unchanged.
pub lane_unchanged :
    (source lane : String) {lane' : String}
    → require_extension_lane_namespace source lane ≡ some lane'
    → lane' ≡ lane
unfolding require_extension_lane_namespace
lane_unchanged source lane h = elim (lane_cases lane) [
  | inl e ↦ some-injective (sym h ∙ rw e) ∙ sym e
  | inr e ↦ ground (arith, e)
]

-- A lane that was accepted for an extension is accepted for it again, unchanged.
pub lane_stable :
    (source lane : String) {lane' : String}
    → require_extension_lane_namespace source lane ≡ some lane'
    → require_extension_lane_namespace source lane' ≡ some lane'
lane_stable source lane h =
    rw (lane_unchanged source lane h) (h ∙ ap some (lane_unchanged source lane h))

checked_path-eq : (s : String) {p' : String} → checked_path s ≡ some p' → p' ≡ s
unfolding checked_path
checked_path-eq s h = ground (arith, join-split_at "/" s)

artifact_path_stable :
    (p : String) {p' : String} → artifact_path p ≡ some p' → artifact_path p' ≡ some p'
unfolding artifact_path
artifact_path_stable p {p'} h =
    ap checked_path (ap strip (checked_path-eq (strip p) h) ∙ strip-strip p) ∙ h

assemble-eq-some :
    (kind : String) (path : Option String) (media : String) {r : ArtifactReference}
    → assemble kind path media ≡ some r
    → (r.kind ≡ kind) × (path ≡ some r.path) × (r.media_type ≡ media)
unfolding assemble
assemble-eq-some kind none media h = absurd (cc)
assemble-eq-some kind (some p) media h = ground arith

rebuild_stable :
    (r : ArtifactReference) {r' : ArtifactReference} → rebuild r ≡ some r' → rebuild r' ≡ some r'
unfolding rebuild artifact_reference
rebuild_stable r {r'} h =
    let (k, p, m) = assemble-eq-some (lower (strip r.kind)) (artifact_path r.path) _ h in
    let kinds : lower (strip r'.kind) ≡ lower (strip r.kind) =
      ap (λ (s : String). lower (strip s)) k ∙ lower-strip_idem r.kind in
    let paths : artifact_path r'.path ≡ artifact_path r.path =
      artifact_path_stable r.path p ∙ sym p in
    let medias : lower (strip r'.media_type) ≡ lower (strip r.media_type) =
      ap (λ (s : String). lower (strip s)) m ∙ lower-strip_idem r.media_type in
    (λ i. assemble (kinds i) (paths i) (medias i)) ∙ h

traverse_stable :
    (rs : List ArtifactReference) {rs' : List ArtifactReference}
    → traverse rebuild rs ≡ some rs'
    → traverse rebuild rs' ≡ some rs'
traverse_stable [] {rs'} h = rw (← some-injective h)
traverse_stable (r ∷ rs) {rs'} h = elim (Option-cases (rebuild r)) [
  | inl e ↦ absurd (ground (arith, e))
  | inr (r', p) ↦ elim (Option-cases (traverse rebuild rs)) [
    | inl e ↦ absurd (ground (arith, p, e))
    | inr (ss, q) ↦
        let e : rs' ≡ r' ∷ ss = ground (arith, p, q) in
        rw e (rw (rebuild_stable r p, traverse_stable rs q))
  ]
]

normalized_same :
    (rs : List ArtifactReference) {rs' : List ArtifactReference}
    → normalize_extension_artifact_references rs ≡ some rs'
    → rs ≡ rs'
unfolding normalize_extension_artifact_references
normalized_same rs h = ground arith

-- Artifact references that were read are read again, unchanged.
pub references_stable :
    (rs : List ArtifactReference) {rs' : List ArtifactReference}
    → references_from_json rs ≡ some rs'
    → references_from_json rs' ≡ some rs'
unfolding references_from_json
references_stable rs {rs'} h = elim (Option-cases (traverse rebuild rs)) [
  | inl e ↦ absurd (ground (arith, e))
  | inr (ss, e) ↦
      let kept : normalize_extension_artifact_references ss ≡ some rs' =
        rw (e, references_from_json) at h in
      let same : ss ≡ rs' = normalized_same ss kept in
      rw (traverse_stable rs (e ∙ ap some same), references_from_json)
        (ap normalize_extension_artifact_references (sym same) ∙ kept)
]
