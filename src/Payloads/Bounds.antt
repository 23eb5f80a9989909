-- ===== src/Payloads/Bounds.antt =====
-- src/enoch/tasks/payloads.py: the bounds on the metadata of a task.
use Prim.Native.Nat.{ℕ, suc, ◌+◌}
use Prim.Native.String.{String}
use enoch.Base.{Bool, not, ◌&&◌, ◌||◌, Option, none, some, [], ◌∷◌, leb, ltb, if◌then◌else◌}
use enoch.Base.Text.{len, one_of, starts_with}
use enoch.Json.{Json, null, bool, int, float, str, arr, obj, Items, nil, cons, Fields, end, field}
use enoch.Json.Encode.{encoded_fields}
use enoch.Payloads.Names.{key_name}

-- A normalized metadata object.
abbrev pub Metadata : Type 0
Metadata = Fields

abbrev metadata_max_bytes : ℕ
metadata_max_bytes = 16384

abbrev metadata_max_depth : ℕ
metadata_max_depth = 5

abbrev metadata_max_items : ℕ
metadata_max_items = 256

abbrev metadata_max_members : ℕ
metadata_max_members = 64

abbrev metadata_max_string_chars : ℕ
metadata_max_string_chars = 2048

abbrev members : Fields → ℕ
members end = 0
members (field k v fs) = suc (members fs)

abbrev elements : Items → ℕ
elements nil = 0
elements (cons x xs) = suc (elements xs)

unfoldable pub reserved_key : String → Bool
reserved_key key =
    one_of key ("enoch" ∷ "schema_version" ∷ "system" ∷ [])
    || starts_with key "$"
    || starts_with key "_"
    || starts_with key "enoch."
    || starts_with key "system."

-- `_check_depth`
check_depth : ℕ → Bool
check_depth depth = leb depth metadata_max_depth

-- The loops pass on the shared counter, with the value built so far.
abbrev pub then_field : String → Option (ℕ × Json) → (ℕ → Option (ℕ × Fields)) → Option (ℕ × Fields)
then_field k none rest = none
then_field k (some (n, v)) rest = elim (rest n) [
  | none ↦ none
  | some (m, fs) ↦ some (m, field k v fs)
]

abbrev pub then_item : Option (ℕ × Json) → (ℕ → Option (ℕ × Items)) → Option (ℕ × Items)
then_item none rest = none
then_item (some (n, v)) rest = elim (rest n) [ none ↦ none | some (m, xs) ↦ some (m, cons v xs) ]

abbrev as_object : Option (ℕ × Fields) → Option (ℕ × Json)
as_object none = none
as_object (some (n, fs)) = some (n, obj fs)

abbrev as_array : Option (ℕ × Items) → Option (ℕ × Json)
as_array none = none
as_array (some (n, xs)) = some (n, arr xs)

-- The checks at the head of `_normalize_json_value`, then those of the value's kind.
abbrev counted : ℕ → ℕ → (ℕ → Option (ℕ × Json)) → Option (ℕ × Json)
counted depth counter rest =
    if leb depth metadata_max_depth && ltb counter metadata_max_items
    then rest (suc counter)
    else none

unfoldable mutual
  unfolding reserved_key check_depth

  -- `_normalize_json_value`
  pub normalize_json_value : Json → ℕ → ℕ → Option (ℕ × Json)
  normalize_json_value null depth counter = counted depth counter (λ n. some (n, null))
  normalize_json_value (bool b) depth counter = counted depth counter (λ n. some (n, bool b))
  normalize_json_value (int i) depth counter = counted depth counter (λ n. some (n, int i))
  normalize_json_value (float x) depth counter =
      counted depth counter (λ n. if x.finite then some (n, float x) else none)
  normalize_json_value (str s) depth counter =
      counted depth counter
        (λ n. if ltb metadata_max_string_chars (len s) then none else some (n, str s))
  normalize_json_value (arr xs) depth counter = counted depth counter (λ n.
      if ltb metadata_max_members (elements xs)
      then none
      else as_array (normalize_items xs (suc depth) n))
  normalize_json_value (obj fs) depth counter = counted depth counter (λ n.
      if check_depth depth && not (ltb metadata_max_members (members fs))
      then as_object (normalize_members fs depth n)
      else none)

  pub normalize_items : Items → ℕ → ℕ → Option (ℕ × Items)
  normalize_items nil depth counter = some (counter, nil)
  normalize_items (cons x xs) depth counter =
      then_item (normalize_json_value x depth counter) (λ n. normalize_items xs depth n)

  -- The loop of `_normalize_json_object`.
  pub normalize_members : Fields → ℕ → ℕ → Option (ℕ × Fields)
  normalize_members end depth counter = some (counter, end)
  normalize_members (field k v fs) depth counter =
      if key_name k && not (reserved_key k)
      then then_field k (normalize_json_value v (suc depth) counter)
          (λ n. normalize_members fs depth n)
      else none

-- `_normalize_json_object`
pub normalize_json_object : Fields → ℕ → ℕ → Option (ℕ × Fields)
unfolding check_depth
normalize_json_object fs depth counter =
    if check_depth depth && not (ltb metadata_max_members (members fs))
    then normalize_members fs depth counter
    else none

abbrev within_bytes : Option (ℕ × Fields) → Option Metadata
within_bytes none = none
within_bytes (some (n, fs)) =
    if ltb metadata_max_bytes (encoded_fields fs + 2) then none else some fs

-- `normalize_extension_metadata`, of a value that is absent, no object, or an object
unfoldable pub normalize_extension_metadata : Json → Option Metadata
unfolding normalize_json_object
normalize_extension_metadata null = some end
normalize_extension_metadata (obj fs) = within_bytes (normalize_json_object fs 1 0)
normalize_extension_metadata _ = none
