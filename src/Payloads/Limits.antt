-- ===== src/Payloads/Limits.antt =====
-- src/enoch/tasks/payloads.py: the size of the metadata that is accepted.
use enoch.Base.{ℕ, suc, ◌≤◌, ◌+◌, max, not, ◌&&◌, some, ◌≡◌, inl, inr, Option-cases, arith}
use enoch.Json.{Json, null, bool, int, float, str, arr, obj, Items, nil, cons, Fields, end, field}
use enoch.Json.Encode.{encoded_fields}
use enoch.Payloads.Names.{key_name}
use enoch.Payloads.Bounds.{
  Metadata, reserved_key, normalize_json_value, normalize_items, normalize_members,
  normalize_extension_metadata,
}
use enoch.Payloads.Stable.{if_true, then_item-eq-some, then_field-eq-some}

abbrev mutual
  -- How many values a value consists of, itself included.
  pub size : Json → ℕ
  size (arr xs) = suc (size_items xs)
  size (obj fs) = suc (size_fields fs)
  size _ = 1

  pub size_items : Items → ℕ
  size_items nil = 0
  size_items (cons x xs) = size x + size_items xs

  pub size_fields : Fields → ℕ
  size_fields end = 0
  size_fields (field k v fs) = size v + size_fields fs

abbrev mutual
  -- How many levels of values there are.
  pub levels : Json → ℕ
  levels (arr xs) = suc (levels_items xs)
  levels (obj fs) = suc (levels_fields fs)
  levels _ = 1

  pub levels_items : Items → ℕ
  levels_items nil = 0
  levels_items (cons x xs) = max (levels x) (levels_items xs)

  pub levels_fields : Fields → ℕ
  levels_fields end = 0
  levels_fields (field k v fs) = max (levels v) (levels_fields fs)

-- What was counted, from the depth and the counter before to the counter behind.
abbrev Counted : ℕ → ℕ → ℕ → ℕ → ℕ → Type 0
Counted depth n k values height = (k ≡ n + values) × (depth + height ≤ 6) × (k ≤ 256)

mutual
  unfolding normalize_json_value

  value-Counted :
      (v : Json) (depth n : ℕ) {k : ℕ} {v' : Json}
      → normalize_json_value v depth n ≡ some (k, v')
      → Counted depth n k (size v) (levels v)
  value-Counted null depth n h = ground arith
  value-Counted (bool b) depth n h = ground arith
  value-Counted (int i) depth n h = ground arith
  value-Counted (float x) depth n h = ground arith
  value-Counted (str s) depth n h = ground arith
  value-Counted (arr xs) depth n {k} h =
      elim (Option-cases (normalize_items xs (suc depth) (suc n))) [
        | inl e ↦ absurd (ground (arith, e))
        | inr ((c, ys), e) ↦
            let d : depth ≤ 5 = ground arith in
            let l : n ≤ 255 = ground arith in
            let same : c ≡ k = ground (arith, e) in
            let (r, s, t) =
              items-Counted xs (suc depth) (suc n) e (omega (arith, d)) (omega (arith, l)) in
            (omega (arith, r, same), omega (arith, s), omega (arith, t, same))
      ]
  value-Counted (obj fs) depth n {k} h = elim (Option-cases (normalize_members fs depth (suc n))) [
    | inl e ↦ absurd (ground (arith, e))
    | inr ((c, ys), e) ↦
        let d : depth ≤ 5 = ground arith in
        let l : n ≤ 255 = ground arith in
        let same : c ≡ k = ground (arith, e) in
        let (r, s, t) = members-Counted fs depth (suc n) e d (omega (arith, l)) in
        (omega (arith, r, same), omega (arith, s), omega (arith, t, same))
  ]

  items-Counted :
      (xs : Items) (depth n : ℕ) {k : ℕ} {xs' : Items}
      → normalize_items xs depth n ≡ some (k, xs')
      → depth ≤ 6
      → n ≤ 256
      → Counted depth n k (size_items xs) (levels_items xs)
  items-Counted nil depth n h p q = ground arith
  items-Counted (cons x xs) depth n h p q =
      let (c, v, ys, a, b, e) = then_item-eq-some (normalize_json_value x depth n) _ h in
      let (r, s, t) = value-Counted x depth n a in
      let (r', s', t') = items-Counted xs depth c b p t in (omega arith, omega arith, t')

  members-Counted :
      (fs : Fields) (depth n : ℕ) {k : ℕ} {fs' : Fields}
      → normalize_members fs depth n ≡ some (k, fs')
      → depth ≤ 5
      → n ≤ 256
      → Counted (suc depth) n k (size_fields fs) (levels_fields fs)
  members-Counted end depth n h p q = ground arith
  members-Counted (field key x fs) depth n h p q =
      let (c, v, ys, a, b, e) =
        then_field-eq-some key (normalize_json_value x (suc depth) n) _
          (if_true (key_name key && not (reserved_key key)) _ h) in
      let (r, s, t) = value-Counted x (suc depth) n a in
      let (r', s', t') = members-Counted fs depth c b p t in (omega arith, omega arith, t')

-- An object that is accepted as metadata consists of at most 256 values, all those inside of
-- others counted, has at most 5 levels, its own included, and its canonical encoding takes at
-- most 16384 bytes.
pub normalize_extension_metadata-bounds :
    (m : Metadata) {m' : Metadata}
    → normalize_extension_metadata (obj m) ≡ some m'
    → (size_fields m ≤ 256) × (levels (obj m) ≤ 5) × (encoded_fields m' + 2 ≤ 16384)
unfolding normalize_extension_metadata
normalize_extension_metadata-bounds m {m'} h = elim (Option-cases (normalize_members m 1 0)) [
  | inl e ↦ absurd (ground (arith, e))
  | inr ((k, ys), e) ↦
      let (a, b, c) = members-Counted m 1 0 e (omega arith) (omega arith) in
      let same : ys ≡ m' = ground (arith, e) in
      let bytes : encoded_fields ys + 2 ≤ 16384 = ground (arith, e) in
      (omega arith, omega arith, rw (← same) bytes)
]
