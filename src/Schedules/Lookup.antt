-- ===== src/Schedules/Lookup.antt =====
-- src/enoch/extensions/schedules.py: the file as a map from identities to records, whatever the
-- order in which they stand in it.
use enoch.Base.{
  String, Bool, true, false, ◌&&◌, Option, none, some, List, [], ◌∷◌, map, ◌≡◌, refl, sym, ap, ◌∙◌,
  arith, inl, inr, Bool-cases, if◌then◌else◌, some-injective, ◌==◌, eq_iff,
}
use enoch.Base.Text.{one_of}
use enoch.Schedules.Types.{ExtensionScheduleStatus}
use enoch.Schedules.Times.{Env, distinct_texts}
use enoch.Schedules.Store.{
  text_leb, insert, sorted, ids, find_item, replace_item, write_schedule_data,
}
use enoch.Schedules.Normal.{tidy}
use enoch.Schedules.Normal.Lists.{tidy-tidy, distinct-sorted, one_of-sorted}
use enoch.Schedules.Normal.Files.{IsReadable, held, loaded}

-- The record with an identity, as a transaction reads it.
abbrev pub record_at :
    String → Option (List ExtensionScheduleStatus) → Option ExtensionScheduleStatus
record_at k f = find_item k (loaded f)

abbrev pub tidied : Option ExtensionScheduleStatus → Option ExtensionScheduleStatus
tidied none = none
tidied (some s) = some (tidy s)

pub tidied-twice : (o : Option ExtensionScheduleStatus) → tidied (tidied o) ≡ tidied o
tidied-twice none = refl
tidied-twice (some s) = ap some (tidy-tidy s)

find_item-tidy :
    (k : String) (ss : List ExtensionScheduleStatus)
    → find_item k (map tidy ss) ≡ tidied (find_item k ss)
find_item-tidy k [] = refl
find_item-tidy k (s ∷ ss) = elim (Bool-cases (s.id == k)) [
  | inl e ↦ rw e refl
  | inr e ↦ rw e (find_item-tidy k ss)
]

-- No record with an identity that does not stand in the list.
find_item-absent :
    (k : String) (ss : List ExtensionScheduleStatus)
    → one_of k (ids ss) ≡ false
    → find_item k ss ≡ none
find_item-absent k [] h = refl
find_item-absent k (s ∷ ss) h = elim (Bool-cases (s.id == k)) [
  | inl e ↦
      let same : (k == s.id) ≡ true = (eq_iff k s.id).1 (sym ((eq_iff s.id k).0 e)) in
      absurd (ground (arith, h, same))
  | inr e ↦ rw e (find_item-absent k ss (ground (arith, h)))
]

either :
    (a b : Bool) (x s : ExtensionScheduleStatus) (o : Option ExtensionScheduleStatus)
    → (a && b) ≡ false
    → (if a then some x else if b then some s else o)
      ≡ (if b then some s else if a then some x else o)
either true true x s o h = absurd (cc)
either true false x s o h = refl
either false b x s o h = refl

apart : (k i j : String) → (i == j) ≡ false → (j == k && i == k) ≡ false
apart k i j h = elim (Bool-cases (j == k)) [
  | inl e ↦ elim (Bool-cases (i == k)) [
    | inl f ↦ absurd (cc ((eq_iff i j).1 ((eq_iff i k).0 f ∙ sym ((eq_iff j k).0 e)), h))
    | inr f ↦ rw (e, f) refl
  ]
  | inr e ↦ rw e refl
]

find_item-insert :
    (k : String) (s : ExtensionScheduleStatus) (ss : List ExtensionScheduleStatus)
    → one_of s.id (ids ss) ≡ false
    → find_item k (insert s ss) ≡ (if s.id == k then some s else find_item k ss)
unfolding insert
find_item-insert k s [] h = refl
find_item-insert k s (x ∷ xs) h = elim (Bool-cases (text_leb s.id x.id)) [
  | inl e ↦ rw e refl
  | inr e ↦
      rw (e, find_item-insert k s xs (ground (arith, h)))
        (either (x.id == k) (s.id == k) x s (find_item k xs)
          (apart k s.id x.id (ground (arith, h))))
]

pub find_item-sorted :
    (k : String) (ss : List ExtensionScheduleStatus)
    → distinct_texts (ids ss) ≡ true
    → find_item k (sorted ss) ≡ find_item k ss
unfolding sorted distinct_texts
find_item-sorted k [] h = refl
find_item-sorted k (s ∷ ss) h =
    find_item-insert k s (sorted ss) (one_of-sorted s.id ss ∙ ground (arith, h))
    ∙ ap (λ (o : Option ExtensionScheduleStatus). if s.id == k then some s else o)
        (find_item-sorted k ss (ground (arith, h)))

-- What is found after readable records were written.
pub record_at-write :
    (env : Env) (k : String) (items : List ExtensionScheduleStatus)
    → IsReadable env items
    → record_at k (some (write_schedule_data items)) ≡ tidied (find_item k items)
unfolding write_schedule_data
record_at-write env k items r =
    find_item-tidy k (sorted (sorted items))
    ∙ ap tidied (
        find_item-sorted k (sorted items) (distinct-sorted items ∙ r.distinct)
        ∙ find_item-sorted k items r.distinct)

-- A record that was replaced is found in its place.
pub find_item-replace_item :
    (u : ExtensionScheduleStatus) (items : List ExtensionScheduleStatus)
    {s : ExtensionScheduleStatus}
    → find_item u.id items ≡ some s
    → find_item u.id (replace_item u items) ≡ some u
unfolding replace_item
find_item-replace_item u [] h = absurd (cc)
find_item-replace_item u (x ∷ xs) h = elim (Bool-cases (x.id == u.id)) [
  | inl e ↦ rw e (rw ((eq_iff u.id u.id).1 refl) refl)
  | inr e ↦ rw e (rw e (find_item-replace_item u xs (rw e at h)))
]

-- The others are found as before.
pub find_item-others :
    (u : ExtensionScheduleStatus) (k : String) (items : List ExtensionScheduleStatus)
    → (u.id == k) ≡ false
    → find_item k (replace_item u items) ≡ find_item k items
unfolding replace_item
find_item-others u k [] h = refl
find_item-others u k (x ∷ xs) h = elim (Bool-cases (x.id == u.id)) [
  | inl e ↦
      let same : x.id ≡ u.id = (eq_iff x.id u.id).0 e in
      let other : (x.id == k) ≡ false = ap (λ v. v == k) same ∙ h in rw e (rw (h, other) refl)
  | inr e ↦ rw e (
      ap (λ (o : Option ExtensionScheduleStatus). if x.id == k then some x else o)
        (find_item-others u k xs h))
]

-- A record that is read is tidy.
pub find_item-loaded :
    (k : String) (f : Option (List ExtensionScheduleStatus))
    → tidied (record_at k f) ≡ record_at k f
find_item-loaded k f =
    let p = find_item-tidy k (sorted (held f)) in
    ap tidied p ∙ tidied-twice (find_item k (sorted (held f))) ∙ sym p

pub record_at-tidy :
    (k : String) (f : Option (List ExtensionScheduleStatus)) {s : ExtensionScheduleStatus}
    → record_at k f ≡ some s
    → tidy s ≡ s
record_at-tidy k f h = some-injective (ap tidied (sym h) ∙ find_item-loaded k f ∙ h)
