-- ===== src/Schedules/Normal/Lists.antt =====
-- src/enoch/extensions/schedules.py: lists of durable records that are read back as they are, and
-- what sorting, finding and replacing make of them.
use enoch.Base.{
  String, Bool, not, ◌&&◌, ◌||◌, some, List, [], ◌∷◌, ◌≡◌, refl, sym, ap, ap₂, subst, ◌∙◌, arith,
  inl, inr, traverse, filter_map, map, ◌==◌, eq_iff, Bool-cases, some-injective,
}
use enoch.Base.Text.{one_of}
use enoch.Base.Text.Laws.{strip-strip}
use enoch.Schedules.Types.{ExtensionScheduleStatus}
use enoch.Schedules.Times.{Env, distinct_texts}
use enoch.Schedules.Spec.{reparse_status}
use enoch.Schedules.Store.{text_leb, insert, sorted, ids, find_item, replace_item}
use enoch.Schedules.Normal.History.{same-sym}
use enoch.Schedules.Normal.{IsNormal, tidy, reparse_status-normal, tidy-IsNormal}

pub data AllNormal (env : Env) : List ExtensionScheduleStatus → Type 0 where
  nil : AllNormal env []
  cons :
      {s : ExtensionScheduleStatus} {ss : List ExtensionScheduleStatus}
      → IsNormal env s
      → AllNormal env ss
      → AllNormal env (s ∷ ss)

pub traverse-AllNormal :
    (env : Env) (ss : List ExtensionScheduleStatus)
    → AllNormal env ss
    → traverse (reparse_status env) ss ≡ some (map tidy ss)
traverse-AllNormal env [] nil = refl
traverse-AllNormal env (s ∷ ss) (cons n h) =
    rw (reparse_status-normal env s n, traverse-AllNormal env ss h) refl

pub filter_map-AllNormal :
    (env : Env) (ss : List ExtensionScheduleStatus)
    → AllNormal env ss
    → filter_map (reparse_status env) ss ≡ map tidy ss
filter_map-AllNormal env [] nil = refl
filter_map-AllNormal env (s ∷ ss) (cons n h) =
    rw (reparse_status-normal env s n, filter_map-AllNormal env ss h) refl

pub tidy-AllNormal :
    {env : Env} (ss : List ExtensionScheduleStatus) → AllNormal env ss → AllNormal env (map tidy ss)
tidy-AllNormal [] nil = nil
tidy-AllNormal {env} (s ∷ ss) (cons n h) = cons (tidy-IsNormal env s n) (tidy-AllNormal ss h)

pub tidy-tidy : (s : ExtensionScheduleStatus) → tidy (tidy s) ≡ tidy s
tidy-tidy s = λ i. record s { last_error = strip-strip s.last_error i }

pub map-tidy-tidy : (ss : List ExtensionScheduleStatus) → map tidy (map tidy ss) ≡ map tidy ss
map-tidy-tidy [] = refl
map-tidy-tidy (s ∷ ss) = λ i. tidy-tidy s i ∷ map-tidy-tidy ss i

pub ids-tidy : (ss : List ExtensionScheduleStatus) → ids (map tidy ss) ≡ ids ss
ids-tidy [] = refl
ids-tidy (s ∷ ss) = ap (λ (l : List String). s.id ∷ l) (ids-tidy ss)

insert-tidy :
    (s : ExtensionScheduleStatus) (ss : List ExtensionScheduleStatus)
    → insert (tidy s) (map tidy ss) ≡ map tidy (insert s ss)
unfolding insert
insert-tidy s [] = refl
insert-tidy s (x ∷ xs) = elim (Bool-cases (text_leb s.id x.id)) [
  | inl e ↦ rw e refl
  | inr e ↦ rw e (ap (λ (l : List ExtensionScheduleStatus). tidy x ∷ l) (insert-tidy s xs))
]

pub sorted-tidy : (ss : List ExtensionScheduleStatus) → sorted (map tidy ss) ≡ map tidy (sorted ss)
unfolding sorted
sorted-tidy [] = refl
sorted-tidy (s ∷ ss) = ap (insert (tidy s)) (sorted-tidy ss) ∙ insert-tidy s (sorted ss)

insert-AllNormal :
    {env : Env} (s : ExtensionScheduleStatus) {ss : List ExtensionScheduleStatus}
    → IsNormal env s
    → AllNormal env ss
    → AllNormal env (insert s ss)
unfolding insert
insert-AllNormal s n nil = cons n nil
insert-AllNormal s {ss = x ∷ xs} n (cons m h) = elim (Bool-cases (text_leb s.id x.id)) [
  | inl e ↦ rw e (cons n (cons m h))
  | inr e ↦ rw e (cons m (insert-AllNormal s n h))
]

pub sorted-AllNormal :
    {env : Env} {ss : List ExtensionScheduleStatus} → AllNormal env ss → AllNormal env (sorted ss)
unfolding sorted
sorted-AllNormal nil = nil
sorted-AllNormal (cons {s = s} n h) = insert-AllNormal s n (sorted-AllNormal h)

one_of-insert :
    (k : String) (s : ExtensionScheduleStatus) (ss : List ExtensionScheduleStatus)
    → one_of k (ids (insert s ss)) ≡ (k == s.id || one_of k (ids ss))
unfolding insert
one_of-insert k s [] = refl
one_of-insert k s (x ∷ xs) = elim (Bool-cases (text_leb s.id x.id)) [
  | inl e ↦ rw e refl
  | inr e ↦ rw (e, one_of-insert k s xs) (ground arith)
]

pub one_of-sorted :
    (k : String) (ss : List ExtensionScheduleStatus)
    → one_of k (ids (sorted ss)) ≡ one_of k (ids ss)
unfolding sorted
one_of-sorted k [] = refl
one_of-sorted k (s ∷ ss) =
    one_of-insert k s (sorted ss) ∙ ap (λ (b : Bool). k == s.id || b) (one_of-sorted k ss)

distinct-insert :
    (s : ExtensionScheduleStatus) (ss : List ExtensionScheduleStatus)
    → distinct_texts (ids (insert s ss)) ≡ (not (one_of s.id (ids ss)) && distinct_texts (ids ss))
unfolding insert distinct_texts
distinct-insert s [] = refl
distinct-insert s (x ∷ xs) = elim (Bool-cases (text_leb s.id x.id)) [
  | inl e ↦ rw e refl
  | inr e ↦ rw (e, one_of-insert x.id s xs, distinct-insert s xs, same-sym x.id s.id) (ground arith)
]

pub distinct-sorted :
    (ss : List ExtensionScheduleStatus) → distinct_texts (ids (sorted ss)) ≡ distinct_texts (ids ss)
unfolding sorted distinct_texts
distinct-sorted [] = refl
distinct-sorted (s ∷ ss) =
    distinct-insert s (sorted ss)
    ∙ ap₂ (λ (a b : Bool). not a && b) (one_of-sorted s.id ss) (distinct-sorted ss)

-- A record that is found.
pub find_item-IsNormal :
    {env : Env} (k : String) (ss : List ExtensionScheduleStatus) {s : ExtensionScheduleStatus}
    → AllNormal env ss
    → find_item k ss ≡ some s
    → IsNormal env s × (s.id ≡ k)
find_item-IsNormal k [] nil h = absurd (cc)
find_item-IsNormal {env} k (x ∷ xs) {s} (cons n a) h = elim (Bool-cases (x.id == k)) [
  | inl e ↦
      let same : x ≡ s = some-injective (rw e at h) in
      (
        subst (λ v. IsNormal env v) same n,
        ap (λ (v : ExtensionScheduleStatus). v.id) (sym same) ∙ (eq_iff x.id k).0 e,
      )
  | inr e ↦ find_item-IsNormal k xs a (rw e at h)
]

pub replace_item-AllNormal :
    {env : Env} (u : ExtensionScheduleStatus) {ss : List ExtensionScheduleStatus}
    → IsNormal env u
    → AllNormal env ss
    → AllNormal env (replace_item u ss)
unfolding replace_item
replace_item-AllNormal u n nil = nil
replace_item-AllNormal u {ss = x ∷ xs} n (cons m h) = elim (Bool-cases (x.id == u.id)) [
  | inl e ↦ rw e (cons n h)
  | inr e ↦ rw e (cons m (replace_item-AllNormal u n h))
]

pub ids-replace_item :
    (u : ExtensionScheduleStatus) (ss : List ExtensionScheduleStatus)
    → ids (replace_item u ss) ≡ ids ss
unfolding replace_item
ids-replace_item u [] = refl
ids-replace_item u (x ∷ xs) = elim (Bool-cases (x.id == u.id)) [
  | inl e ↦ rw e (ap (λ (k : String). k ∷ ids xs) (sym ((eq_iff x.id u.id).0 e)))
  | inr e ↦ rw e (ap (λ (l : List String). x.id ∷ l) (ids-replace_item u xs))
]
