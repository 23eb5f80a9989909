-- ===== src/Schedules/Normal/Reconciled.antt =====
-- src/enoch/extensions/schedules.py: what reconciliation writes.
use enoch.Base.{
  ℕ, Bool, true, false, not, ◌&&◌, ◌||◌, String, List, [], ◌∷◌, ◌++◌, any, null, keep, ◌≡◌, refl,
  ap, ◌∙◌, arith, inl, inr, Bool-cases, Option-cases, ◌==◌, eq_iff,
}
use enoch.Base.Text.{one_of}
use enoch.Schedules.Types.{ExtensionScheduleStatus}
use enoch.Schedules.Times.{Env, iso, distinct_texts}
use enoch.Schedules.Store.{ids}
use enoch.Schedules.Reconcile.{Desired, fold_all, undeclared, disable_all, reconcile_body}
use enoch.Schedules.Normal.Dates.{IsIsoClock}
use enoch.Schedules.Normal.Lists.{AllNormal, nil, cons}
use enoch.Schedules.Normal.Files.{
  IsReadable, Writes, raised, left, written, Writes-if, sorted-IsReadable,
}
use enoch.Schedules.Normal.Gathered.{IsGathered, declared_ids, one_of-declared}
use enoch.Schedules.Normal.Folded.{fold_all-AllNormal, disable_all-AllNormal}

keep-AllNormal :
    {env : Env} (p : ExtensionScheduleStatus → Bool) (ss : List ExtensionScheduleStatus)
    → AllNormal env ss
    → AllNormal env (keep p ss)
keep-AllNormal p [] nil = nil
keep-AllNormal p (s ∷ ss) (cons n a) = elim (Bool-cases (p s)) [
  | inl e ↦ rw e (cons n (keep-AllNormal p ss a))
  | inr e ↦ rw e (keep-AllNormal p ss a)
]

one_of-keep :
    (p : ExtensionScheduleStatus → Bool) (k : String) (ss : List ExtensionScheduleStatus)
    → one_of k (ids ss) ≡ false
    → one_of k (ids (keep p ss)) ≡ false
one_of-keep p k [] h = refl
one_of-keep p k (s ∷ ss) h =
    let rest = one_of-keep p k ss (ground (arith, h)) in
    elim (Bool-cases (p s)) [ inl e ↦ rw e (ground (arith, h, rest)) | inr e ↦ rw e rest ]

distinct-keep :
    (p : ExtensionScheduleStatus → Bool) (ss : List ExtensionScheduleStatus)
    → distinct_texts (ids ss) ≡ true
    → distinct_texts (ids (keep p ss)) ≡ true
unfolding distinct_texts
distinct-keep p [] h = refl
distinct-keep p (s ∷ ss) h =
    let rest = distinct-keep p ss (ground (arith, h)) in
    let new = one_of-keep p s.id ss (ground (arith, h)) in
    elim (Bool-cases (p s)) [ inl e ↦ rw e (ground (arith, new, rest)) | inr e ↦ rw e rest ]

-- The two lists of identities have nothing in common.
disjoint : List String → List String → Bool
disjoint [] ys = true
disjoint (x ∷ xs) ys = not (one_of x ys) && disjoint xs ys

one_of-ids-append :
    (k : String) (xs ys : List ExtensionScheduleStatus)
    → one_of k (ids (xs ++ ys)) ≡ (one_of k (ids xs) || one_of k (ids ys))
one_of-ids-append k [] ys = refl
one_of-ids-append k (x ∷ xs) ys = rw (one_of-ids-append k xs ys) (ground arith)

distinct-append :
    (xs ys : List ExtensionScheduleStatus)
    → distinct_texts (ids xs) ≡ true
    → distinct_texts (ids ys) ≡ true
    → disjoint (ids xs) (ids ys) ≡ true
    → distinct_texts (ids (xs ++ ys)) ≡ true
unfolding distinct_texts disjoint
distinct-append [] ys a b c = b
distinct-append (x ∷ xs) ys a b c =
    let rest = distinct-append xs ys (ground (arith, a)) b (ground (arith, c)) in
    rw (one_of-ids-append x.id xs ys, rest) (ground (arith, a, c))

append-AllNormal :
    {env : Env} (xs ys : List ExtensionScheduleStatus)
    → AllNormal env xs
    → AllNormal env ys
    → AllNormal env (xs ++ ys)
append-AllNormal [] ys nil b = b
append-AllNormal (x ∷ xs) ys (cons n a) b = cons n (append-AllNormal xs ys a b)

-- An identity that is declared is not left over.
declared_not_left :
    (k : String) (ds : List Desired) (ss : List ExtensionScheduleStatus)
    → one_of k (declared_ids ds) ≡ true
    → one_of k (ids (undeclared ds ss)) ≡ false
unfolding undeclared
declared_not_left k ds [] h = refl
declared_not_left k ds (s ∷ ss) h =
    let rest = declared_not_left k ds ss h in
    elim (Bool-cases (any (λ d. d.id == s.id) ds)) [
      | inl e ↦ rw e rest
      | inr e ↦ elim (Bool-cases (k == s.id)) [
        | inl f ↦
            let same : k ≡ s.id = (eq_iff k s.id).0 f in
            absurd (cc (h, ap (λ v. one_of v (declared_ids ds)) same, one_of-declared s.id ds, e))
        | inr f ↦ rw e (ground (arith, f, rest))
      ]
    ]

undeclared-disjoint :
    (xs : List String) (ds : List Desired) (ss : List ExtensionScheduleStatus)
    → ((k : String) → one_of k xs ≡ true → one_of k (declared_ids ds) ≡ true)
    → disjoint xs (ids (undeclared ds ss)) ≡ true
unfolding disjoint
undeclared-disjoint [] ds ss h = refl
undeclared-disjoint (x ∷ xs) ds ss h =
    let here : one_of x (declared_ids ds) ≡ true = h x (rw ((eq_iff x x).1 refl) refl) in
    rw (declared_not_left x ds ss here)
      (undeclared-disjoint xs ds ss (λ k e. h k (ground (arith, e))))

module _ (env : Env) (dates : IsIsoClock env.clock) (t : ℕ) where
  pub reconcile_body-IsReadable :
      (ds : List Desired) (items : List ExtensionScheduleStatus)
      → IsGathered env ds
      → IsReadable env items
      → Writes (IsReadable env) (reconcile_body env t ds items)
  unfolding reconcile_body undeclared
  reconcile_body-IsReadable ds items g r = elim (Option-cases (fold_all env t items ds)) [
    | inl e ↦ rw (e, reconcile_body) (raised _)
    | inr (declared, e) ↦
        let rest = disable_all (iso env t) (undeclared ds items) in
        let (a, i) = fold_all-AllNormal env dates t items ds r.normal g.all e in
        let (b, j) =
          disable_all-AllNormal env dates t (undeclared ds items)
            (keep-AllNormal (λ item. not (any (λ d. d.id == item.id) ds)) items r.normal) in
        let apart : disjoint (ids declared.items) (ids rest.items) ≡ true =
          rw (i, j) (undeclared-disjoint (declared_ids ds) ds items (λ k h. h)) in
        let whole : IsReadable env (declared.items ++ rest.items) = record {
          normal = append-AllNormal declared.items rest.items a b;
          distinct =
              distinct-append declared.items rest.items (ap distinct_texts i ∙ g.distinct)
                (ap distinct_texts j
                  ∙ distinct-keep (λ item. not (any (λ d. d.id == item.id) ds)) items r.distinct)
                apart;
        } in
        rw (e, reconcile_body)
          (Writes-if (null (declared.changed ++ rest.changed)) (λ h. left _)
            (λ h. written (sorted-IsReadable (declared.items ++ rest.items) whole)))
  ]
