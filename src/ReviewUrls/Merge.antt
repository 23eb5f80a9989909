-- ===== src/ReviewUrls/Merge.antt =====
-- src/enoch/tasks/queue.py: what `_merge_review_urls` returns.
use enoch.Base.{
  ◌≡◌, refl, subst, sym, String, Bool, true, not, ◌&&◌, ◌||◌, List, [], ◌∷◌, any, arith, Bool-cases,
  inl, inr, ◌==◌,
}
use text.Mathlib.TextEquality.{eq_iff}
use enoch.Base.Text.{one_of}
use enoch.ReviewUrls.{push, merge_group, merge_groups, merge_review_urls}

-- No text occurs in `seen` or before itself.
unfoldable pub distinct_from : List String → List String → Bool
distinct_from seen [] = true
distinct_from seen (x ∷ xs) = not (one_of x seen) && distinct_from (push seen x) xs

one_of-push :
    (u : String) (xs : List String) (x : String) → one_of u (push xs x) ≡ (one_of u xs || u == x)
one_of-push u [] x = ground arith
one_of-push u (y ∷ ys) x = ground (arith, one_of-push u ys x)

distinct_from-push :
    (seen xs : List String) (x : String)
    → distinct_from seen (push xs x) ≡ (distinct_from seen xs && not (one_of x seen || one_of x xs))
unfolding distinct_from
distinct_from-push seen [] x = ground arith
distinct_from-push seen (y ∷ ys) x =
    ground (arith, distinct_from-push (push seen y) ys x, one_of-push x seen y)

merge_group-union :
    (u : String) (merged group : List String)
    → one_of u (merge_group merged group) ≡ (one_of u merged || one_of u group)
unfolding merge_group
merge_group-union u merged [] = ground arith
merge_group-union u merged (x ∷ xs) = elim (Bool-cases (one_of x merged)) [
  | inl e ↦ rw e (elim (Bool-cases (u == x)) [
    | inl same ↦ ground (arith, merge_group-union u merged xs, same, present same e)
    | inr other ↦ ground (arith, merge_group-union u merged xs, other)
  ])
  | inr e ↦ rw e (ground (arith, merge_group-union u (push merged x) xs, one_of-push u merged x))
]
  where
    present : (u == x) ≡ true → one_of x merged ≡ true → one_of u merged ≡ true
    present same e = subst (λ (v : String). one_of v merged ≡ true) (sym ((eq_iff u x).0 same)) e

merge_group-distinct :
    (merged group : List String)
    → distinct_from [] merged ≡ true
    → distinct_from [] (merge_group merged group) ≡ true
unfolding merge_group
merge_group-distinct merged [] h = h
merge_group-distinct merged (x ∷ xs) h = elim (Bool-cases (one_of x merged)) [
  | inl e ↦ rw e (merge_group-distinct merged xs h)
  | inr e ↦ rw e (
      merge_group-distinct (push merged x) xs
        (ground (arith, distinct_from-push [] merged x, h, e)))
]

merge_groups-union :
    (u : String) (merged : List String) (groups : List (List String))
    → one_of u (merge_groups merged groups)
      ≡ (one_of u merged || any (λ group. one_of u group) groups)
unfolding merge_groups
merge_groups-union u merged [] = ground arith
merge_groups-union u merged (g ∷ gs) =
    ground (arith, merge_groups-union u (merge_group merged g) gs, merge_group-union u merged g)

merge_groups-distinct :
    (merged : List String) (groups : List (List String))
    → distinct_from [] merged ≡ true
    → distinct_from [] (merge_groups merged groups) ≡ true
unfolding merge_groups
merge_groups-distinct merged [] h = h
merge_groups-distinct merged (g ∷ gs) h =
    merge_groups-distinct (merge_group merged g) gs (merge_group-distinct merged g h)

-- The merged review addresses are those that occur in some group, and none occurs twice.
pub merge_review_urls-IsUnion :
    (u : String) (groups : List (List String))
    → (one_of u (merge_review_urls groups) ≡ any (λ group. one_of u group) groups)
      × (distinct_from [] (merge_review_urls groups) ≡ true)
unfolding merge_review_urls distinct_from
merge_review_urls-IsUnion u groups =
    (merge_groups-union u [] groups, merge_groups-distinct [] groups refl)
