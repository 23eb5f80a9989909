-- ===== src/ReviewUrls/Examples.antt =====
-- Runs of the theorems on review addresses.
use enoch.Base.{◌≡◌, true, [], ◌∷◌}
use enoch.Base.Text.{one_of}
use enoch.ReviewUrls.{merge_review_urls}
use enoch.ReviewUrls.Merge.{distinct_from, merge_review_urls-IsUnion}

merge_review_urls-IsUnion_example :
    (one_of "b" (merge_review_urls (("a" ∷ "b" ∷ []) ∷ ("b" ∷ "c" ∷ []) ∷ [])) ≡ true)
    × (distinct_from [] (merge_review_urls (("a" ∷ "b" ∷ []) ∷ ("b" ∷ "c" ∷ []) ∷ [])) ≡ true)
merge_review_urls-IsUnion_example =
    merge_review_urls-IsUnion "b" (("a" ∷ "b" ∷ []) ∷ ("b" ∷ "c" ∷ []) ∷ [])
