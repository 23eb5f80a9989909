-- ===== src/ReviewUrls/Split.antt =====
-- src/enoch/tasks/queue.py: review addresses on which `urlsplit` returns.
use enoch.Base.{◌≡◌, refl, String, Bool, true, List, [], ◌∷◌, arith, Bool-cases, inl, inr}
use enoch.Base.Text.{strip, one_of}
use enoch.Base.Text.Laws.{strip-strip}
use enoch.ReviewUrls.{
  push, merge_group, merge_review_urls, web_urls, is_web_url, web_review_urls, all_split,
}

module _ (splits : String → Bool) where
  all_split-push :
      (xs : List String) (x : String)
      → all_split splits xs ≡ true
      → splits (strip x) ≡ true
      → all_split splits (push xs x) ≡ true
  unfolding all_split
  all_split-push [] x h k = ground arith
  all_split-push (y ∷ ys) x h k = ground (arith, all_split-push ys x (ground (arith, h)) k)

  -- Merging makes no new address.
  all_split-merge_group :
      (merged group : List String)
      → all_split splits merged ≡ true
      → all_split splits group ≡ true
      → all_split splits (merge_group merged group) ≡ true
  unfolding all_split merge_group
  all_split-merge_group merged [] h k = h
  all_split-merge_group merged (x ∷ xs) h k = elim (Bool-cases (one_of x merged)) [
    | inl e ↦ rw e (all_split-merge_group merged xs h (ground (arith, k)))
    | inr e ↦ rw e (
        all_split-merge_group (push merged x) xs (all_split-push merged x h (ground (arith, k)))
          (ground (arith, k)))
  ]

  pub all_split-merge_two :
      (xs ys : List String)
      → all_split splits xs ≡ true
      → all_split splits ys ≡ true
      → all_split splits (merge_review_urls (xs ∷ ys ∷ [])) ≡ true
  unfolding merge_review_urls all_split
  all_split-merge_two xs ys h k =
      all_split-merge_group (merge_group [] xs) ys (all_split-merge_group [] xs start h) k
    where
      start : all_split splits [] ≡ true
      start = refl

  all_split-web_urls :
      (items : List String)
      → all_split splits items ≡ true
      → all_split splits (web_urls items) ≡ true
  unfolding all_split web_urls
  all_split-web_urls [] h = refl
  all_split-web_urls (x ∷ xs) h =
      let rest = all_split-web_urls xs (ground (arith, h)) in
      let first : splits (strip x) ≡ true = ground (arith, h) in
      elim (Bool-cases (is_web_url (strip x))) [
        | inl e ↦ rw e (rw (strip-strip x, first) rest)
        | inr e ↦ rw e rest
      ]

  pub all_split-web_review_urls :
      (items : List String)
      → all_split splits items ≡ true
      → all_split splits (web_review_urls items) ≡ true
  unfolding web_review_urls merge_review_urls all_split
  all_split-web_review_urls items h =
      all_split-merge_group [] (web_urls items) start (all_split-web_urls items h)
    where
      start : all_split splits [] ≡ true
      start = refl
