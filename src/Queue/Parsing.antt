-- ===== src/Queue/Parsing.antt =====
-- src/enoch/tasks/queue.py: `_parse_job` of a task that it returned, with the addresses on which
-- `urlsplit` raises.
use enoch.Base.{
  ◌≡◌, refl, Bool, true, Option, some, none, List, [], ◌∷◌, is_some, Option-cases, Bool-cases, inl,
  inr, arith, String, ◌&&◌, ◌++◌, ap, sym, ◌∙◌,
}
use enoch.Base.Text.{strip}
use enoch.ReviewUrls.{all_split, review_urls_in, parse_review_urls}
use enoch.ReviewUrls.Split.{all_split-merge_two, all_split-web_review_urls}
use enoch.Job.{TaskJob, ConversationId}
use enoch.Job.Reparse.{reparse, clean_job, one_url, Payload}
use enoch.Job.Facts.{reparse_stable, finish_parse-eq-some}
use enoch.Queue.Types.{Result, ok, err, Error}
use enoch.Queue.Store.{parsed_jobs, parse_job, all_parse, first_problem, problem_of}

-- What is there.
pub some-of : {A : Type 0} (o : Option A) → is_some o ≡ true → (a : A) × (o ≡ some a)
some-of none h = absurd (cc)
some-of (some a) h = (a, refl)

-- The addresses that reading a task adds to its `review_urls`.
abbrev pub adds_split : (String → Bool) → TaskJob → Bool
adds_split splits job =
    all_split splits (review_urls_in (strip job.result))
    && all_split splits (one_url (strip job.review_url))

unfoldable pub all_add_split : (String → Bool) → List TaskJob → Bool
all_add_split splits [] = true
all_add_split splits (job ∷ jobs) = adds_split splits job && all_add_split splits jobs

clean_job-splits :
    (splits : String → Bool) (j : TaskJob) (chat : ConversationId) (payload : Payload)
    → all_split splits j.review_urls ≡ true
    → adds_split splits j ≡ true
    → all_split splits (clean_job j chat payload).review_urls ≡ true
unfolding clean_job
clean_job-splits splits j chat payload h k =
    all_split-merge_two splits _ _
      (all_split-merge_two splits _ _ (all_split-web_review_urls splits j.review_urls h)
        (ground (arith, k)))
      (ground (arith, k))

reparse-splits :
    (splits : String → Bool) (j : TaskJob) {j' : TaskJob}
    → reparse j ≡ some j'
    → all_split splits j.review_urls ≡ true
    → adds_split splits j ≡ true
    → all_split splits j'.review_urls ≡ true
unfolding reparse
reparse-splits splits j e h k =
    let (payload, chat, hp, hc, hb, same) = finish_parse-eq-some j _ _ _ e in
    rw same (clean_job-splits splits j chat payload h k)

-- A task whose addresses are accepted.
pub parse_job-eq :
    (splits : String → Bool) (j : TaskJob)
    → all_split splits j.review_urls ≡ true
    → parse_job splits j ≡ ok (reparse j)
unfolding parse_job parse_review_urls
parse_job-eq splits j h = rw h refl

parse_job-splits :
    (splits : String → Bool) (j : TaskJob) {o : Option TaskJob}
    → parse_job splits j ≡ ok o
    → (all_split splits j.review_urls ≡ true) × (reparse j ≡ o)
unfolding parse_job parse_review_urls
parse_job-splits splits j {o} h = elim (Bool-cases (all_split splits j.review_urls)) [
  | inl e ↦ (e, ok-injective (sym (rw e refl) ∙ h))
  | inr e ↦ absurd (refused (rw e at h))
]
  where
    ok-injective : {a b : Option TaskJob} → ok a ≡ ok b → a ≡ b
    ok-injective h = cc

    refused : {e : Error} {a : Option TaskJob} → err e ≡ ok a → ⊥
    refused h = absurd (cc)

-- When `_parse_job` returns a job for a task, and `urlsplit` returns on the review addresses in
-- the result of the task and on its review address, `_parse_job` returns a job for that job
-- again.
pub parse_job_stable :
    (splits : String → Bool) (j : TaskJob) {j' : TaskJob}
    → parse_job splits j ≡ ok (some j')
    → adds_split splits j ≡ true
    → (j'' : TaskJob) × (parse_job splits j' ≡ ok (some j''))
parse_job_stable splits j {j'} h k =
    let (split, e) = parse_job-splits splits j h in
    let (j'', again) = some-of (reparse j') (reparse_stable j j' e) in
    (j'', parse_job-eq splits j' (reparse-splits splits j e split k) ∙ ap ok again)

pub first_problem-parsed :
    (splits : String → Bool) (xs : List TaskJob)
    → all_parse splits xs ≡ true
    → all_add_split splits xs ≡ true
    → first_problem splits (parsed_jobs xs) ≡ none
unfolding first_problem all_parse all_add_split
first_problem-parsed splits [] h k = refl
first_problem-parsed splits (x ∷ xs) h k =
    let rest = first_problem-parsed splits xs (ground (arith, h)) (ground (arith, k)) in
    elim (Option-cases (reparse x)) [
      | inl e ↦ rw e rest
      | inr (j, e) ↦
          let own = parse_job-eq splits x (ground (arith, h)) ∙ ap ok e in
          let (j'', again) = parse_job_stable splits x own (ground (arith, k)) in rw (e, again) rest
    ]

pub first_problem-append :
    (splits : String → Bool) (xs ys : List TaskJob)
    → first_problem splits xs ≡ none
    → first_problem splits ys ≡ none
    → first_problem splits (xs ++ ys) ≡ none
unfolding first_problem
first_problem-append splits [] ys h k = k
first_problem-append splits (x ∷ xs) ys h k =
    let (j, own, rest) = passed (parse_job splits x) h in
    rw own (first_problem-append splits xs ys rest k)
  where
    passed :
        (r : Result (Option TaskJob)) {later : Option Error}
        → problem_of r later ≡ none
        → (j : TaskJob) × (r ≡ ok (some j)) × (later ≡ none)
    passed (err e) h = absurd (cc)
    passed (ok none) h = absurd (cc)
    passed (ok (some j)) h = (j, refl, h)
