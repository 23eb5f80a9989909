-- ===== src/Queue/Unreadable.antt =====
-- src/enoch/tasks/queue.py: a file with a task that cannot be read.
use enoch.Base.{
  ◌≡◌, refl, ap, ◌∙◌, String, Bool, true, false, not, ◌||◌, none, some, List, [], ◌∷◌, any, is_some,
  inl, inr, Bool-cases, Option-cases,
}
use enoch.ReviewUrls.{all_split, parse_review_urls}
use enoch.Job.{TaskJob}
use enoch.Job.Reparse.{reparse}
use enoch.Queue.Types.{QueueData, ok, err, Error, value_error, state_corruption, Outcome, World}
use enoch.Queue.Store.{
  parse_job, first_problem, stored_jobs, load_data, load_queue, transaction, run_body, empty_queue,
}
use enoch.Queue.Parsing.{parse_job-eq}

-- `urlsplit` raises on an address of the task, or `_parse_job` gives `None` for it.
abbrev pub is_unreadable : (String → Bool) → TaskJob → Bool
is_unreadable splits job = not (all_split splits job.review_urls) || not (is_some (reparse job))

parse_job-refused :
    (splits : String → Bool) (j : TaskJob)
    → all_split splits j.review_urls ≡ false
    → (e : Error) × (parse_job splits j ≡ err e)
unfolding parse_job parse_review_urls
parse_job-refused splits j h = (value_error "urlsplit", rw h refl)

first_problem-exists :
    (splits : String → Bool) (xs : List TaskJob)
    → any (is_unreadable splits) xs ≡ true
    → (e : Error) × (first_problem splits xs ≡ some e)
unfolding first_problem
first_problem-exists splits [] h = absurd (cc)
first_problem-exists splits (x ∷ xs) h = elim (Bool-cases (all_split splits x.review_urls)) [
  | inr f ↦ let (e, own) = parse_job-refused splits x f in (e, rw own refl)
  | inl t ↦ elim (Option-cases (reparse x)) [
    | inl e ↦
        (state_corruption "found an invalid task", rw (parse_job-eq splits x t ∙ ap ok e) refl)
    | inr (j, e) ↦
        let (p, rest) = first_problem-exists splits xs (rw (t, e) at h) in
        (p, rw (parse_job-eq splits x t ∙ ap ok e) rest)
  ]
]

-- When the file holds a task that cannot be read, because `urlsplit` raises on one of its review
-- addresses or `_parse_job` gives `None` for it, a transaction raises, whatever its body, and
-- changes neither the file nor the events.
pub unreadable_task-changes_nothing :
    {A : Type 0} (body : QueueData → Outcome A) (w : World) (raw : QueueData)
    → w.file ≡ some raw
    → any (is_unreadable w.splits) (stored_jobs raw) ≡ true
    → (e : Error) × (transaction body w ≡ (err e, w))
unfolding transaction load_queue load_data
unreadable_task-changes_nothing body w raw found h =
    let (e, problem) = first_problem-exists w.splits (stored_jobs raw) h in
    (e, ap (run_body w body) (loads e problem))
  where
    loads : (e : Error) → first_problem w.splits (stored_jobs raw) ≡ some e → load_queue w ≡ err e
    loads e problem =
        ap (λ f. elim f [ none ↦ load_data w.splits empty_queue | some r ↦ load_data w.splits r ])
          found
        ∙ rw problem refl
