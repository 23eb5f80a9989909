-- ===== src/Queue/Readable.antt =====
-- src/enoch/tasks/queue.py: reading a file that the queue has written.
use enoch.Base.{
  ◌≡◌, refl, Bool, true, false, Option, some, none, List, [], ◌∷◌, traverse, is_some, Option-cases,
  Bool-cases, inl, inr, arith, String, ◌&&◌, ◌++◌, sym, ◌∙◌,
}
use enoch.Base.Text.{strip, truthy}
use enoch.Base.Text.Laws.{strip-strip}
use enoch.ReviewUrls.{all_split}
use enoch.Job.{TaskJob}
use enoch.Job.Reparse.{reparse}
use enoch.Job.Facts.{reparse_stable}
use enoch.Queue.Types.{
  QueueData, TaskReconciliationResult, Result, ok, err, World, Outcome, raise, leave, commit,
}
use enoch.Queue.Store.{
  parsed_jobs, bind, write_queue, load_data, load_queue, transaction, finish, run_body,
  parse_present, reparse_reconciliation, all_parse, first_problem, stored_jobs, singleton,
}
use enoch.Queue.Parsing.{
  some-of, adds_split, all_add_split, first_problem-parsed, first_problem-append,
}
use enoch.Queue.Count.{AllStored, nil, cons}
use enoch.Queue.Invariant.{Writes, written}

-- The queue was read.
abbrev pub is_ok : Result QueueData → Bool
is_ok (ok d) = true
is_ok (err e) = false

parsed-AllStored : (xs : List TaskJob) → AllStored (parsed_jobs xs)
parsed-AllStored [] = nil
parsed-AllStored (x ∷ xs) = elim (Option-cases (reparse x)) [
  | inl e ↦ rw e (parsed-AllStored xs)
  | inr (j, e) ↦ rw e (cons (reparse_stable x j e) (parsed-AllStored xs))
]

traverse-AllStored :
    (xs : List TaskJob) → AllStored xs → (ys : List TaskJob) × (traverse reparse xs ≡ some ys)
traverse-AllStored [] nil = ([], refl)
traverse-AllStored (x ∷ xs) (cons p h) =
    let (j, e) = some-of (reparse x) p in
    let (ys, es) = traverse-AllStored xs h in (j ∷ ys, rw (e, es) refl)

-- A value that parses, where it may be absent.
present :
    {A : Type 0} (parse : A → Option A) (a : A)
    → is_some (parse a) ≡ true
    → (o : Option A) × (parse_present parse (some a) ≡ some o)
present {A} parse a h = go (parse a) h
  where
    go :
        (o : Option A)
        → is_some o ≡ true
        → (r : Option A) × ((elim o [ none ↦ none | some b ↦ some (some b) ]) ≡ some r)
    go none h = absurd (cc)
    go (some b) h = (some b, refl)

running-reads :
    (o : Option TaskJob) → (j : Option TaskJob) × (parse_present reparse (bind o reparse) ≡ some j)
running-reads none = (none, refl)
running-reads (some x) = elim (Option-cases (reparse x)) [
  | inl e ↦ (none, rw e refl)
  | inr (j, e) ↦ rw e (present reparse j (reparse_stable x j e))
]

reconciliation_stable :
    (r : TaskReconciliationResult) {r' : TaskReconciliationResult}
    → reparse_reconciliation r ≡ some r'
    → is_some (reparse_reconciliation r') ≡ true
unfolding reparse_reconciliation
reconciliation_stable r {r'} h = elim (Bool-cases (truthy (strip r.checked_at))) [
  | inl t ↦
      let same : r'.checked_at ≡ strip r.checked_at = ground (arith, t, h) in
      rw (same, strip-strip r.checked_at, t) refl
  | inr f ↦ absurd (ground (arith, f, h))
]

reconciliation-reads :
    (o : Option TaskReconciliationResult)
    → (r : Option TaskReconciliationResult) × (parse_present reparse_reconciliation
          (bind o reparse_reconciliation)
        ≡ some r)
reconciliation-reads none = (none, refl)
reconciliation-reads (some x) = elim (Option-cases (reparse_reconciliation x)) [
  | inl e ↦ (none, rw e refl)
  | inr (j, e) ↦ rw e (present reparse_reconciliation j (reconciliation_stable x e))
]

-- A condition on all tasks of a list holds on both parts.
both_parts :
    (f : List TaskJob → Bool) (p : TaskJob → Bool) (start : f [] ≡ true)
    (step : (x : TaskJob) (xs : List TaskJob) → f (x ∷ xs) ≡ (p x && f xs)) (xs ys : List TaskJob)
    → f (xs ++ ys) ≡ true
    → (f xs ≡ true) × (f ys ≡ true)
both_parts f p start step [] ys h = (start, h)
both_parts f p start step (x ∷ xs) ys h =
    let whole = sym (step x (xs ++ ys)) ∙ h in
    let (a, b) = both_parts f p start step xs ys (ground (arith, whole)) in
    (step x xs ∙ ground (arith, whole, a), b)

first_problem-parsed_append :
    (splits : String → Bool) (xs ys zs : List TaskJob)
    → all_parse splits (xs ++ ys) ≡ true
    → all_add_split splits (xs ++ ys) ≡ true
    → (all_parse splits ys ≡ true → all_add_split splits ys ≡ true → first_problem splits zs ≡ none)
    → first_problem splits (parsed_jobs xs ++ zs) ≡ none
unfolding all_parse all_add_split
first_problem-parsed_append splits xs ys zs h k rest =
    let (a, b) =
      both_parts (all_parse splits) (λ j. all_split splits j.review_urls) refl (λ x l. refl) xs ys
        h in
    let (c, d) = both_parts (all_add_split splits) (adds_split splits) refl (λ x l. refl) xs ys k in
    first_problem-append splits (parsed_jobs xs) zs (first_problem-parsed splits xs a c) (rest b d)

running-parsed : (o : Option TaskJob) → singleton (bind o reparse) ≡ parsed_jobs (singleton o)
running-parsed none = refl
running-parsed (some x) = elim (Option-cases (reparse x)) [
  | inl e ↦ rw e refl
  | inr (j, e) ↦ rw e refl
]

write_queue-no_problem :
    (splits : String → Bool) (d : QueueData)
    → all_parse splits (stored_jobs d) ≡ true
    → all_add_split splits (stored_jobs d) ≡ true
    → first_problem splits (stored_jobs (write_queue d)) ≡ none
unfolding write_queue
write_queue-no_problem splits d h k = first_problem-parsed_append splits d.pending _ _ h k λ h k.
    first_problem-parsed_append splits d.paused _ _ h k λ h k.
      first_problem-parsed_append splits d.history (singleton d.running) _ h k
        λ h k. rw (running-parsed d.running) (first_problem-parsed splits (singleton d.running) h k)

-- A dictionary that is written without an error, where `urlsplit` also returns on the review
-- addresses that stand in the results of its tasks and on their review address, makes a file that
-- is read without an error.
pub load_data-write_queue :
    (splits : String → Bool) (d : QueueData)
    → all_parse splits (stored_jobs d) ≡ true
    → all_add_split splits (stored_jobs d) ≡ true
    → is_ok (load_data splits (write_queue d)) ≡ true
unfolding load_data write_queue
load_data-write_queue splits d h k =
    let (p, ep) = traverse-AllStored (parsed_jobs d.pending) (parsed-AllStored d.pending) in
    let (q, eq) = traverse-AllStored (parsed_jobs d.paused) (parsed-AllStored d.paused) in
    let (t, et) = traverse-AllStored (parsed_jobs d.history) (parsed-AllStored d.history) in
    let (o, eo) = running-reads d.running in
    let (r, er) = reconciliation-reads d.reconciliation in
    rw (write_queue-no_problem splits d h k, ep, eq, et, eo, er) refl

-- When the queue can be read before a transaction, and `urlsplit` returns on the review addresses
-- in the results of the tasks that the body hands to `_write_queue`, and on their review address,
-- the queue can be read after the transaction, whatever the body does and whether the write
-- raises: the next load finds no invalid task and raises no `ValueError`.
pub transaction-readable :
    {A : Type 0} (body : QueueData → Outcome A) (w : World)
    → is_ok (load_queue w) ≡ true
    → ((d : QueueData)
        → load_queue w ≡ ok d
        → Writes (λ d'. all_add_split w.splits (stored_jobs d') ≡ true) (body d))
    → is_ok (load_queue (transaction body w).1) ≡ true
unfolding transaction load_queue
transaction-readable {A} body w h adds = go (load_queue w) (λ d e. adds d e)
  where
    end :
        (o : Outcome A)
        → Writes (λ d'. all_add_split w.splits (stored_jobs d') ≡ true) o
        → is_ok (load_queue (finish w o).1) ≡ true
    end (raise e) k = h
    end (leave a) k = h
    end (commit d events a) (written k) = elim (Bool-cases (all_parse w.splits (stored_jobs d))) [
      | inl e ↦ rw e (load_data-write_queue w.splits d e k)
      | inr e ↦ rw e h
    ]

    go :
        (r : Result QueueData)
        → ((d : QueueData)
            → r ≡ ok d
            → Writes (λ d'. all_add_split w.splits (stored_jobs d') ≡ true) (body d))
        → is_ok (load_queue (run_body w body r).1) ≡ true
    go (err e) k = h
    go (ok d) k = end (body d) (k d refl)
