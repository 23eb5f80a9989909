-- ===== src/Queue/Count.antt =====
-- How often an id occurs among the tasks of a queue, and which lists hold only tasks that can be
-- read back.
use enoch.Base.{
  ℕ, ◌+◌, ◌≡◌, refl, ap₂, true, Option, none, some, List, [], ◌∷◌, ◌++◌, arith, eqb, traverse,
  is_some, if◌then◌else◌, inl, inr, Option-cases, some-injective,
}
use enoch.Job.{TaskJob}
use enoch.Job.Reparse.{reparse}
use enoch.Job.Facts.{id-reparse, reparse_stable}
use enoch.Queue.Types.{QueueData}
use enoch.Queue.Store.{parsed_jobs, bind}

-- 1 for a task with the id, 0 for any other.
abbrev pub one : ℕ → TaskJob → ℕ
one n job = if eqb job.id n then 1 else 0

unfoldable pub count : ℕ → List TaskJob → ℕ
count n [] = 0
count n (job ∷ jobs) = one n job + count n jobs

abbrev pub count_option : ℕ → Option TaskJob → ℕ
count_option n none = 0
count_option n (some job) = one n job

-- The occurrences of an id in the whole queue.
abbrev pub tasks_with_id : ℕ → QueueData → ℕ
tasks_with_id n d =
    count n d.pending + count n d.paused + count_option n d.running + count n d.history

-- The task can be read back, where `urlsplit` returns on its addresses.
abbrev pub IsStored : TaskJob → Type 0
IsStored job = is_some (reparse job) ≡ true

pub data AllStored : List TaskJob → Type 0 where
  nil : AllStored []
  cons :
      {job : TaskJob} {jobs : List TaskJob} → IsStored job → AllStored jobs → AllStored (job ∷ jobs)

abbrev pub OptionStored : Option TaskJob → Type 0
OptionStored none = Unit
OptionStored (some job) = IsStored job

pub count-append : (n : ℕ) (xs ys : List TaskJob) → count n (xs ++ ys) ≡ count n xs + count n ys
unfolding count
count-append n [] ys = omega arith
count-append n (x ∷ xs) ys = omega (arith, count-append n xs ys)

pub AllStored-append : (xs ys : List TaskJob) → AllStored xs → AllStored ys → AllStored (xs ++ ys)
AllStored-append [] ys hx hy = hy
AllStored-append (x ∷ xs) ys (cons h hx) hy = cons h (AllStored-append xs ys hx hy)

pub AllStored-append_left : (xs ys : List TaskJob) → AllStored (xs ++ ys) → AllStored xs
AllStored-append_left [] ys h = nil
AllStored-append_left (x ∷ xs) ys (cons p h) = cons p (AllStored-append_left xs ys h)

pub AllStored-append_right : (xs ys : List TaskJob) → AllStored (xs ++ ys) → AllStored ys
AllStored-append_right [] ys h = h
AllStored-append_right (x ∷ xs) ys (cons p h) = AllStored-append_right xs ys h

-- What a stored task is read back as.
pub reparsed :
    (job : TaskJob)
    → IsStored job
    → (j : TaskJob) × (reparse job ≡ some j) × (j.id ≡ job.id) × IsStored j
reparsed job h = elim (Option-cases (reparse job)) [
  | inl e ↦ absurd (not_some (reparse job) h e)
  | inr (j, e) ↦ (j, e, id-reparse job j e, reparse_stable job j e)
]
  where
    not_some : (o : Option TaskJob) → is_some o ≡ true → o ≡ none → ⊥
    not_some o p q = ground arith

pub one-reparse : (n : ℕ) (j j' : TaskJob) → j'.id ≡ j.id → one n j' ≡ one n j
one-reparse n j j' e = rw e

-- Reading a stored list back keeps every id, and gives a stored list.
pub count-parsed :
    (n : ℕ) (xs : List TaskJob) → AllStored xs → count n (parsed_jobs xs) ≡ count n xs
unfolding count
count-parsed n [] h = refl
count-parsed n (x ∷ xs) (cons p h) =
    let (j, e, same, again) = reparsed x p in
    rw e (ap₂ (λ (a b : ℕ). a + b) (one-reparse n x j same) (count-parsed n xs h))

pub AllStored-parsed : (xs : List TaskJob) → AllStored xs → AllStored (parsed_jobs xs)
AllStored-parsed [] h = nil
AllStored-parsed (x ∷ xs) (cons p h) =
    let (j, e, same, again) = reparsed x p in rw e (cons again (AllStored-parsed xs h))

pub count-running :
    (n : ℕ) (o : Option TaskJob)
    → OptionStored o
    → count_option n (bind o reparse) ≡ count_option n o
count-running n none h = refl
count-running n (some x) p = let (j, e, same, again) = reparsed x p in rw e (one-reparse n x j same)

pub OptionStored-running : (o : Option TaskJob) → OptionStored o → OptionStored (bind o reparse)
OptionStored-running none h = tt
OptionStored-running (some x) p = let (j, e, same, again) = reparsed x p in rw e again

-- A list that could be read whole.
pub traverse-reparse :
    (xs : List TaskJob) {ys : List TaskJob}
    → traverse reparse xs ≡ some ys
    → AllStored ys × ((n : ℕ) → count n ys ≡ count n xs)
unfolding count
traverse-reparse [] {ys} h = rw (← some-injective h) (nil, λ n. refl)
traverse-reparse (x ∷ xs) {ys} h = elim (Option-cases (reparse x)) [
  | inl e ↦ absurd (ground (arith, e))
  | inr (j, e) ↦ elim (Option-cases (traverse reparse xs)) [
    | inl r ↦ absurd (ground (arith, e, r))
    | inr (zs, r) ↦
        let same : ys ≡ j ∷ zs = ground (arith, e, r) in
        let (stored, counts) = traverse-reparse xs r in
        rw same (
          cons (reparse_stable x j e) stored,
          λ n. ap₂ (λ (a b : ℕ). a + b) (one-reparse n x j (id-reparse x j e)) (counts n),
        )
  ]
]

pub count-split :
    (n : ℕ) (xs b : List TaskJob) (j : TaskJob) (a : List TaskJob)
    → xs ≡ b ++ j ∷ a
    → count n xs ≡ count n (b ++ a) + one n j
unfolding count
count-split n xs b j a e = rw e (omega (arith, count-append n b (j ∷ a), count-append n b a))

pub AllStored-split :
    (b : List TaskJob) (j : TaskJob) (a : List TaskJob)
    → AllStored (b ++ j ∷ a)
    → IsStored j × AllStored (b ++ a)
AllStored-split [] j a (cons p h) = (p, h)
AllStored-split (x ∷ b) j a (cons p h) = let (q, rest) = AllStored-split b j a h in (q, cons p rest)
