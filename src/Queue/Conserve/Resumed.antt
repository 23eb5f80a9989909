-- ===== src/Queue/Conserve/Resumed.antt =====
-- src/enoch/tasks/queue.py: the ids in a queue before and after `resume_paused_tasks`.
use enoch.Base.{
  ℕ, ◌+◌, ◌≡◌, refl, ap, String, Bool, true, false, not, Option, none, some, List, [], ◌∷◌, ◌++◌,
  arith, eqb, ltb, any, keep, map, if◌then◌else◌, inl, inr, Bool-cases,
}
use enoch.Job.{TaskJob}
use enoch.Job.Reparse.{reparse}
use enoch.Queue.Types.{QueueData, leave, commit, on_list}
use enoch.Queue.Store.{parsed_jobs}
use enoch.Queue.Count.{
  count, one, AllStored, nil, cons, count-append, AllStored-append, count-parsed, AllStored-parsed,
}
use enoch.Queue.Stored.{finish_again}
use enoch.Queue.Invariant.{IsStoredData, Kept, Writes, left, written}
use enoch.Queue.Pause.{resumed_job, selected_by, id_among, resumed_event, resume_body}

-- A test on the id keeps all tasks with an id or none.
pub count-keep :
    (n : ℕ) (q : ℕ → Bool) (xs : List TaskJob)
    → count n (keep (λ j. q j.id) xs) ≡ (if q n then count n xs else 0)
unfolding count
count-keep n q [] = elim (Bool-cases (q n)) [ inl e ↦ rw e refl | inr e ↦ rw e refl ]
count-keep n q (x ∷ xs) =
    step (q x.id) (q n) (λ e. ap q (eqb-sound x.id n e)) (keep (λ j. q j.id) xs) (count-keep n q xs)
  where
    eqb-sound : (a b : ℕ) → eqb a b ≡ true → a ≡ b
    eqb-sound a b e = ground arith

    step :
        (b c : Bool)
        → (eqb x.id n ≡ true → b ≡ c)
        → (rest : List TaskJob) → count n rest ≡ (if c then count n xs else 0)
        → count n (if b then x ∷ rest else rest) ≡ (if c then one n x + count n xs else 0)
    step true true k rest h = ap (λ (m : ℕ). one n x + m) h
    step true false k rest h = elim (Bool-cases (eqb x.id n)) [
      | inl e ↦ absurd (ground (arith, k e))
      | inr e ↦ ground (arith, e, h)
    ]
    step false true k rest h = elim (Bool-cases (eqb x.id n)) [
      | inl e ↦ absurd (ground (arith, k e))
      | inr e ↦ ground (arith, e, h)
    ]
    step false false k rest h = h

pub AllStored-keep : (p : TaskJob → Bool) (xs : List TaskJob) → AllStored xs → AllStored (keep p xs)
AllStored-keep p [] nil = nil
AllStored-keep p (x ∷ xs) (cons h s) = go (p x) (keep p xs) (AllStored-keep p xs s)
  where
    go :
        (b : Bool) (rest : List TaskJob) → AllStored rest → AllStored (if b then x ∷ rest else rest)
    go true rest r = cons h r
    go false rest r = r

-- The id occurs among the tasks.
any-count : (n : ℕ) (xs : List TaskJob) → any (λ other. eqb n other.id) xs ≡ ltb 0 (count n xs)
unfolding count
any-count n [] = refl
any-count n (x ∷ xs) = ground (arith, any-count n xs)

resumed-stored : (xs : List TaskJob) → AllStored xs → AllStored (map resumed_job xs)
unfolding reparse resumed_job
resumed-stored [] nil = nil
resumed-stored (x ∷ xs) (cons h s) =
    cons (finish_again x (resumed_job x) _ _ _ h) (resumed-stored xs s)

resumed-count : (n : ℕ) (xs : List TaskJob) → count n (map resumed_job xs) ≡ count n xs
unfolding count resumed_job
resumed-count n [] = refl
resumed-count n (x ∷ xs) = ap (λ (k : ℕ). one n x + k) (resumed-count n xs)

-- Those selected by id, and those that share no id with them, are all of them.
count-selected :
    (n : ℕ) (task_id : Option ℕ) (xs : List TaskJob)
    → count n (keep (selected_by task_id) xs)
        + count n (keep (λ j. not (id_among (keep (selected_by task_id) xs) j)) xs)
      ≡ count n xs
count-selected n task_id xs =
    let chosen = keep (selected_by task_id) xs in
    let rest = count-keep n (λ m. not (any (λ other. eqb m other.id) chosen)) xs in
    let found = any-count n chosen in
    elim (Bool-cases (ltb 0 (count n chosen))) [
      | inl e ↦ ground (arith, whole task_id e, rest, found, e)
      | inr e ↦ ground (arith, rest, found, e)
    ]
  where
    whole :
        (i : Option ℕ)
        → ltb 0 (count n (keep (selected_by i) xs)) ≡ true
        → count n (keep (selected_by i) xs) ≡ count n xs
    whole none e = count-keep n (λ m. true) xs
    whole (some i) e = ground (arith, count-keep n (λ m. eqb m i) xs, e)

-- On a queue whose tasks can all be read back, where `urlsplit` returns on their addresses,
-- whatever `resume_paused_tasks` writes, for one id or for all paused tasks, holds the same ids
-- as often as before, has the same next id, and holds only tasks that can be read back, where
-- `urlsplit` returns on their addresses.
pub resume_body-Kept :
    (task_id : Option ℕ) (event_actor trigger : String) (d : QueueData)
    → IsStoredData d
    → Writes (Kept d) (resume_body task_id event_actor trigger d)
unfolding resume_body
resume_body-Kept task_id event_actor trigger d s =
    go (keep (selected_by task_id) (parsed_jobs d.paused))
      (AllStored-keep (selected_by task_id) (parsed_jobs d.paused) paused)
      (λ n. count-selected n task_id (parsed_jobs d.paused))
  where
    paused : AllStored (parsed_jobs d.paused)
    paused = AllStored-parsed d.paused s.paused

    go :
        (selected : List TaskJob)
        → AllStored selected
        → ((n : ℕ)
            → count n selected
                + count n (keep (λ j. not (id_among selected j)) (parsed_jobs d.paused))
              ≡ count n (parsed_jobs d.paused))
        → Writes (Kept d) (
            on_list selected (leave []) (λ job jobs.
              let chosen = job ∷ jobs in
              let resumed = map resumed_job chosen in
              commit
                (record d {
                  paused = keep (λ j. not (id_among chosen j)) (parsed_jobs d.paused);
                  pending = resumed ++ parsed_jobs d.pending;
                })
                (map (resumed_event event_actor trigger) resumed)
                resumed))
    go [] h k = left []
    go (job ∷ jobs) h k = written (record {
      stored = record {
        pending =
            AllStored-append (map resumed_job (job ∷ jobs)) (parsed_jobs d.pending)
              (resumed-stored (job ∷ jobs) h) (AllStored-parsed d.pending s.pending);
        paused = AllStored-keep (λ j. not (id_among (job ∷ jobs) j)) (parsed_jobs d.paused) paused;
        running = s.running;
        history = s.history;
      };
      same = λ n. omega (
        arith,
        k n,
        resumed-count n (job ∷ jobs),
        count-append n (map resumed_job (job ∷ jobs)) (parsed_jobs d.pending),
        count-parsed n d.pending s.pending,
        count-parsed n d.paused s.paused,
      );
      next = refl;
    })
