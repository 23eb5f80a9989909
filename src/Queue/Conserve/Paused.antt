-- ===== src/Queue/Conserve/Paused.antt =====
-- src/enoch/tasks/queue.py: the ids in a queue before and after `pause_task`.
use enoch.Base.{
  ℕ, ◌+◌, ◌≡◌, refl, ap, sym, subst, String, true, not, Option, none, some, List, [], ◌∷◌, ◌++◌,
  arith, eqb, ltb, keep, split_first, split_first-eq-some, inl, inr, Bool-cases,
}
use enoch.Base.Text.{strip, lower, truthy}
use enoch.Job.{TaskJob}
use enoch.Job.Reparse.{reparse, terminal_ok}
use enoch.Queue.Conserve.Retried.{no_status}
use enoch.Queue.Types.{QueueData, leave, on_option}
use enoch.Queue.Store.{parsed_jobs, running_job}
use enoch.Queue.Count.{
  count, count_option, one, AllStored, nil, cons, IsStored, OptionStored, count-append,
  AllStored-append, count-parsed, AllStored-parsed, count-split, AllStored-split, one-reparse,
  count-running, OptionStored-running,
}
use enoch.Queue.Stored.{finish_other}
use enoch.Queue.Moves.{running_counts, running-IsStored}
use enoch.Queue.Invariant.{
  IsStoredData, IsSound, Kept, Writes, left, written, Writes-on_option, Writes-if,
}
use enoch.Queue.Finish.{fenced}
use enoch.Queue.Pause.{has_id, paused_job, pause_into, without_first, pause_body}
use enoch.Queue.Conserve.Resumed.{count-keep, AllStored-keep}

-- With each id at most once, removing the first task with an id that another list holds changes
-- nothing.
without_first-absent : (i : ℕ) (xs : List TaskJob) → count i xs ≡ 0 → without_first i xs ≡ xs
unfolding count
without_first-absent i xs h =
    go (split_first (has_id i) xs) (λ b j a e. split_first-eq-some (has_id i) xs e)
  where
    go :
        (o : Option (List TaskJob × TaskJob × List TaskJob))
        → ((b : List TaskJob) (j : TaskJob) (a : List TaskJob)
            → o ≡ some (b, j, a)
            → (xs ≡ b ++ j ∷ a) × (has_id i j ≡ true))
        → (elim o [ none ↦ xs | some (before, job, behind) ↦ before ++ behind ]) ≡ xs
    go none k = refl
    go (some (b, j, a)) k =
        let (split, found) = k b j a refl in
        absurd (ground (arith, count-split i xs b j a split, found, h))

-- The chosen task goes behind the other paused ones.
module _ (d : QueueData) (s : IsStoredData d) (i : ℕ) (chosen : TaskJob) (stored : IsStored chosen)
    (same : chosen.id ≡ i) (none_paused : count i d.paused ≡ 0) where
  others-count :
      (n : ℕ) → count n (keep (λ j. not (has_id i j)) (parsed_jobs d.paused)) ≡ count n d.paused
  others-count n = elim (Bool-cases (eqb n i)) [
    | inl e ↦
        ground (arith, e, none_paused, count-keep n (λ m. not (eqb m i)) (parsed_jobs d.paused))
    | inr e ↦ ground (
      arith,
      e,
      count-keep n (λ m. not (eqb m i)) (parsed_jobs d.paused),
      count-parsed n d.paused s.paused,
    )
  ]

  Kept-pause :
      (result : String) (pending : List TaskJob) (running : Option TaskJob)
      → AllStored pending
      → OptionStored running
      → ((n : ℕ)
          → count n pending + count_option n running + one n chosen
            ≡ count n d.pending + count_option n d.running)
      → Kept d (record d {
        pending = pending;
        running = running;
        paused =
            keep (λ j. not (has_id i j)) (parsed_jobs d.paused) ++ paused_job chosen result ∷ [];
      })
  unfolding count reparse paused_job
  Kept-pause result pending running hp hr total = record {
    stored = record {
      pending = hp;
      paused =
          AllStored-append (keep (λ j. not (has_id i j)) (parsed_jobs d.paused)) _
            (AllStored-keep _ _ (AllStored-parsed d.paused s.paused))
            (cons
              (finish_other chosen (paused_job chosen result) _ _ _ (terminal_ok (lower (strip "")))
                (ltb 0 chosen.id) (truthy (strip chosen.text)) stored no_status)
              nil);
      running = hr;
      history = s.history;
    };
    same = λ n. omega (
      arith,
      total n,
      others-count n,
      one-reparse n chosen (paused_job chosen result) refl,
      count-append n (keep (λ j. not (has_id i j)) (parsed_jobs d.paused))
          (paused_job chosen result ∷ []),
    );
    next = refl;
  }

-- On a sound queue, whatever `pause_task` writes, for a pending or a running task, holds the same
-- ids as often as before, has the same next id, and holds only tasks that can be read back, where
-- `urlsplit` returns on their addresses.
pub pause_body-Kept :
    (i : ℕ) (result event_actor trigger worker_id : String) (d : QueueData)
    → IsSound d
    → Writes (Kept d) (pause_body i result event_actor trigger worker_id d)
unfolding pause_body count
pause_body-Kept i result event_actor trigger worker_id d sound =
    Writes-on_option (running_job d) (λ _. from_pending)
      (λ running found.
        Writes-if (has_id i running)
          (λ same.
            Writes-if (fenced worker_id running) (λ _. left none)
              (λ _. written (from_running running found same)))
          (λ _. from_pending))
  where
    pending : AllStored (parsed_jobs d.pending)
    pending = AllStored-parsed d.pending sound.stored.pending

    from_running :
        (running : TaskJob)
        → running_job d ≡ some running
        → has_id i running ≡ true
        → Kept d (record d {
          pending = without_first i (parsed_jobs d.pending);
          running = none;
          paused =
              keep (λ j. not (has_id i j)) (parsed_jobs d.paused) ++ paused_job running result ∷ [];
        })
    from_running running found same =
        let once = running_counts d sound.stored running found in
        let unchanged = without_first-absent i (parsed_jobs d.pending) (
          ground
            (arith, once i, same, sound.unique i, count-parsed i d.pending sound.stored.pending)) in
        Kept-pause d sound.stored i running (running-IsStored d sound.stored running found)
          (ground (arith, same)) (ground (arith, once i, same, sound.unique i)) result
          (without_first i (parsed_jobs d.pending)) none (subst AllStored (sym unchanged) pending)
          tt
          (λ n.
            omega (
              arith,
              once n,
              ap (count n) unchanged,
              count-parsed n d.pending sound.stored.pending,
            ))

    from_pending : Writes (Kept d) (
        on_option
          (split_first (has_id i) (parsed_jobs d.pending))
          (leave none)
          (λ (before, job, behind).
            pause_into i result event_actor trigger d (before ++ behind) (running_job d) job))
    from_pending =
        Writes-on_option (split_first (has_id i) (parsed_jobs d.pending)) (λ _. left none)
          (λ (before, job, behind) found.
            let (split, same) = split_first-eq-some (has_id i) (parsed_jobs d.pending) found in
            let (stored, others) =
              AllStored-split before job behind (subst AllStored split pending) in
            written (
              Kept-pause d sound.stored i job stored (ground (arith, same))
                (ground (
                  arith,
                  same,
                  sound.unique i,
                  count-split i (parsed_jobs d.pending) before job behind split,
                  count-parsed i d.pending sound.stored.pending,
                ))
                result (before ++ behind) (running_job d) others
                (OptionStored-running d.running sound.stored.running)
                (λ n. omega (
                  arith,
                  count-split n (parsed_jobs d.pending) before job behind split,
                  count-parsed n d.pending sound.stored.pending,
                  count-running n d.running sound.stored.running,
                ))))
