-- ===== src/Events/Latest.antt =====
-- src/enoch/tasks/events.py: the latest outcomes of the tasks.
use mathlib.Core.List.{reverse, reverse_aux, reverse-reverse}
use enoch.Base.{
  ℕ, zero, suc, ◌≤◌, ◌+◌, true, false, not, ◌&&◌, ◌||◌, Option, none, some, List, [], ◌∷◌, length,
  find, eqb, ◌≡◌, refl, sym, ap, subst, ◌∙◌, arith, inl, inr, Bool-cases,
}
use enoch.Events.{TaskEvent}
use enoch.Events.Load.{
  newest_outcomes, load_recent_task_outcomes, load_task_events, default_limit, is_terminal, is_seen,
}

-- The newest terminal event of a task.
abbrev pub newest_of : ℕ → List TaskEvent → Option TaskEvent
newest_of task_id events = find (λ e. eqb e.task_id task_id && is_terminal e) events

-- Every event is the newest terminal one of its task, and not of a task that was seen.
abbrev pub AllNewest : List TaskEvent → List ℕ → List TaskEvent → Type 0
AllNewest events seen [] = Unit
AllNewest events seen (o ∷ os) =
    (newest_of o.task_id events ≡ some o)
    × (is_seen seen o.task_id ≡ false)
    × AllNewest events (o.task_id ∷ seen) os

same_id : (n : ℕ) → eqb n n ≡ true
same_id n = ground arith

-- An event that is passed over changes nothing for the tasks that were not seen.
AllNewest-passed :
    (e : TaskEvent) (events : List TaskEvent) (seen : List ℕ) (os : List TaskEvent)
    → (is_seen seen e.task_id || not (is_terminal e)) ≡ true
    → AllNewest events seen os
    → AllNewest (e ∷ events) seen os
AllNewest-passed e events seen [] p h = tt
AllNewest-passed e events seen (o ∷ os) p (a, b, h) = (
  elim (Bool-cases (eqb e.task_id o.task_id && is_terminal e)) [
    | inl q ↦
        let same : e.task_id ≡ o.task_id = ground (arith, q) in
        let ended : is_terminal e ≡ true = ground (arith, q) in
        absurd (cc (rw (ap (is_seen seen) same ∙ b, ended) at p))
    | inr q ↦ rw q a
  ],
  b,
  AllNewest-passed e events (o.task_id ∷ seen) os (ground (arith, p)) h,
)

-- One that is taken is newer than all that follow.
AllNewest-taken :
    (e : TaskEvent) (events : List TaskEvent) (seen : List ℕ) (os : List TaskEvent)
    → is_seen seen e.task_id ≡ true
    → AllNewest events seen os
    → AllNewest (e ∷ events) seen os
AllNewest-taken e events seen os p h = AllNewest-passed e events seen os (rw p refl) h

newest_outcomes-AllNewest :
    (limit : ℕ) (seen : List ℕ) (events : List TaskEvent)
    → AllNewest events seen (newest_outcomes limit seen events)
      × (length (newest_outcomes limit seen events) ≤ limit)
unfolding newest_outcomes
newest_outcomes-AllNewest zero seen events = (tt, omega arith)
newest_outcomes-AllNewest (suc limit) seen [] = (tt, omega arith)
newest_outcomes-AllNewest (suc limit) seen (e ∷ events) =
    let (a, b) = newest_outcomes-AllNewest (suc limit) seen events in
    let (c, d) = newest_outcomes-AllNewest limit (e.task_id ∷ seen) events in
    elim (Bool-cases (is_seen seen e.task_id || not (is_terminal e))) [
      | inl p ↦ rw p (AllNewest-passed e events seen _ p a, b)
      | inr p ↦
          let fresh : is_seen seen e.task_id ≡ false = ground (arith, p) in
          let ended : is_terminal e ≡ true = ground (arith, p) in
          rw p (
            (
              rw (same_id e.task_id, ended) refl,
              fresh,
              AllNewest-taken e events (e.task_id ∷ seen) _ (rw (same_id e.task_id) refl) c,
            ),
            omega (arith, d),
          )
    ]

length-onto : (xs ys : List TaskEvent) → length (reverse_aux xs ys) ≡ length xs + length ys
length-onto [] ys = omega arith
length-onto (x ∷ xs) ys = omega (arith, length-onto xs (x ∷ ys))

-- From the newest on, the outcomes that are loaded are each the newest terminal event of its task
-- among the events that are loaded without a limit of the caller, no task occurs twice, and there
-- are at most `limit` of them.
pub load_recent_task_outcomes-AllNewest :
    (limit : ℕ) (log : List TaskEvent)
    → AllNewest
        (reverse (load_task_events default_limit none log))
        []
        (reverse (load_recent_task_outcomes limit log))
      × (length (load_recent_task_outcomes limit log) ≤ limit)
unfolding load_recent_task_outcomes
load_recent_task_outcomes-AllNewest limit log =
    let events = reverse (load_task_events default_limit none log) in
    let newest = newest_outcomes limit [] events in
    let (a, b) = newest_outcomes-AllNewest limit [] events in
    (
      subst (λ l. AllNewest events [] l) (sym (reverse-reverse newest)) a,
      omega (arith, b, length-onto newest []),
    )
