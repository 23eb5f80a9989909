-- ===== src/Queue/Order.antt =====
-- src/enoch/tasks/queue.py: which pending task `begin_next_task` chooses.
use enoch.Base.{
  ◌≡◌, refl, sym, ◌∙◌, subst, String, Bool, true, false, not, ◌&&◌, none, some, List, [], ◌∷◌, ◌++◌,
  all, ◌==◌, if◌then◌else◌, some-injective, ◌⊎◌, inl, inr, Bool-cases, arith, ap,
}
use mathlib.Core.List.{append-nil, append_assoc}
use enoch.Base.Text.{truthy, one_of}
use enoch.Job.{TaskJob}
use enoch.Queue.Clock.{Clock, task_is_due}
use text.Mathlib.TextEquality.{eq_iff}
use enoch.Queue.Types.{QueueData}
use enoch.Queue.Store.{parsed_jobs, running_job}
use enoch.Queue.Invariant.{Writes, left, written, Writes-on_option}
use enoch.Queue.Begin.{
  first_ready, task_is_ready, lane_predecessors_finished, blocked_lanes, begin_next_body,
  started_job,
}
use enoch.Queue.Conserve.Starts.{first_ready-eq-some}

-- None of the tasks is ready, each after those before it.
unfoldable pub none_ready : Clock → List String → List TaskJob → List TaskJob → Bool
none_ready clock blocked ps [] = true
none_ready clock blocked ps (x ∷ xs) =
    not (task_is_ready clock blocked ps x) && none_ready clock blocked (ps ++ x ∷ []) xs

-- The tasks before the chosen one are those passed over, and none of them is ready.
first_ready-passes :
    (clock : Clock) (blocked : List String) (ps xs : List TaskJob) {b a : List TaskJob}
    {j : TaskJob}
    → first_ready clock blocked ps xs ≡ some (b, j, a)
    → (passed : List TaskJob) × (b ≡ ps ++ passed) × (none_ready clock blocked ps passed ≡ true)
unfolding first_ready none_ready
first_ready-passes clock blocked ps [] h = absurd (cc)
first_ready-passes clock blocked ps (x ∷ xs) {b} {a} {j} h =
    go (task_is_ready clock blocked ps x) refl h
      (first_ready-passes clock blocked (ps ++ x ∷ []) xs)
  where
    go :
        (t : Bool)
        → task_is_ready clock blocked ps x ≡ t
        → (if t then some (ps, x, xs) else first_ready clock blocked (ps ++ x ∷ []) xs)
          ≡ some (b, j, a)
        → (first_ready clock blocked (ps ++ x ∷ []) xs ≡ some (b, j, a)
            → (passed : List TaskJob) × (b ≡ (ps ++ x ∷ []) ++ passed)
              × (none_ready clock blocked (ps ++ x ∷ []) passed ≡ true))
        → (passed : List TaskJob) × (b ≡ ps ++ passed) × (none_ready clock blocked ps passed ≡ true)
    go true e h rest =
        let same = some-injective h in ([], (λ i. (sym same i).0) ∙ sym (append-nil ps), refl)
    go false e h rest =
        let (passed, whole, quiet) = rest h in
        (x ∷ passed, whole ∙ append_assoc ps (x ∷ []) passed, rw e quiet)

-- When the search of `begin_next_task` finds a task, the pending tasks are those before it, the
-- task and those behind it, in their order; the task is ready, and no task before it is ready
-- after those before that one.
pub first_ready-IsFirst :
    (clock : Clock) (blocked : List String) (xs : List TaskJob) {b a : List TaskJob} {j : TaskJob}
    → first_ready clock blocked [] xs ≡ some (b, j, a)
    → (xs ≡ b ++ j ∷ a)
      × (task_is_ready clock blocked b j ≡ true)
      × (none_ready clock blocked [] b ≡ true)
first_ready-IsFirst clock blocked xs {b} {a} {j} h =
    let (split, ready) = first_ready-eq-some clock blocked [] xs h in
    let (passed, whole, quiet) = first_ready-passes clock blocked [] xs h in
    (
      split,
      ready,
      subst (λ (l : List TaskJob). none_ready clock blocked [] l ≡ true) (sym whole) quiet,
    )

-- When the search of `begin_next_task` finds no task, none of the tasks it went through is ready
-- after those before it.
pub first_ready-eq-none :
    (clock : Clock) (blocked : List String) (ps xs : List TaskJob)
    → first_ready clock blocked ps xs ≡ none
    → none_ready clock blocked ps xs ≡ true
unfolding first_ready none_ready
first_ready-eq-none clock blocked ps [] h = refl
first_ready-eq-none clock blocked ps (x ∷ xs) h =
    go (task_is_ready clock blocked ps x) h (first_ready-eq-none clock blocked (ps ++ x ∷ []) xs)
  where
    go :
        (t : Bool)
        → (if t then some (ps, x, xs) else first_ready clock blocked (ps ++ x ∷ []) xs) ≡ none
        → (first_ready clock blocked (ps ++ x ∷ []) xs ≡ none
            → none_ready clock blocked (ps ++ x ∷ []) xs ≡ true)
        → (not t && none_ready clock blocked (ps ++ x ∷ []) xs) ≡ true
    go true h rest = absurd (cc)
    go false h rest = rest h

-- What a task in a lane that is ready satisfies.
task_is_ready-lane :
    (clock : Clock) (blocked : List String) (before : List TaskJob) (job : TaskJob)
    → task_is_ready clock blocked before job ≡ true
    → (task_is_due clock job ≡ true)
      × ((truthy job.execution_lane ≡ false)
          ⊎ ((truthy job.execution_lane ≡ true)
              × (one_of job.execution_lane blocked ≡ false)
              × (all (λ other. not (other.execution_lane == job.execution_lane)) before ≡ true)))
unfolding task_is_ready lane_predecessors_finished
task_is_ready-lane clock blocked before job k =
    go (task_is_due clock job) (truthy job.execution_lane) (one_of job.execution_lane blocked)
      (all (λ other. not (other.execution_lane == job.execution_lane)) before) k
  where
    go :
        (due lane held free : Bool)
        → (due && (if not lane then true else not held && free)) ≡ true
        → (due ≡ true) × ((lane ≡ false) ⊎ ((lane ≡ true) × (held ≡ false) × (free ≡ true)))
    go false lane held free k = absurd (cc)
    go true false held free k = (refl, inl refl)
    go true true true free k = absurd (cc)
    go true true false free k = (refl, inr (refl, refl, k))

-- A lane that is not blocked is that of no paused task.
lane-free :
    (lane : String) (paused : List TaskJob)
    → truthy lane ≡ true
    → one_of lane (blocked_lanes paused) ≡ false
    → all (λ other. not (other.execution_lane == lane)) paused ≡ true
unfolding blocked_lanes
lane-free lane [] h k = refl
lane-free lane (p ∷ ps) h k = elim (Bool-cases (truthy p.execution_lane)) [
  | inl e ↦
      let seen = rw e at k in
      let rest = lane-free lane ps h (ground (arith, seen)) in
      ground (arith, differs p.execution_lane lane (ground (arith, seen)), rest)
  | inr e ↦
      let rest = lane-free lane ps h (rw e at k) in
      ground (arith, blank p.execution_lane lane e h, rest)
]
  where
    differs : (a b : String) → (b == a) ≡ false → (a == b) ≡ false
    differs a b h = elim (Bool-cases (a == b)) [
      | inl e ↦ absurd (cc (sym ((eq_iff b a).1 (sym ((eq_iff a b).0 e))) ∙ h))
      | inr e ↦ e
    ]

    blank : (a b : String) → truthy a ≡ false → truthy b ≡ true → (a == b) ≡ false
    blank a b h k = elim (Bool-cases (a == b)) [
      | inl e ↦ absurd (cc (sym h ∙ ap truthy ((eq_iff a b).0 e) ∙ k))
      | inr e ↦ e
    ]

-- What starting a task writes: the task is due and leaves the pending ones for the running one,
-- and if it has a lane, neither a paused task nor a pending one before it has that lane.
pub record StartedInOrder (clock : Clock) (d d' : QueueData) : Type 0 where
  pub before : List TaskJob
  pub job : TaskJob
  pub behind : List TaskJob
  pub started : TaskJob
  pub was : parsed_jobs d.pending ≡ before ++ job ∷ behind
  pub pending : d'.pending ≡ before ++ behind
  pub running : d'.running ≡ some started
  pub same_id : started.id ≡ job.id
  pub due : task_is_due clock job ≡ true
  pub lane :
      (truthy job.execution_lane ≡ false)
      ⊎ ((all (λ other. not (other.execution_lane == job.execution_lane)) (parsed_jobs d.paused)
            ≡ true)
          × (all (λ other. not (other.execution_lane == job.execution_lane)) before ≡ true))

-- When `begin_next_task` writes, it takes one pending task out, which becomes the running one;
-- the task is due, and if it has a lane, neither a paused task nor a pending task before it has
-- that lane.
pub begin_next_body-StartedInOrder :
    (clock : Clock) (now : String) (d : QueueData)
    → Writes (StartedInOrder clock d) (begin_next_body clock now d)
unfolding begin_next_body started_job
begin_next_body-StartedInOrder clock now d =
    Writes-on_option (running_job d)
      (λ idle.
        Writes-on_option
          (first_ready clock (blocked_lanes (parsed_jobs d.paused)) [] (parsed_jobs d.pending))
          (λ _. left none)
          (λ (before, job, behind) found. written (starts before job behind found)))
      (λ running _. left none)
  where
    starts :
        (before : List TaskJob) (job : TaskJob) (behind : List TaskJob)
        → first_ready clock (blocked_lanes (parsed_jobs d.paused)) [] (parsed_jobs d.pending)
          ≡ some (before, job, behind)
        → StartedInOrder clock d
            (record d { pending = before ++ behind; running = some (started_job job now) })
    starts before job behind found =
        let (split, ready) =
          first_ready-eq-some clock (blocked_lanes (parsed_jobs d.paused)) []
            (parsed_jobs d.pending) found in
        let (due, lane) =
          task_is_ready-lane clock (blocked_lanes (parsed_jobs d.paused)) before job ready in
        record {
          before = before;
          job = job;
          behind = behind;
          started = started_job job now;
          was = split;
          pending = refl;
          running = refl;
          same_id = refl;
          due = due;
          lane = elim lane [
            | inl e ↦ inl e
            | inr (e, f, g) ↦ inr (lane-free job.execution_lane (parsed_jobs d.paused) e f, g)
          ];
        }
