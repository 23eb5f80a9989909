-- ===== src/Schedules/Reach.antt =====
-- src/enoch/extensions/schedules.py: every operation that writes as a step from one world to the
-- next, and the worlds that any sequence of them leads to.
use enoch.Base.{
  ℕ, zero, suc, String, Bool, true, false, not, ◌||◌, Option, none, some, List, [], ◌≡◌, refl,
  if◌then◌else◌, inl, inr, Option-cases,
}
use enoch.Base.Int.{ℤ, pos, negsuc}
use enoch.Base.Text.{strip, truthy}
use enoch.Queue.Clock.{Datetime}
use enoch.Schedules.Types.{ExtensionScheduleStatus, World, Control, ok, Operation, Outcome}
use enoch.Schedules.Times.{
  Env, current_time, extension_name, schedule_name, schedule_id, run_now_key, distinct_texts, iso,
}
use enoch.Schedules.Store.{named, with_names, transaction, load_schedule_data}
use enoch.Schedules.Control.{
  transition_schedule, transition_body, with_key, request_extension_schedule_run, request_body,
}
use enoch.Schedules.Claims.{claim_due_extension_schedules, claim_body}
use enoch.Schedules.Acknowledge.{
  Acknowledgement, acknowledge_schedule, acknowledge_body, enqueued, failed_with,
  record_extension_schedule_task, record_extension_schedule_failure,
}
use enoch.Schedules.Reconcile.{Declarations, gather, reconcile_extension_schedules, reconcile_body}
use enoch.Schedules.Normal.Dates.{IsIsoClock, IsHex}
use enoch.Schedules.Normal.History.{run_now_key_stable}
use enoch.Schedules.Normal.Files.{
  FileIsReadable, transaction-FileIsReadable, load_schedule_data-readable, loaded,
}
use enoch.Schedules.Normal.Updates.{IsCleanResult}
use enoch.Schedules.Normal.Bodies.{
  transition_body-IsReadable, request_body-IsReadable, claim_body-IsReadable,
  acknowledge_body-IsReadable, failed_with-IsCleanResult,
}
use enoch.Schedules.Normal.Gathered.{AllDeclared, gather-IsGathered}
use enoch.Schedules.Normal.Reconciled.{reconcile_body-IsReadable}

-- A call of an operation, with whatever arguments; the declarations are those that were built, and
-- the texts of a `uuid4` are hexadecimal.
pub data Step (env : Env) (w : World) : World → Type 0 where
  reconciles :
      (declarations : Declarations) (now : Option Datetime)
      → AllDeclared env declarations
      → Step env w (reconcile_extension_schedules env declarations now w).1
  moves :
      (operation : Control) (extension name : String) (now : Option Datetime) (actor : String)
      → Step env w (transition_schedule env operation extension name now actor w).1
  requests :
      (extension name : String) (now : Option Datetime) (key actor hex : String)
      → IsHex hex
      → Step env w (request_extension_schedule_run env extension name now key actor hex w).1
  claims :
      (now : Option Datetime) (hexes : ℕ → String)
      → ((n : ℕ) → IsHex (hexes n))
      → Step env w (claim_due_extension_schedules env now hexes w).1
  succeeds :
      (schedule : String) (task_id : ℤ) (claim : String) (now : Option Datetime)
      → Step env w (record_extension_schedule_task env schedule task_id claim now w).1
  fails :
      (schedule claim code error : String) (now : Option Datetime)
      → Step env w (record_extension_schedule_failure env schedule claim code error now w).1

pub data Steps (env : Env) (w : World) : World → Type 0 where
  done : Steps env w w
  next : {v u : World} → Steps env w v → Step env v u → Steps env w u

module _ (env : Env) (dates : IsIsoClock env.clock) (w : World)
    (h : FileIsReadable env w.file) where
  -- The checks of the names come before the transaction.
  with_names-FileIsReadable :
      {A : Type 0} (extension name : String) (operation : String → String → Operation A)
      → ((e n : String) → FileIsReadable env (operation e n w).1.file)
      → FileIsReadable env (with_names extension name operation w).1.file
  with_names-FileIsReadable {A} extension name operation keeps =
      go (extension_name extension) (schedule_name name)
    where
      go : (o p : Option String) → FileIsReadable env (named o p operation w).1.file
      go none p = h
      go (some e) none = h
      go (some e) (some n) = keeps e n

  pub acknowledge_schedule-FileIsReadable :
      (schedule claim : String) (now : Option Datetime) (a : Acknowledgement)
      → IsCleanResult a
      → FileIsReadable env (acknowledge_schedule env schedule claim now a w).1.file
  unfolding acknowledge_schedule
  acknowledge_schedule-FileIsReadable schedule claim now a c =
      go (not (truthy (strip schedule)) || not (truthy (strip claim)))
    where
      body : List ExtensionScheduleStatus → Outcome (Option ExtensionScheduleStatus)
      body = acknowledge_body env (current_time env now) (strip schedule) (strip claim) a

      go :
          (b : Bool)
          → FileIsReadable env (if b then (ok none, w) else transaction env body w).1.file
      go true = h
      go false =
          transaction-FileIsReadable env body
            (λ items r.
              acknowledge_body-IsReadable env dates (current_time env now) items r (strip schedule)
                (strip claim) a c)
            w h

  transition_schedule-FileIsReadable :
      (operation : Control) (extension name : String) (now : Option Datetime) (actor : String)
      → FileIsReadable env (transition_schedule env operation extension name now actor w).1.file
  unfolding transition_schedule
  transition_schedule-FileIsReadable operation extension name now actor =
      with_names-FileIsReadable extension name _ (λ e n.
        transaction-FileIsReadable env
          (transition_body operation (schedule_id e n) n (iso env (current_time env now)) actor)
          (λ items r.
            transition_body-IsReadable env dates (current_time env now) items r operation
              (schedule_id e n) n actor)
          w h)

  pub request_extension_schedule_run-FileIsReadable :
      (extension name : String) (now : Option Datetime) (key actor hex : String)
      → IsHex hex
      → FileIsReadable env
          (request_extension_schedule_run env extension name now key actor hex w).1.file
  unfolding request_extension_schedule_run
  request_extension_schedule_run-FileIsReadable extension name now key actor hex d =
      with_names-FileIsReadable extension name _
        (λ e n. keyed e n (run_now_key key) (λ k p. run_now_key_stable key p))
    where
      keyed :
          (e n : String) (o : Option String)
          → ((k : String) → o ≡ some k → run_now_key k ≡ some k)
          → FileIsReadable env
              (with_key o
                (λ k.
                  transaction env
                    (request_body (schedule_id e n) n hex (iso env (current_time env now)) k actor))
                w).1.file
      keyed e n none p = h
      keyed e n (some k) p =
          transaction-FileIsReadable env
            (request_body (schedule_id e n) n hex (iso env (current_time env now)) k actor)
            (λ items r.
              request_body-IsReadable env dates (current_time env now) items r (schedule_id e n) n
                hex k actor d (p k refl))
            w h

  record_extension_schedule_task-FileIsReadable :
      (schedule : String) (task_id : ℤ) (claim : String) (now : Option Datetime)
      → FileIsReadable env (record_extension_schedule_task env schedule task_id claim now w).1.file
  unfolding record_extension_schedule_task strip
  record_extension_schedule_task-FileIsReadable schedule (pos zero) claim now = h
  record_extension_schedule_task-FileIsReadable schedule (pos (suc n)) claim now =
      acknowledge_schedule-FileIsReadable schedule claim now (enqueued (suc n))
        (record { outcome = refl; code = refl; task = refl })
  record_extension_schedule_task-FileIsReadable schedule (negsuc n) claim now = h

  reconcile_extension_schedules-FileIsReadable :
      (declarations : Declarations) (now : Option Datetime)
      → AllDeclared env declarations
      → FileIsReadable env (reconcile_extension_schedules env declarations now w).1.file
  unfolding reconcile_extension_schedules distinct_texts
  reconcile_extension_schedules-FileIsReadable declarations now d =
      elim (Option-cases (gather declarations [])) [
        | inl e ↦ rw (e, reconcile_extension_schedules) h
        | inr (desired, e) ↦
            let g =
              gather-IsGathered env declarations [] d (record { all = tt; distinct = refl }) e in
            rw (e, reconcile_extension_schedules)
              (transaction-FileIsReadable env (reconcile_body env (current_time env now) desired)
                (λ items r.
                  reconcile_body-IsReadable env dates (current_time env now) desired items g r)
                w h)
      ]

-- Every operation keeps the file readable.
Step-FileIsReadable :
    (env : Env) (w u : World)
    → IsIsoClock env.clock
    → FileIsReadable env w.file
    → Step env w u
    → FileIsReadable env u.file
unfolding claim_due_extension_schedules record_extension_schedule_failure
Step-FileIsReadable env w _ dates h (reconciles declarations now d) =
    reconcile_extension_schedules-FileIsReadable env dates w h declarations now d
Step-FileIsReadable env w _ dates h (moves operation extension name now actor) =
    transition_schedule-FileIsReadable env dates w h operation extension name now actor
Step-FileIsReadable env w _ dates h (requests extension name now key actor hex d) =
    request_extension_schedule_run-FileIsReadable env dates w h extension name now key actor hex d
Step-FileIsReadable env w _ dates h (claims now hexes d) =
    transaction-FileIsReadable env (claim_body env (current_time env now) hexes)
      (λ items r. claim_body-IsReadable env dates (current_time env now) hexes d items r) w h
Step-FileIsReadable env w _ dates h (succeeds schedule task_id claim now) =
    record_extension_schedule_task-FileIsReadable env dates w h schedule task_id claim now
Step-FileIsReadable env w _ dates h (fails schedule claim code error now) =
    acknowledge_schedule-FileIsReadable env dates w h schedule claim now (failed_with code error)
      (failed_with-IsCleanResult code error)

-- And so does any sequence of them.
pub Steps-FileIsReadable :
    (env : Env) (w u : World)
    → IsIsoClock env.clock
    → FileIsReadable env w.file
    → Steps env w u
    → FileIsReadable env u.file
Steps-FileIsReadable env w u dates h done = h
Steps-FileIsReadable env w u dates h (next {v = v} steps step) =
    Step-FileIsReadable env v u dates (Steps-FileIsReadable env w v dates h steps) step

-- For a clock that reads back the dates it prints, and from a file that is absent or readable
-- (every record is read back as it is, but for blanks around its error, and no identity stands
-- twice), any sequence of reconciliations with specs that were built, pauses, resumptions,
-- requests for a run, claims and acknowledgements, with whatever other arguments and whether each
-- succeeds or raises, leaves a file that is read, and not refused as corrupted.
pub Steps-readable :
    (env : Env) (w u : World)
    → IsIsoClock env.clock
    → FileIsReadable env w.file
    → Steps env w u
    → load_schedule_data env u ≡ ok (loaded u.file)
Steps-readable env w u dates h s =
    load_schedule_data-readable env u (Steps-FileIsReadable env w u dates h s)
