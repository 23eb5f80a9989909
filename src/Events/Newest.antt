-- ===== src/Events/Newest.antt =====
-- src/enoch/tasks/events.py: the events that `load_task_events` returns.
use mathlib.Core.List.{reverse, reverse-reverse}
use enoch.Base.{
  ℕ, zero, suc, Option, List, [], ◌∷◌, filter_map, keep, ◌≡◌, refl, ap, ◌∙◌, inl, inr, Bool-cases,
  Option-cases,
}
use enoch.Events.{TaskEvent}
use enoch.Events.Load.{event_from_line, of_task, add_event, newest_events, load_task_events}

abbrev pub take : ℕ → List TaskEvent → List TaskEvent
take zero events = []
take (suc n) [] = []
take (suc n) (e ∷ events) = e ∷ take n events

newest_events-take :
    (limit : ℕ) (task_id : Option ℕ) (lines : List TaskEvent)
    → newest_events limit task_id lines
      ≡ take limit (keep (of_task task_id) (filter_map event_from_line lines))
unfolding newest_events
newest_events-take zero task_id lines = refl
newest_events-take (suc limit) task_id [] = refl
newest_events-take (suc limit) task_id (line ∷ lines) =
    let all = newest_events-take (suc limit) task_id lines in
    let fewer = newest_events-take limit task_id lines in
    let step : newest_events (suc limit) task_id (line ∷ lines)
        ≡ add_event task_id (event_from_line line) (newest_events limit task_id lines)
            (newest_events (suc limit) task_id lines) =
      refl in
    step ∙ elim (Option-cases (event_from_line line)) [
      | inl e ↦ rw e all
      | inr (event, e) ↦ elim (Bool-cases (of_task task_id event)) [
        | inl p ↦ rw (e, p) (ap (λ l. event ∷ l) fewer)
        | inr p ↦ rw (e, p) all
      ]
    ]

-- From the newest on, the events that are loaded are the first `limit` of those that the lines
-- give, from the last line on, and that belong to the task, if one is asked for.
pub load_task_events-newest :
    (limit : ℕ) (task_id : Option ℕ) (log : List TaskEvent)
    → reverse (load_task_events limit task_id log)
      ≡ take limit (keep (of_task task_id) (filter_map event_from_line (reverse log)))
unfolding load_task_events
load_task_events-newest limit task_id log =
    reverse-reverse (newest_events limit task_id (reverse log))
    ∙ newest_events-take limit task_id (reverse log)
