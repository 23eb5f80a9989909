-- ===== src/Occurrences/Daily.antt =====
-- src/enoch/schedules.py: the targets of a daily schedule in a zone whose offset never changes.
use enoch.Base.{ℕ, ◌+◌, ◌-◌, ◌*◌, ◌/◌, ◌≤◌, ◌<◌, ◌≡◌, arith, Bool-cases, inl, inr, leb}
use enoch.Base.Int.{pos}
use enoch.Occurrences.{second, day, whole_seconds, Zone, local_daily_instant, next_daily_instant}

-- A zone that is `offset` seconds ahead of UTC.
unfoldable pub ahead_by : ℕ → Zone
ahead_by offset = record {
  wall_of = λ t. t + offset * second;
  instant_of = λ fold w. w - offset * second;
  utcoffset = λ t. pos offset;
}

local_instant-eq :
    (offset date time : ℕ)
    → offset * second ≤ date * day
    → local_daily_instant date (time * second) (ahead_by offset) + offset * second
      ≡ date * day + time * second
unfolding local_daily_instant ahead_by
local_instant-eq offset date time h =
    let whole : (date * day + time * second - offset * second) / second * second
        ≡ date * day + time * second - offset * second =
      omega arith in
    ground (arith, whole)

-- In a zone that is always the same number of seconds ahead of UTC, and from its second day on,
-- the next run of a daily schedule is at the given time of a local day, after the current time to
-- the second, and at most a day after it.
pub next_daily_instant-fixed :
    (offset time current : ℕ)
    → time < 86400
    → day + offset * second ≤ current
    → (days : ℕ) × (next_daily_instant (time * second) (ahead_by offset) current + offset * second
        ≡ days * day + time * second)
      × (whole_seconds current < next_daily_instant (time * second) (ahead_by offset) current)
      × (next_daily_instant (time * second) (ahead_by offset) current ≤ whole_seconds current + day)
unfolding next_daily_instant ahead_by
next_daily_instant-fixed offset time current t h =
    let moment = whole_seconds current in
    let date = (moment + offset * second) / day in
    let today = local_instant-eq offset date time (omega (arith, h)) in
    let tomorrow = local_instant-eq offset (date + 1) time (omega (arith, h)) in
    elim (Bool-cases (leb (local_daily_instant date (time * second) (ahead_by offset)) moment)) [
      | inl e ↦ (
        date + 1,
        rw e tomorrow,
        rw e (ground (arith, tomorrow)),
        rw e (ground (arith, today, tomorrow, e, t)),
      )
      | inr e ↦ (date, rw e today, rw e (ground (arith, e)), rw e (ground (arith, today, t)))
    ]
