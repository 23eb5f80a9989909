-- ===== src/Occurrences/Examples.antt =====
-- Concrete schedules and zones.
use enoch.Base.{
  ℕ, ◌+◌, ◌*◌, ◌≤◌, ◌<◌, ◌≡◌, refl, true, false, some, none, arith, ltb, if◌then◌else◌,
}
use enoch.Base.Int.{pos, same_int}
use enoch.Base.Text.{strip, split_at}
use enoch.Occurrences.{
  local_daily_instant, second, day, whole_seconds, Zone, next_interval_run, next_daily_instant,
  next_daily_run, normalize_daily_time, time_of_day, offset_change_instant,
}
use enoch.Occurrences.Interval.{IsNextSlot, next_interval_run-IsNextSlot}
use enoch.Occurrences.Change.{offset_change_instant-eq}
use enoch.Occurrences.Daily.{ahead_by, next_daily_instant-fixed}

-- Three hours late on an hourly schedule.
next_interval_run-IsNextSlot_example :
    (next : ℕ) × (next_interval_run (some 7200000000) 3600 18000500000 ≡ some next)
    × IsNextSlot (whole_seconds 7200000000) (3600 * second) (whole_seconds 18000500000) next
next_interval_run-IsNextSlot_example =
    next_interval_run-IsNextSlot 7200000000 3600 18000500000 (omega arith)

-- An hour is left out at the 4th second.
abbrev spring : Zone
spring = record {
  wall_of = λ t. if ltb t 4000000 then t else t + 3600 * second;
  instant_of = λ fold w. w;
  utcoffset = λ t. if ltb t 4000000 then pos 0 else pos 3600;
}

before_change : (x : ℕ) → x < 4 * second → same_int (spring.utcoffset x) (spring.utcoffset 0) ≡ true
before_change x h = ground (arith, h)

after_change : (x : ℕ) → 4 * second ≤ x → same_int (spring.utcoffset x) (spring.utcoffset 0) ≡ false
after_change x h = ground (arith, h)

offset_change_instant-eq_example : offset_change_instant 0 100000000 spring ≡ 4 * second
offset_change_instant-eq_example =
    offset_change_instant-eq spring 0 100000000 4 (omega arith) (omega arith)
      (λ x a. before_change x) (λ x h a. after_change x h)

-- A task at half past six in the morning, two hours ahead of UTC.
next_daily_instant-fixed_example :
    (days : ℕ) × (next_daily_instant (23400 * second) (ahead_by 7200) (10 * day) + 7200 * second
      ≡ days * day + 23400 * second)
    × (whole_seconds (10 * day) < next_daily_instant (23400 * second) (ahead_by 7200) (10 * day))
    × (next_daily_instant (23400 * second) (ahead_by 7200) (10 * day)
        ≤ whole_seconds (10 * day) + day)
next_daily_instant-fixed_example =
    next_daily_instant-fixed 7200 23400 (10 * day) (omega arith) (omega arith)

on_time : next_interval_run (some 7200000000) 3600 7200000000 ≡ some 10800000000
unfolding next_interval_run
on_time = refl

-- A target on the slot itself is left behind.
on_the_slot : next_interval_run (some 0) 60 120000000 ≡ some 180000000
unfolding next_interval_run
on_the_slot = refl

half_past_six : time_of_day " 06:30 " ≡ some (23400 * second)
unfolding time_of_day strip split_at
half_past_six = refl

no_such_hour : normalize_daily_time "24:00" ≡ none
unfolding normalize_daily_time strip
no_such_hour = refl

found :
    next_daily_run (λ name. some (ahead_by 7200)) "06:30" "Europe/Athens" (10 * day)
    ≡ some (10 * day + 16200 * second)
unfolding next_daily_run strip split_at local_daily_instant ahead_by
found = refl

unknown_zone : next_daily_run (λ name. none) "06:30" "Nowhere" (10 * day) ≡ none
unfolding next_daily_run strip split_at
unknown_zone = refl
