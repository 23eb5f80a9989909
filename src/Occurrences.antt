-- ===== src/Occurrences.antt =====
-- src/enoch/schedules.py: when a schedule runs next. An instant is a number of microseconds since
-- the first day of year 1, in UTC; so is a local time, on its own clock. A zone stands for
-- `ZoneInfo`. `none` is the `ScheduleError` that the code raises. The end of the calendar, where
-- Python raises an OverflowError, is not modelled.
pub mod Interval
pub mod Change
pub mod Daily
mod Examples
use Prim.Native.Char.{code}
use Prim.Native.String.{String}
use enoch.Base.{
  ℕ, zero, suc, ◌+◌, ◌-◌, ◌*◌, ◌/◌, Bool, true, false, not, ◌&&◌, ◌||◌, Option, none, some, List,
  [], ◌∷◌, ltb, leb, eqb, if◌then◌else◌,
}
use enoch.Base.Int.{ℤ, same_int}
use enoch.Base.Text.{truthy, strip, len, split_at, in_range, is_digit}

abbrev pub second : ℕ
second = 1000000

abbrev pub day : ℕ
day = 86400000000

-- What the code asks of a `ZoneInfo`.
pub record Zone : Type 0 where
  -- `instant.astimezone(zone).replace(tzinfo=None)`
  pub wall_of : ℕ → ℕ
  -- `wall.replace(tzinfo=zone, fold=fold).astimezone(timezone.utc)`
  pub instant_of : Bool → ℕ → ℕ
  -- `instant.astimezone(zone).utcoffset()`
  pub utcoffset : ℕ → ℤ

-- `value.replace(microsecond=0)`
abbrev pub whole_seconds : ℕ → ℕ
whole_seconds t = t / second * second

-- `DAILY_TIME_PATTERN.fullmatch`
unfoldable pub daily_time_pattern : String → Bool
daily_time_pattern
      (String.◌∷◌ h (String.◌∷◌ h' (String.◌∷◌ c (String.◌∷◌ m (String.◌∷◌ m' String.[]))))) =
    ((in_range b'0' b'1' h && is_digit h') || (eqb (code h) b'2' && in_range b'0' b'3' h'))
    && eqb (code c) b':'
    && in_range b'0' b'5' m
    && is_digit m'
daily_time_pattern _ = false

unfoldable pub normalize_daily_time : String → Option String
unfolding daily_time_pattern
normalize_daily_time value =
    if not (truthy value)
    then some ""
    else if daily_time_pattern (strip value)
    then some (strip value)
    else none

abbrev pub max_timezone_chars : ℕ
max_timezone_chars = 128

-- `zones` finds a zone by its name, as `ZoneInfo(name)` does.
unfoldable pub normalize_timezone : (String → Option Zone) → String → Option String
normalize_timezone zones value =
    let name = strip value in
    if not (truthy name) || ltb max_timezone_chars (len name)
    then none
    else elim (zones name) [ none ↦ none | some zone ↦ some name ]

abbrev digit_of : String → ℕ
digit_of String.[] = 0
digit_of (String.◌∷◌ c s) = code c - b'0'

-- `int(part)` of two digits
abbrev two_digits : String → ℕ
two_digits String.[] = 0
two_digits (String.◌∷◌ c s) = (code c - b'0') * 10 + digit_of s

abbrev hour_minute : List String → ℕ
hour_minute (h ∷ m ∷ []) = (two_digits h * 3600 + two_digits m * 60) * second
hour_minute _ = 0

-- `_time_of_day`: the microseconds since local midnight
unfoldable pub time_of_day : String → Option ℕ
unfolding normalize_daily_time
time_of_day daily_time = elim (normalize_daily_time daily_time) [
  | none ↦ none
  | some normalized ↦
      if truthy normalized then some (hour_minute (split_at ":" normalized)) else none
]

-- `(after - before) / 2`: `timedelta` rounds half a microsecond to the even one
abbrev pub half : ℕ → ℕ
half n =
    if eqb (n / 2 * 2) n then n / 2 else if eqb (n / 2 / 2 * 2) (n / 2) then n / 2 else n / 2 + 1

-- The loop of `_offset_change_instant`, on fuel.
unfoldable pub narrow : ℕ → Zone → ℤ → ℕ → ℕ → ℕ
narrow zero zone offset before after = after
narrow (suc fuel) zone offset before after =
    let middle = before + half (after - before) in
    let up = narrow fuel zone offset middle after in
    let down = narrow fuel zone offset before middle in
    let inside = if same_int (zone.utcoffset middle) offset then up else down in
    if ltb second (after - before) then inside else after

-- `_offset_change_instant`; each round makes the distance shorter, so that it is fuel enough
unfoldable pub offset_change_instant : ℕ → ℕ → Zone → ℕ
unfolding narrow
offset_change_instant before after zone =
    whole_seconds (narrow (after - before) zone (zone.utcoffset before) before after)

-- A local date is the number of its days.
unfoldable pub local_daily_instant : ℕ → ℕ → Zone → ℕ
unfolding offset_change_instant
local_daily_instant target_date time zone =
    let wall_clock = target_date * day + time in
    let instant = whole_seconds (zone.instant_of false wall_clock) in
    if eqb (zone.wall_of instant) wall_clock
    then instant
    else offset_change_instant (zone.instant_of true wall_clock) instant zone

-- `next_daily_run`, in a zone that was found
unfoldable pub next_daily_instant : ℕ → Zone → ℕ → ℕ
next_daily_instant time zone current =
    let moment = whole_seconds current in
    let target_date = zone.wall_of moment / day in
    let candidate = local_daily_instant target_date time zone in
    if leb candidate moment then local_daily_instant (target_date + 1) time zone else candidate

abbrev daily_run_with : Option ℕ → Option Zone → ℕ → Option ℕ
daily_run_with (some time) (some zone) current = some (next_daily_instant time zone current)
daily_run_with _ _ current = none

abbrev find_zone : (String → Option Zone) → Option String → Option Zone
find_zone zones none = none
find_zone zones (some name) = zones name

-- `next_daily_run`
unfoldable pub next_daily_run : (String → Option Zone) → String → String → ℕ → Option ℕ
unfolding time_of_day normalize_timezone next_daily_instant
next_daily_run zones daily_time timezone_name current =
    daily_run_with (time_of_day daily_time)
      (find_zone zones (normalize_timezone zones timezone_name)) current

-- `next_interval_run` from a target that was aimed at, all in microseconds
abbrev pub after_target : ℕ → ℕ → ℕ → ℕ
after_target target interval moment =
    let candidate = target + interval in
    if ltb moment candidate
    then candidate
    else candidate + ((moment - candidate) / interval + 1) * interval

-- `next_interval_run`
unfoldable pub next_interval_run : Option ℕ → ℕ → ℕ → Option ℕ
next_interval_run scheduled_for zero current = none
next_interval_run none (suc n) current = some (whole_seconds current + suc n * second)
next_interval_run (some target) (suc n) current =
    some (after_target (whole_seconds target) (suc n * second) (whole_seconds current))
