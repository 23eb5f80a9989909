-- ===== src/Queue/Clock.antt =====
-- src/enoch/tasks/queue.py: when a retry is due. Parsing and printing of ISO 8601 dates is
-- Python's `datetime`, which a `Clock` stands for; a date is held in microseconds.
use Prim.Native.Char.{code}
use Prim.Native.String.{String, ◌++◌}
use enoch.Base.{ℕ, ◌+◌, ◌*◌, ◌/◌, Bool, true, Option, none, some, eqb, leb, not, if◌then◌else◌}
use enoch.Base.Int.{ℤ, clamp_zero}
use enoch.Base.Text.{truthy}
use enoch.Job.{TaskJob}

-- The distance of a local time from UTC.
pub data Offset : Type 0 where
  ahead behind : ℕ → Offset

-- `tzinfo` is `none` for a naive date.
pub record Datetime : Type 0 where
  pub wall : ℕ
  pub tzinfo : Option Offset

pub record Clock : Type 0 where
  pub fromisoformat : String → Option Datetime
  pub isoformat : Datetime → String
  -- `datetime.now(timezone.utc)`, in microseconds
  pub now : ℕ

-- `s.replace("Z", "+00:00")`
unfoldable pub replace_z : String → String
replace_z String.[] = String.[]
replace_z (String.◌∷◌ c s) =
    let rest = replace_z s in if eqb (code c) b'Z' then "+00:00" ++ rest else String.◌∷◌ c rest

-- A naive date is taken as UTC.
abbrev offset_or_utc : Option Offset → Offset
offset_or_utc none = ahead 0
offset_or_utc (some o) = o

-- `due <= now`, of a local time and its offset
abbrev at_most : ℕ → Offset → ℕ → Bool
at_most wall (ahead o) now = leb wall (now + o)
at_most wall (behind o) now = leb (wall + o) now

-- `_task_is_due`
unfoldable pub task_is_due : Clock → TaskJob → Bool
unfolding replace_z
task_is_due clock job =
    if not (truthy job.next_attempt_at)
    then true
    else elim (clock.fromisoformat (replace_z job.next_attempt_at)) [
      | none ↦ true
      | some due ↦ at_most due.wall (offset_or_utc due.tzinfo) clock.now
    ]

-- `.replace(microsecond=0) + timedelta(seconds=max(0, delay_seconds))`
abbrev later : ℕ → ℤ → ℕ
later wall delay_seconds = wall / 1000000 * 1000000 + clamp_zero delay_seconds * 1000000

-- `_retry_at`
unfoldable pub retry_at : Clock → ℤ → String
retry_at clock delay_seconds =
    clock.isoformat (record { wall = later clock.now delay_seconds; tzinfo = some (ahead 0) })

-- `_retry_at_from`
unfoldable pub retry_at_from : Clock → String → ℤ → String
unfolding retry_at replace_z
retry_at_from clock timestamp delay_seconds = elim (clock.fromisoformat (replace_z timestamp)) [
  | none ↦ retry_at clock delay_seconds
  | some base ↦
      clock.isoformat
        (record { wall = later base.wall delay_seconds; tzinfo = some (offset_or_utc base.tzinfo) })
]
