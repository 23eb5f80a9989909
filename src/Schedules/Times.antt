-- ===== src/Schedules/Times.antt =====
-- src/enoch/extensions/schedules.py: the instants that a record holds as texts, the texts that
-- name something, and the targets of a schedule. An instant is a number of microseconds. A date
-- before the first day of year 1 is taken to be its midnight.
use Prim.Native.Char.{Char, code}
use Prim.Native.String.{String, ◌++◌}
use enoch.Base.{
  ℕ, suc, ◌+◌, ◌-◌, Bool, true, false, not, ◌&&◌, ◌||◌, Option, none, some, List, [], ◌∷◌, ltb, eqb,
  length, any, traverse, if◌then◌else◌,
}
use enoch.Base.Text.{
  truthy, or_else, one_of, strip, lower, len, contains, is_digit, is_lower_letter, in_range,
}
use enoch.Queue.Clock.{Clock, Datetime, ahead, behind}
use enoch.Occurrences.{Zone, whole_seconds, next_interval_run, next_daily_run}
use enoch.Payloads.Names.{key_name, lane_name}
use enoch.Schedules.Types.{
  ExtensionScheduleSpec, ExtensionScheduleStatus, interval, daily, cadence_of,
}

-- What the code takes from Python: the dates and the time zones.
pub record Env : Type 0 where
  pub clock : Clock
  pub zones : String → Option Zone

-- `.astimezone(timezone.utc)`; a naive date is taken as UTC
abbrev in_utc : Datetime → ℕ
in_utc d = elim d.tzinfo [
  | none ↦ d.wall
  | some (ahead o) ↦ d.wall - o
  | some (behind o) ↦ d.wall + o
]

-- `_coerce_utc`
unfoldable pub coerce_utc : Datetime → ℕ
coerce_utc value = whole_seconds (in_utc value)

-- `_utc_now`
abbrev pub utc_now : Env → ℕ
utc_now env = whole_seconds env.clock.now

-- `_coerce_utc(now) if now is not None else _utc_now()`
abbrev pub current_time : Env → Option Datetime → ℕ
current_time env none = utc_now env
current_time env (some now) = coerce_utc now

-- `_parse_time`
unfoldable pub parse_time : Env → String → Option ℕ
parse_time env value =
    if not (truthy (strip value)) then none else elim (env.clock.fromisoformat value) [
      | none ↦ none
      | some parsed ↦ some (coerce_utc parsed)
    ]

-- `_iso`
unfoldable pub iso : Env → ℕ → String
iso env value = env.clock.isoformat (record { wall = whole_seconds value; tzinfo = some (ahead 0) })

-- The text of a target that may be missing.
abbrev pub text_of : Env → Option ℕ → Option String
text_of env none = none
text_of env (some t) = some (iso env t)

-- `_schedule_name`
unfoldable pub schedule_name : String → Option String
schedule_name value = let name = lower (strip value) in if key_name name then some name else none

-- `_extension_name`
unfoldable pub extension_name : String → Option String
extension_name value = let name = lower (strip value) in if lane_name name then some name else none

-- `_schedule_id`
unfoldable pub schedule_id : String → String → String
schedule_id extension schedule = "extension:" ++ (extension ++ (":" ++ schedule))

abbrev max_run_now_key_chars : ℕ
max_run_now_key_chars = 256

abbrev pub max_run_now_keys : ℕ
max_run_now_keys = 64

-- `_run_now_key`
unfoldable pub run_now_key : String → Option String
run_now_key value =
    let key = strip value in
    if contains key "\n" || ltb max_run_now_key_chars (len key) then none else some key

unfoldable pub distinct_texts : List String → Bool
distinct_texts [] = true
distinct_texts (k ∷ ks) = not (one_of k ks) && distinct_texts ks

abbrev valid_history : Option (List String) → Option (List String)
valid_history none = none
valid_history (some keys) =
    if any (λ key. not (truthy key)) keys
      || ltb max_run_now_keys (length keys)
      || not (distinct_texts keys)
    then none
    else some keys

-- `_run_now_history`
unfoldable pub run_now_history : List String → Option (List String)
unfolding distinct_texts
run_now_history value = valid_history (traverse run_now_key value)

-- `xs[-n:]`
unfoldable pub last : ℕ → List String → List String
last n [] = []
last n (x ∷ xs) = let rest = last n xs in if ltb n (suc (length xs)) then rest else x ∷ xs

-- `(*history, key)`
abbrev pub snoc : List String → String → List String
snoc [] key = key ∷ []
snoc (x ∷ xs) key = x ∷ snoc xs key

-- `_append_run_now_key`
unfoldable pub append_run_now_key : List String → String → List String
unfolding last
append_run_now_key history key =
    if not (truthy key) || one_of key history
    then history
    else last max_run_now_keys (snoc history key)

-- `_error_code`
unfoldable pub error_code : String → String
error_code value =
    let code' = lower (strip (or_else value "schedule_failed")) in
    if key_name code' then code' else "schedule_failed"

-- `_event_actor`
unfoldable pub event_actor : String → String
event_actor value =
    let actor = lower (strip value) in
    if one_of actor ("human" ∷ "agent" ∷ "system" ∷ []) then actor else "agent"

-- `[a-zA-Z0-9]`
abbrev alphanumeric : Char → Bool
alphanumeric c = is_lower_letter c || in_range b'A' b'Z' c || is_digit c

-- `re.sub(r"[^a-zA-Z0-9]+", "-", value)`; the flag tells of a run that was replaced
dashed : Bool → String → String
dashed inside String.[] = String.[]
dashed inside (String.◌∷◌ c s) =
    let kept = dashed false s in
    let dropped = dashed true s in
    if alphanumeric c then String.◌∷◌ c kept else if inside then dropped else "-" ++ dropped

-- `s.strip("-")`
strip_dashes_left : String → String
strip_dashes_left String.[] = String.[]
strip_dashes_left (String.◌∷◌ c s) =
    let rest = strip_dashes_left s in if eqb (code c) b'-' then rest else String.◌∷◌ c s

abbrev keep_unless_dash : Char → String → String
keep_unless_dash c String.[] = if eqb (code c) b'-' then String.[] else String.◌∷◌ c String.[]
keep_unless_dash c (String.◌∷◌ d s) = String.◌∷◌ c (String.◌∷◌ d s)

strip_dashes_right : String → String
strip_dashes_right String.[] = String.[]
strip_dashes_right (String.◌∷◌ c s) = keep_unless_dash c (strip_dashes_right s)

-- `s[-n:]`
last_chars : ℕ → String → String
last_chars n String.[] = String.[]
last_chars n (String.◌∷◌ c s) =
    let rest = last_chars n s in if ltb n (suc (len s)) then rest else String.◌∷◌ c s

-- `_claim_token`
unfoldable pub claim_token : String → String
unfolding dashed strip_dashes_left strip_dashes_right last_chars
claim_token value =
    or_else (last_chars 64 (strip_dashes_right (strip_dashes_left (dashed false value)))) "due"

-- `_next_daily`
abbrev pub next_daily : Env → String → String → ℕ → Option ℕ
next_daily env daily_time timezone current = next_daily_run env.zones daily_time timezone current

-- `_first_run`
unfoldable pub first_run : Env → ExtensionScheduleSpec → ℕ → Option ℕ
first_run env spec current = elim (cadence_of spec.interval_seconds) [
  | interval ↦ next_interval_run none spec.interval_seconds current
  | daily ↦ next_daily env spec.daily_time spec.timezone current
]

-- `_next_run`
unfoldable pub next_run : Env → ExtensionScheduleStatus → ℕ → Option ℕ
next_run env status current = elim status.cadence [
  | daily ↦ next_daily env status.daily_time status.timezone current
  | interval ↦
      next_interval_run (parse_time env status.claim_scheduled_for) status.interval_seconds current
]
