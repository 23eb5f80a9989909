-- ===== src/Schedules/Normal/Dates.antt =====
-- src/enoch/extensions/schedules.py: the dates and identities that an operation writes.
use Prim.Native.String.{String, ◌++◌}
use enoch.Base.{ℕ, ◌-◌, true, some, ◌≡◌, refl, ap, arith, is_some}
use enoch.Base.Text.{truthy, strip, all_chars, is_hex, len}
use enoch.Base.Text.Laws.{strip-append, rstrip-append, rstrip-hex}
use enoch.Queue.Clock.{Clock, Datetime, ahead}
use enoch.Occurrences.{whole_seconds}
use enoch.Schedules.Types.{ExtensionScheduleStatus}
use enoch.Schedules.Claims.{new_claim_id}
use enoch.Schedules.Times.{claim_token, Env, iso, parse_time, coerce_utc}

-- A date in UTC.
abbrev pub utc : ℕ → Datetime
utc t = record { wall = t; tzinfo = some (ahead 0) }

-- What `isoformat` and `fromisoformat` do with a date in UTC, to the second: the text has no blank
-- at its ends, it is not empty, and it is read back.
pub record IsIsoClock (c : Clock) : Type 0 where
  pub stripped :
      (t : ℕ) → strip (c.isoformat (utc (whole_seconds t))) ≡ c.isoformat (utc (whole_seconds t))
  pub full : (t : ℕ) → truthy (c.isoformat (utc (whole_seconds t))) ≡ true
  pub parses :
      (t : ℕ) → c.fromisoformat (c.isoformat (utc (whole_seconds t))) ≡ some (utc (whole_seconds t))

whole_twice : (t : ℕ) → whole_seconds (whole_seconds t - 0) ≡ whole_seconds t
whole_twice t = omega arith

module _ (env : Env) (dates : IsIsoClock env.clock) (t : ℕ) where
  pub strip-iso : strip (iso env t) ≡ iso env t
  unfolding iso
  strip-iso = dates.stripped t

  -- An instant that was written is read back, to the second.
  pub parse_time-iso : parse_time env (iso env t) ≡ some (whole_seconds t)
  unfolding parse_time iso coerce_utc
  parse_time-iso = rw (dates.stripped t, dates.full t, dates.parses t) (ap some (whole_twice t))

  pub iso-reads : is_some (parse_time env (iso env t)) ≡ true
  iso-reads = rw parse_time-iso refl

-- The hexadecimal text of a `uuid4`.
pub record IsHex (hex : String) : Type 0 where
  pub digits : all_chars is_hex hex ≡ true
  pub long : len hex ≡ 32

hex_full : (s : String) → len s ≡ 32 → truthy s ≡ true
hex_full String.[] h = absurd (omega (arith, h))
hex_full (String.◌∷◌ c s) h = refl

module _ (hex : String) (h : IsHex hex) where
  pub run_now_id-clean :
      (strip ("run-now-" ++ hex) ≡ "run-now-" ++ hex) × (truthy ("run-now-" ++ hex) ≡ true)
  run_now_id-clean =
      strip-append "r" "un-now-" hex refl (rstrip-hex hex h.digits) (hex_full hex h.long)

  pub new_claim_id-clean :
      (item : ExtensionScheduleStatus) (occurrence : String)
      → (strip (new_claim_id item occurrence hex) ≡ new_claim_id item occurrence hex)
        × (truthy (new_claim_id item occurrence hex) ≡ true)
  unfolding new_claim_id
  new_claim_id-clean item occurrence =
      let token = claim_token occurrence in
      let (a, a') = rstrip-append "-" hex (rstrip-hex hex h.digits) (hex_full hex h.long) in
      let (b, b') = rstrip-append token _ a a' in
      let (c, c') = rstrip-append "-" _ b b' in
      let (d, d') = rstrip-append item.name _ c c' in
      let (e, e') = rstrip-append "-" _ d d' in
      let (f, f') = rstrip-append item.extension_name _ e e' in
      strip-append "e" "xtension-schedule-" _ refl f f'
