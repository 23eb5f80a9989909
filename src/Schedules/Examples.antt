-- ===== src/Schedules/Examples.antt =====
-- Runs of the theorems on a small file of schedules.
mod Fixtures
use enoch.Base.{
  ℕ, String, Bool, true, false, Option, none, some, List, [], ◌∷◌, ◌≡◌, refl, ◌∙◌, ap, ◌⊎◌, inl,
  inr, find,
}
use enoch.Base.Int.{pos}
use enoch.Base.Text.{strip, lower, truthy}
use enoch.Queue.Clock.{Datetime}
use enoch.Payloads.Names.{lane_name, key_name}
use enoch.Schedules.Types.{
  World, Result, ok, err, pause, resume, run_now, schedule_not_found, ExtensionScheduleStatus,
}
use enoch.Schedules.Times.{
  extension_name, schedule_name, schedule_id, current_time, iso, parse_time, run_now_key,
}
use enoch.Schedules.Store.{load_schedule_data, find_item, transaction, sorted}
use enoch.Schedules.Control.{transition_schedule, request_extension_schedule_run}
use enoch.Schedules.Claims.{claim_due_extension_schedules}
use enoch.Schedules.Acknowledge.{
  acknowledge_schedule, acknowledge_body, acknowledged_status, next_target, enqueued, failed_with,
  record_extension_schedule_task,
}
use enoch.Schedules.Reconcile.{Declarations, reconcile_extension_schedules}
use enoch.Schedules.Normal.Dates.{utc}
use enoch.Schedules.Normal.Files.{loaded, transaction-readable_file}
use enoch.Schedules.Lookup.{record_at}
use enoch.Schedules.Reach.{Steps, done, next, reconciles, claims, succeeds, Steps-readable}
use enoch.Schedules.Once.{acknowledge_schedule-once, acknowledge_schedule-stale}
use enoch.Schedules.Again.{request_extension_schedule_run-again}
use enoch.Schedules.Handed.{claim_due_extension_schedules-hands_out}
use enoch.Schedules.Refine.{answer, record_after}
use enoch.Schedules.Refine.Controls.{transition_spec, transition_schedule-refines}
use enoch.Schedules.Refine.Requests.{request_spec, request_extension_schedule_run-refines}
use enoch.Schedules.Refused.{controls-refused, refusal}
use enoch.Schedules.Examples.Fixtures.{
  env, tally_clock-IsIsoClock, hourly, hourly-IsSpec, hex, hex-IsHex, taken, one_taken,
  one_taken-FileIsReadable,
}

abbrev empty : World
empty = record { file = none; events = [] }

abbrev declarations : Declarations
declarations = ("news", hourly ∷ []) ∷ []

abbrev declared : World
declared = (reconcile_extension_schedules env declarations (some (utc 0)) empty).1

abbrev claimed : World
claimed = (claim_due_extension_schedules env (some (utc 90000000)) (λ n. hex) declared).1

Steps-readable_example : load_schedule_data env claimed ≡ ok (loaded claimed.file)
Steps-readable_example = Steps-readable env empty claimed tally_clock-IsIsoClock tt (
    next (next done (reconciles declarations (some (utc 0)) ((hourly-IsSpec, tt), tt)))
      (claims (some (utc 90000000)) (λ n. hex) (λ n. hex-IsHex)))

taken_at : record_at (strip "extension:news:digest") one_taken.file ≡ some taken
unfolding strip sorted
taken_at = refl

acknowledge_schedule-stale_example :
    acknowledge_schedule env "extension:news:digest" "c2" none (enqueued 7) one_taken
    ≡ (ok none, one_taken)
unfolding strip
acknowledge_schedule-stale_example =
    acknowledge_schedule-stale env one_taken "extension:news:digest" "c2" none (enqueued 7) taken
      one_taken-FileIsReadable taken_at refl

abbrev released : ExtensionScheduleStatus
released = acknowledged_status env 0 "d1110" (enqueued 7) taken

acknowledged :
    (acknowledge_schedule env "extension:news:digest" "c1" none (enqueued 7) one_taken).0
    ≡ ok (some released)
unfolding acknowledge_schedule acknowledge_body next_target strip sorted
acknowledged =
    ap (λ (p : Result (Option ExtensionScheduleStatus) × World). p.0)
      (transaction-readable_file env
        (acknowledge_body env 0 "extension:news:digest" "c1" (enqueued 7)) one_taken
        one_taken-FileIsReadable)

acknowledge_schedule-once_example :
    acknowledge_schedule env "extension:news:digest" "c1" none
      (failed_with "" "late")
      (acknowledge_schedule env "extension:news:digest" "c1" none (enqueued 7) one_taken).1
    ≡ (
      ok none,
      (acknowledge_schedule env "extension:news:digest" "c1" none (enqueued 7) one_taken).1,
    )
unfolding strip
acknowledge_schedule-once_example =
    acknowledge_schedule-once env tally_clock-IsIsoClock one_taken one_taken-FileIsReadable
      "extension:news:digest" "c1" none (enqueued 7)
      (record { outcome = refl; code = refl; task = refl }) released none (failed_with "" "late")
      acknowledged

claim_due_extension_schedules-hands_out_example :
    (cs : List ExtensionScheduleStatus) × (c : ExtensionScheduleStatus)
    × ((claim_due_extension_schedules env none (λ n. hex) one_taken).0 ≡ ok cs)
    × (find_item (strip "extension:news:digest") cs ≡ some c)
    × (record_at
          (strip "extension:news:digest")
          (claim_due_extension_schedules env none (λ n. hex) one_taken).1.file
        ≡ some c)
    × (truthy c.claim_id ≡ true)
    × ((truthy taken.claim_id ≡ false) ⊎ (c ≡ taken))
claim_due_extension_schedules-hands_out_example =
    claim_due_extension_schedules-hands_out env tally_clock-IsIsoClock one_taken
      one_taken-FileIsReadable none (λ n. hex) (λ n. hex-IsHex) (strip "extension:news:digest")
      taken taken_at refl refl

news : extension_name "News " ≡ some "news"
unfolding extension_name strip lower lane_name
news = refl

digest : schedule_name "digest" ≡ some "digest"
unfolding schedule_name strip lower key_name
digest = refl

no_key : run_now_key " " ≡ some ""
unfolding run_now_key strip
no_key = refl

transition_schedule-refines_example :
    ((transition_schedule env pause "News " "digest" none "human" one_taken).0
      ≡ answer (
          transition_spec pause "digest"
            (iso env (current_time env none))
            "human"
            (record_at (schedule_id "news" "digest") one_taken.file)))
    × (record_at "extension:news:digest"
          (transition_schedule env pause "News " "digest" none "human" one_taken).1.file
        ≡ record_after
            (transition_spec pause "digest"
              (iso env (current_time env none))
              "human"
              (record_at (schedule_id "news" "digest") one_taken.file))
            "extension:news:digest"
            (record_at "extension:news:digest" one_taken.file))
transition_schedule-refines_example =
    transition_schedule-refines env one_taken pause "News " "digest" "news" "digest" none "human"
      "extension:news:digest" tally_clock-IsIsoClock one_taken-FileIsReadable news digest

request_extension_schedule_run-refines_example :
    ((request_extension_schedule_run env "News " "digest" none " " "human" hex one_taken).0
      ≡ answer (
          request_spec "digest" hex
            (iso env (current_time env none))
            ""
            "human"
            (record_at (schedule_id "news" "digest") one_taken.file)))
    × (record_at "extension:news:digest"
          (request_extension_schedule_run env "News " "digest" none " " "human" hex
            one_taken).1.file
        ≡ record_after
            (request_spec "digest" hex
              (iso env (current_time env none))
              ""
              "human"
              (record_at (schedule_id "news" "digest") one_taken.file))
            "extension:news:digest"
            (record_at "extension:news:digest" one_taken.file))
request_extension_schedule_run-refines_example =
    request_extension_schedule_run-refines env one_taken "News " "digest" "news" "digest" none " "
      "" "human" hex "extension:news:digest" tally_clock-IsIsoClock hex-IsHex
      one_taken-FileIsReadable news digest no_key

abbrev keyed : ExtensionScheduleStatus
keyed = record taken { updated_at = "d0"; run_now_history = "k1" ∷ [] }

key_accepted : run_now_key "k1" ≡ some "k1"
unfolding run_now_key strip
key_accepted = refl

keyed-granted :
    (request_extension_schedule_run env "News " "digest" none "k1" "human" hex one_taken).0
    ≡ ok keyed
unfolding request_spec sorted schedule_id iso strip
keyed-granted =
    (request_extension_schedule_run-refines env one_taken "News " "digest" "news" "digest" none "k1"
      "k1" "human" hex "" tally_clock-IsIsoClock hex-IsHex one_taken-FileIsReadable news digest
      key_accepted).0
    ∙ granted
  where
    granted :
        answer (
          request_spec "digest" hex
            (iso env (current_time env none))
            "k1"
            "human"
            (record_at (schedule_id "news" "digest") one_taken.file))
        ≡ ok keyed
    granted = refl

request_extension_schedule_run-again_example :
    request_extension_schedule_run env "News " "digest"
      (some (utc 5000000))
      "k1"
      "agent"
      "01"
      (request_extension_schedule_run env "News " "digest" none "k1" "human" hex one_taken).1
    ≡ (
      ok keyed,
      (request_extension_schedule_run env "News " "digest" none "k1" "human" hex one_taken).1,
    )
request_extension_schedule_run-again_example =
    request_extension_schedule_run-again env one_taken "News " "digest" "news" "digest" none
      (some (utc 5000000)) "k1" "k1" "human" "agent" hex "01" keyed tally_clock-IsIsoClock hex-IsHex
      one_taken-FileIsReadable news digest key_accepted refl keyed-granted

absent : record_at (schedule_id "news" "digest") empty.file ≡ none
unfolding sorted
absent = refl

controls-refused_example :
    (transition_schedule env pause "News " "digest" none "human" empty
      ≡ (err (schedule_not_found pause "digest"), empty))
    × (request_extension_schedule_run env "News " "digest" none " " "human" hex empty
        ≡ (err (schedule_not_found run_now "digest"), empty))
controls-refused_example =
    controls-refused env empty pause "News " "digest" "news" "digest" none "human" " " "" hex none
      tt news digest no_key absent refl
