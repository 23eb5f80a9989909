-- ===== src/Queue/Examples/Reading.antt =====
-- Runs of the theorems on past tasks, and on reading what was written.
use enoch.Base.{any, String, ◌≡◌, refl, ap, sym, subst, ◌∙◌, some, none, [], ◌∷◌, true}
use enoch.Base.Text.{strip, lower, clean_text}
use enoch.Json.Encode.{encoded_fields}
use enoch.Payloads.{require_extension_lane_namespace, require_extension_payload_namespace}
use enoch.Payloads.Bounds.{normalize_extension_metadata, normalize_members}
use enoch.Payloads.References.{references_from_json}
use enoch.ReviewUrls.{
  merge_review_urls, dedupe_strings, review_urls_in, web_review_urls, parse_review_urls, all_split,
}
use enoch.Job.{TaskJob}
use enoch.Job.Normalize.{
  normalize_conversation_id, normalize_message_id, normalize_task_source,
  normalize_provenance_actor, task_requirements, normalize_task_initiator,
}
use enoch.Job.Reparse.{reparse, parse_payload, clean_job}
use enoch.Queue.Types.{Error, QueueData, ok, err, value_error}
use enoch.Queue.Invariant.{Writes, written}
use enoch.Queue.Finish.{finish_body, finished_job}
use enoch.Queue.Pause.{pause_body, pause_task}
use enoch.Queue.Regress.{regress_body, resolve_body}
use enoch.Queue.Cautious.{Restatused, regress_body-Restatused, resolve_body-Restatused}
use enoch.Queue.Parsing.{adds_split, all_add_split, parse_job_stable}
use enoch.Queue.Unreadable.{is_unreadable, unreadable_task-changes_nothing}
use enoch.Queue.Readable.{is_ok, load_data-write_queue, transaction-readable}
use enoch.Queue.Store.{
  load_queue, parse_job, all_parse, stored_jobs, first_problem, load_data, write_queue, transaction,
}
use enoch.Queue.Fixtures.{
  waiting-reads, waiting, busy, done, splits, queue, world, busy-reads, world-loads, ending,
}

-- The past task is completed, or regressed.
abbrev past : String → QueueData
past status = record queue { history = (record done { status = status }) ∷ [] }

regress_body-Restatused_example :
    Writes
      (Restatused (past "completed") 5 "completed" "regressed" "t2" "r")
      (regress_body 5 "r" "human" "chat" "t2" (past "completed"))
regress_body-Restatused_example =
    regress_body-Restatused 5 "r" "human" "chat" "t2" (past "completed")

resolve_body-Restatused_example :
    Writes
      (Restatused (past "regressed") 5 "regressed" "reverted" "t2" "r")
      (resolve_body 5 "reverted" "r" "human" "chat" none "t2" (past "regressed"))
resolve_body-Restatused_example =
    resolve_body-Restatused 5 "reverted" "r" "human" "chat" none "t2" (past "regressed")

busy-parses : parse_job splits busy ≡ ok (some busy)
unfolding parse_job parse_review_urls all_split
busy-parses = ap ok busy-reads

nothing_added : adds_split splits busy ≡ true
unfolding all_split review_urls_in strip
nothing_added = refl

parse_job_stable_example : (j : TaskJob) × (parse_job splits busy ≡ ok (some j))
parse_job_stable_example = parse_job_stable splits busy busy-parses nothing_added

queue-splits : all_parse splits (stored_jobs queue) ≡ true
unfolding all_parse all_split
queue-splits = refl

queue-adds : all_add_split splits (stored_jobs queue) ≡ true
unfolding all_add_split all_split review_urls_in strip
queue-adds = refl

load_data-write_queue_example : is_ok (load_data splits (write_queue queue)) ≡ true
load_data-write_queue_example = load_data-write_queue splits queue queue-splits queue-adds

finishes :
    Writes (λ d'. all_add_split splits (stored_jobs d') ≡ true) (finish_body 7 ending "t2" queue)
unfolding finish_body finished_job all_add_split all_split reparse parse_payload
    normalize_extension_metadata normalize_members encoded_fields references_from_json
    require_extension_lane_namespace require_extension_payload_namespace normalize_conversation_id
    lower strip clean_job normalize_message_id merge_review_urls normalize_task_source
    normalize_provenance_actor task_requirements dedupe_strings review_urls_in clean_text
    web_review_urls normalize_task_initiator
finishes = written refl

finished-adds :
    (d : QueueData)
    → load_queue world ≡ ok d
    → Writes (λ d'. all_add_split splits (stored_jobs d') ≡ true) (finish_body 7 ending "t2" d)
finished-adds d h =
    subst
      (λ d.
        Writes (λ d'. all_add_split splits (stored_jobs d') ≡ true) (finish_body 7 ending "t2" d))
      (ok-injective (sym world-loads ∙ h)) finishes
  where
    ok-injective : {a b : QueueData} → ok a ≡ ok b → a ≡ b
    ok-injective h = cc

transaction-readable_example :
    is_ok (load_queue (transaction (finish_body 7 ending "t2") world).1) ≡ true
transaction-readable_example =
    transaction-readable (finish_body 7 ending "t2") world (rw world-loads refl) finished-adds

-- An address with an opening bracket alone in the result of a task that is paused makes `urlsplit`
-- raise whenever the file is read from then on.
abbrev bad_result : String
bad_result = "https://[x/pull/1"

paused_test :
    load_queue (pause_task 8 bad_result "human" "chat" "w1" world).1 ≡ err (value_error "urlsplit")
unfolding pause_task transaction load_queue first_problem all_parse all_split parse_review_urls
    write_queue reparse parse_payload normalize_extension_metadata normalize_members encoded_fields
    references_from_json require_extension_lane_namespace require_extension_payload_namespace
    normalize_conversation_id lower strip clean_job normalize_message_id merge_review_urls
    normalize_task_source normalize_provenance_actor task_requirements dedupe_strings review_urls_in
    clean_text web_review_urls normalize_task_initiator pause_body
paused_test = refl

-- The end of a task with this result raises, since its addresses are stored with it.
finished_test :
    transaction (finish_body 7 (record ending { result = bad_result }) "t2") world
    ≡ (err (value_error "urlsplit"), world)
unfolding finish_body finished_job transaction load_queue first_problem all_parse all_split
    parse_review_urls reparse parse_payload normalize_extension_metadata normalize_members
    encoded_fields references_from_json require_extension_lane_namespace
    require_extension_payload_namespace normalize_conversation_id lower strip clean_job
    normalize_message_id merge_review_urls normalize_task_source normalize_provenance_actor
    task_requirements dedupe_strings review_urls_in clean_text web_review_urls
    normalize_task_initiator
finished_test = refl

abbrev poisoned : QueueData
poisoned = record queue { paused = (record waiting { review_urls = bad_result ∷ [] }) ∷ [] }

poisoned-unreadable : any (is_unreadable splits) (stored_jobs poisoned) ≡ true
unfolding all_split strip
poisoned-unreadable = rw waiting-reads refl

unreadable_task-changes_nothing_example :
    (e : Error) × (transaction (finish_body 7 ending "t2") (record world { file = some poisoned })
      ≡ (err e, record world { file = some poisoned }))
unreadable_task-changes_nothing_example =
    unreadable_task-changes_nothing (finish_body 7 ending "t2")
      (record world { file = some poisoned }) poisoned refl poisoned-unreadable
