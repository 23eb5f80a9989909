-- ===== src/Lib.antt =====
-- The task queue and the schedules of enoch.
--
-- Enoch is an agent that takes tasks from a chat, from its extensions and from itself, and works
-- on one task at a time. The queue (src/enoch/tasks/queue.py) is its durable memory of that work:
-- a JSON file with the pending, the paused, the running and the past tasks, the next id, and a
-- record of the last reconciliation. Each operation opens a transaction (`_queue_transaction`),
-- reads the file (`_load_queue`), and either raises, or returns without writing, or writes the
-- file (`_write_queue`) and reports events (`_record_task_event_safely`).
--
-- An extension may declare schedules (src/enoch/extensions/schedules.py): periodic tasks with a
-- durable record each, in a JSON file of their own. The program folds the declarations into the
-- records, claims the occurrences that are due, hands them to the task queue, and acknowledges
-- each of them, which sets the next target by the arithmetic of src/enoch/schedules.py.
--
-- The files:
-- - Base: shared names. Base/Text has Python's `strip`, `split`, `join` and `lower` on ASCII;
--   Base/Lists and Base/Splits the searches over lists; Base/Int the integers below zero.
-- - Json: the JSON values that an extension attaches to a task, and their encoded size.
-- - Payloads: src/enoch/tasks/payloads.py, the metadata, artifact references and lanes of an
--   extension's task, with their bounds.
--   Payloads/Stable and Payloads/Limits say what is accepted.
-- - ReviewUrls: the review addresses in a task's result, and lists without repetition
--   (`_merge_review_urls`, `_dedupe_strings`, `LEGACY_REVIEW_URL_PATTERN`).
-- - Job: `TaskJob`; Job/Normalize the normalizers of its fields (src/enoch/tasks/events.py and
--   libraries/provider-kit/src/our_ark_provider_kit/contracts.py among them); Job/Reparse
--   `_parse_job` of a dictionary that `_job_to_dict` made.
-- - Queue/Types, Queue/Store: the queue's dictionary, its file, searches in it, the transaction.
-- - Queue/Clock: `_task_is_due`, `_retry_at`, `_retry_at_from`.
-- - Queue/Enqueue, Begin, Worker, Finish, Pause, Retry, Regress, Record, Evidence, Reconcile: the
--   operations, under their names. An operation `op` that opens a transaction is `transaction
--   (op_body ...)`: `op_body` maps the dictionary read to the way in which the body ends
--   (`raise`, `leave`, `commit`). `revert_task` is three transactions in a row.
-- - Queue/Count, Stored, Moves, Invariant, Conserve: the ids in a queue and what keeps them.
-- - Queue/Order, Fences, Reuse, Cautious, Parsing, Readable, Unreadable, Reach: what the
--   operations promise; Queue/Fixtures, Queue/Examples and Queue/Examples/Reading run it on small
--   queues.
-- - Occurrences: src/enoch/schedules.py, the targets of daily and interval schedules;
--   Occurrences/Interval, Change, Daily what they are, Occurrences/Examples small runs.
-- - Json/Equality: Python's `==` on JSON values.
-- - Schedules/Types: `ExtensionScheduleSpec`, `ExtensionScheduleStatus`, errors and results;
--   Schedules/Times: dates, names, keys and targets; Schedules/Spec: `__post_init__` and
--   `_parse_status`; Schedules/Store: the file, the transaction, searches, replacement.
-- - Schedules/Control: pausing, resuming, asking for a run; Claims and Acknowledge: the
--   occurrences; Declare and Reconcile: the declarations. The operations have the names of the
--   code.
-- - Schedules/Normal and its children: records that are read back as they are, and what every
--   operation makes of them; Schedules/Lookup: the file as a map from identities to records.
-- - Schedules/Reach, Handed, Once, Again, Refused, Refine/Controls, Refine/Requests: what the
--   operations promise; Schedules/Examples runs them on small files.
-- - Events: src/enoch/tasks/events.py, the log of what happened to the tasks. Events/Record the
--   event that `record_task_event` writes, Events/Load what `load_task_events` and
--   `load_recent_task_outcomes` read from the lines, oldest first; Events/Latest and Events/Newest
--   which events these are; Events/Examples a small log.
--
-- How the model stands for the code. A dictionary of a stored task is represented by the
-- `TaskJob` that it was made from, since the queue writes only what `_job_to_dict` makes;
-- `reparse` is what reading it back gives where `urlsplit` returns on its `review_urls`, `none`
-- where `_parse_job` gives `None`; `parse_job` has the `ValueError` of `urlsplit` too. The file
-- is `none` where it does not exist. Loading raises what the first task that fails raises, and
-- writing raises, and writes nothing, where `urlsplit` does on an address of some task. A body
-- reads the tasks that were loaded: those of a file that `_write_queue` made have no other
-- addresses than the file had, so that `urlsplit`, which returned on these when the file was
-- loaded, returns on them again. `Kept d d'` says that each id occurs as often in `d'` as in `d`,
-- that the next id is the same, and that each task of `d'` can be read back (`IsStored`:
-- `reparse` gives a job); `Added` that one task with the next id has come; `IsSound` that all
-- tasks can be read back, no id occurs twice and none from `next_id` on occurs; `Writes P o` that
-- the queue that `o` writes, if it writes one, has `P`.
--
-- A record of the schedules' file is represented by the `ExtensionScheduleStatus` that it was
-- made from, and `reparse_status` is what reading it back gives. `IsNormal` says that a record is
-- read back as it is, but for blanks around the text of its error, which is cut to a length after
-- it was stripped; `IsReadable` that all are, and that no identity stands twice. `record_at k f`
-- is the record with the identity `k` in the file `f`, and a `Decision` what an operation on one
-- schedule does: refuse, keep, or change the record.
--
-- What the model takes as arguments: the current time (`current_time`) and the lease
-- (`uuid4().hex`) as texts, the answer of `os.kill(pid, 0)` as `Probe`, and `datetime`'s parsing
-- and printing as `Clock`, a time zone as `Zone`. Whether Python's `urlsplit` returns on a text
-- or raises a `ValueError` (on brackets, and on hosts that change under NFKC) is the field
-- `splits` of a world. A `ValueError` of a normalizer is `none`; messages of exceptions are
-- shortened.
--
-- Bounds of the model: instants are microseconds since the first day of year 1, none before it,
-- and the end of the calendar is not modelled; a declared interval is not negative; a float of
-- 10^16 or more is taken to differ from every integer. `lower`, `isalpha` and `\d` are those of
-- ASCII text; `strip` and `split` know ASCII white space. The results of a runtime have their
-- event types, outputs and side effects as the texts that are stored. A workspace path is the
-- text of the resolved path. Recursion is on the structure of a list, a text or a JSON value, but
-- for three that run on fuel: the search for the change of an offset has the distance of the two
-- instants as fuel, and each round makes it shorter; the search for review addresses goes on
-- behind each match, with the text's length as fuel, and each step takes at least one character;
-- the digits of a number have the number as fuel, and each step divides it by ten.
--
-- Not modelled: files written by other versions of the program or by hand (`_parse_job` and
-- `_parse_status` on other dictionaries), the lock and the atomic replacement of a file, other
-- lines of the event log than those that `record_task_event` writes, the time that a worker
-- waits for the next occurrence and the facade `ExtensionSchedules`, and every other part of the
-- program: the chat application, cron, lineage, evolution, memory, providers, quota and commands.
pub mod Base
pub mod Json
pub mod Payloads
pub mod ReviewUrls
pub mod Job
pub mod Queue
pub mod Schedules
pub mod Occurrences
pub mod Events
