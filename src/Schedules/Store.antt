-- ===== src/Schedules/Store.antt =====
-- src/enoch/extensions/schedules.py: reading and writing the schedules' file, and finding and
-- replacing records in it. Each record in the file is the dictionary of the status that stands
-- here.
use Prim.Native.Char.{code}
use Prim.Native.String.{String}
use enoch.Base.{
  Bool, true, false, not, ◌&&◌, ◌||◌, Option, none, some, List, [], ◌∷◌, ◌++◌, map, ltb, eqb, find,
  keep, filter_map, traverse, if◌then◌else◌, ◌==◌,
}
use enoch.Schedules.Types.{
  State, active, paused, disabled, ExtensionScheduleStatus, Result, ok, err, schedule_error,
  state_corruption, Outcome, raise, leave, commit, World, Operation, ScheduleEvent,
}
use enoch.Schedules.Times.{
  Env, schedule_name, extension_name, schedule_id, event_actor, distinct_texts,
}
use enoch.Schedules.Spec.{reparse_status}

-- `s <= t`, by the numbers of the characters
unfoldable pub text_leb : String → String → Bool
text_leb String.[] t = true
text_leb (String.◌∷◌ c s) String.[] = false
text_leb (String.◌∷◌ c s) (String.◌∷◌ d t) =
    let rest = text_leb s t in ltb (code c) (code d) || (eqb (code c) (code d) && rest)

unfoldable pub insert :
    ExtensionScheduleStatus → List ExtensionScheduleStatus → List ExtensionScheduleStatus
insert item [] = item ∷ []
insert item (x ∷ xs) =
    let rest = insert item xs in if text_leb item.id x.id then item ∷ x ∷ xs else x ∷ rest

-- `sorted(items, key=lambda item: item.id)`
unfoldable pub sorted : List ExtensionScheduleStatus → List ExtensionScheduleStatus
unfolding insert
sorted [] = []
sorted (x ∷ xs) = insert x (sorted xs)

abbrev pub ids : List ExtensionScheduleStatus → List String
ids items = map (λ item. item.id) items

abbrev sorted_if_distinct :
    Option (List ExtensionScheduleStatus) → Result (List ExtensionScheduleStatus)
sorted_if_distinct none = err (state_corruption "found an invalid extension schedule")
sorted_if_distinct (some typed) =
    if not (distinct_texts (ids typed))
    then err (state_corruption "found duplicate extension schedule identities")
    else ok (sorted typed)

-- `_load_schedule_data`, of a file that `_write_schedule_data` made
unfoldable pub load_schedule_data : Env → World → Result (List ExtensionScheduleStatus)
unfolding sorted
load_schedule_data env w = elim w.file [
  | none ↦ ok []
  | some raw ↦ sorted_if_distinct (traverse (reparse_status env) raw)
]

-- `_schedule_items`
abbrev pub schedule_items : Env → List ExtensionScheduleStatus → List ExtensionScheduleStatus
schedule_items env data' = filter_map (reparse_status env) data'

-- `_write_schedule_data`: what the file holds afterwards
unfoldable pub write_schedule_data : List ExtensionScheduleStatus → List ExtensionScheduleStatus
write_schedule_data schedules = sorted schedules

abbrev pub finish : {A : Type 0} → World → Outcome A → Result A × World
finish w (raise e) = (err e, w)
finish w (leave a) = (ok a, w)
finish w (commit items events a) =
    (ok a, record { file = some (write_schedule_data items); events = w.events ++ events })

abbrev pub run_body :
    {A : Type 0}
    → Env
    → World
    → (List ExtensionScheduleStatus → Outcome A)
    → Result (List ExtensionScheduleStatus)
    → Result A × World
run_body env w body (err e) = (err e, w)
run_body env w body (ok data') = finish w (body (schedule_items env data'))

-- `with _schedule_transaction(root): items = _schedule_items(_load_schedule_data(root)) ...`
unfoldable pub transaction :
    {A : Type 0} → Env → (List ExtensionScheduleStatus → Outcome A) → Operation A
unfolding load_schedule_data
transaction env body w = run_body env w body (load_schedule_data env w)

-- `next((item for item in items if item.id == schedule_id), None)`
abbrev pub find_item : String → List ExtensionScheduleStatus → Option ExtensionScheduleStatus
find_item schedule_id items = find (λ item. item.id == schedule_id) items

-- `_replace_item`; a record that is not there, which makes the code raise, leaves the list
unfoldable pub replace_item :
    ExtensionScheduleStatus → List ExtensionScheduleStatus → List ExtensionScheduleStatus
replace_item updated [] = []
replace_item updated (item ∷ items) =
    let rest = replace_item updated items in
    if item.id == updated.id then updated ∷ items else item ∷ rest

-- `all_extension_schedule_statuses`
unfoldable pub all_extension_schedule_statuses : Env → Operation (List ExtensionScheduleStatus)
all_extension_schedule_statuses env w = transaction env (λ items. leave items) w

-- `extension_schedule_status`
unfoldable pub extension_schedule_status : Env → String → Operation (List ExtensionScheduleStatus)
extension_schedule_status env extension w = elim (extension_name extension) [
  | none ↦ (err (schedule_error "Invalid extension name"), w)
  | some normalized ↦
      transaction env (λ items. leave (keep (λ item. item.extension_name == normalized) items)) w
]

abbrev pub named :
    {A : Type 0} → Option String → Option String → (String → String → Operation A) → Operation A
named none name operation w = (err (schedule_error "Invalid extension name"), w)
named (some extension) none operation w =
    (err (schedule_error "Invalid extension schedule name"), w)
named (some extension) (some name) operation w = operation extension name w

-- An operation on the names, normalized.
abbrev pub with_names :
    {A : Type 0} → String → String → (String → String → Operation A) → Operation A
with_names extension name operation w =
    named (extension_name extension) (schedule_name name) operation w

-- `find_extension_schedule`
unfoldable pub find_extension_schedule :
    Env → String → String → Operation (Option ExtensionScheduleStatus)
unfolding extension_name schedule_name
find_extension_schedule env extension name w =
    with_names extension name
      (λ e n. transaction env (λ items. leave (find_item (schedule_id e n) items))) w

-- `_record_schedule_event`
abbrev pub schedule_event : ExtensionScheduleStatus → String → String → ScheduleEvent
schedule_event schedule outcome actor = record {
  event = "agent_extension_schedule_event";
  schedule_id = schedule.id;
  extension = schedule.extension_name;
  schedule = schedule.name;
  outcome = outcome;
  event_actor = event_actor actor;
  next_run_at = schedule.next_run_at;
  succeeded = true;
  task_id = none;
  code = "";
  error = "";
}

abbrev pub same_state : State → State → Bool
same_state active active = true
same_state paused paused = true
same_state disabled disabled = true
same_state _ _ = false
