-- ===== src/Schedules/Reconcile.antt =====
-- src/enoch/extensions/schedules.py: folding the declarations of the loaded extensions into the
-- durable records.
use Prim.Native.String.{String}
use enoch.Base.{
  ℕ, true, not, Option, none, some, List, [], ◌∷◌, ◌++◌, map, any, keep, null, if◌then◌else◌, ◌==◌,
}
use enoch.Base.Text.{truthy}
use enoch.Queue.Clock.{Datetime}
use enoch.Schedules.Types.{
  disabled, ExtensionScheduleSpec, ExtensionScheduleStatus, schedule_error, err, Outcome, raise,
  leave, commit, Operation, ScheduleEvent,
}
use enoch.Schedules.Times.{Env, current_time, iso, text_of, extension_name, schedule_id, first_run}
use enoch.Schedules.Declare.{Folded, reconcile_status, new_status}
use enoch.Schedules.Store.{transaction, find_item, same_state, sorted}

-- A declaration with its extension and its identity.
pub record Desired : Type 0 where
  pub id : String
  pub extension : String
  pub spec : ExtensionScheduleSpec

-- The inner loop that gathers `desired`.
unfoldable pub gather_specs :
    String → List ExtensionScheduleSpec → List Desired → Option (List Desired)
gather_specs extension [] desired = some desired
gather_specs extension (spec ∷ specs) desired =
    let id = schedule_id extension spec.name in
    let rest =
      gather_specs extension specs
        (desired ++ record { id = id; extension = extension; spec = spec } ∷ []) in
    if any (λ d. d.id == id) desired then none else rest

-- The extensions of `declarations` with their specs.
abbrev pub Declarations : Type 0
Declarations = List (String × List ExtensionScheduleSpec)

-- The loop over `declarations`; `none` for a wrong name or a schedule that is declared twice
unfoldable pub gather : Declarations → List Desired → Option (List Desired)
unfolding gather_specs
gather [] desired = some desired
gather ((raw_name, specs) ∷ declarations) desired = elim (extension_name raw_name) [
  | none ↦ none
  | some extension ↦ elim (gather_specs extension specs desired) [
    | none ↦ none
    | some desired' ↦ gather declarations desired'
  ]
]

-- What the transaction's loops build.
pub record Reconciled : Type 0 where
  pub items : List ExtensionScheduleStatus
  pub changed : List (String × String)

abbrev pub outcome_for : String → String → List (String × String)
outcome_for id outcome = if truthy outcome then (id, outcome) ∷ [] else []

abbrev pub add_folded : Option Folded → Option Reconciled → String → Option Reconciled
add_folded (some f) (some rest) id =
    some
      (record { items = f.item ∷ rest.items; changed = outcome_for id f.outcome ++ rest.changed })
add_folded _ _ id = none

abbrev pub created_with : Desired → String → Option String → Option Folded
created_with d now none = none
created_with d now (some next) =
    some (record { item = new_status d.extension d.spec now next; outcome = "created" })

-- One declaration, with the record that it may have.
unfoldable pub fold_desired : Env → ℕ → Desired → Option ExtensionScheduleStatus → Option Folded
unfolding reconcile_status new_status
fold_desired env current d none =
    created_with d (iso env current) (text_of env (first_run env d.spec current))
fold_desired env current d (some prior) = reconcile_status env prior d.spec current

-- The loop over `desired`; a record is taken out of the existing ones by the `pop` of its own
-- round, which no other round can do, since the identities in `desired` are distinct.
unfoldable pub fold_all : Env → ℕ → List ExtensionScheduleStatus → List Desired → Option Reconciled
unfolding fold_desired
fold_all env current existing [] = some (record { items = []; changed = [] })
fold_all env current existing (d ∷ desired) =
    add_folded (fold_desired env current d (find_item d.id existing))
      (fold_all env current existing desired) d.id

-- What is left in `existing` after that loop.
unfoldable pub undeclared :
    List Desired → List ExtensionScheduleStatus → List ExtensionScheduleStatus
undeclared desired existing = keep (λ item. not (any (λ d. d.id == item.id) desired)) existing

unfoldable pub disabled_status : String → ExtensionScheduleStatus → ExtensionScheduleStatus
disabled_status now prior = record prior {
  state = disabled;
  updated_at = now;
  disabled_at = now;
  run_now_id = if truthy prior.claim_id then prior.run_now_id else "";
  run_now_key = if truthy prior.claim_id then prior.run_now_key else "";
}

-- The loop over what is left in `existing`.
unfoldable pub disable_all : String → List ExtensionScheduleStatus → Reconciled
unfolding disabled_status
disable_all now [] = record { items = []; changed = [] }
disable_all now (prior ∷ existing) =
    let rest = disable_all now existing in
    if same_state prior.state disabled then record rest { items = prior ∷ rest.items } else record {
      items = disabled_status now prior ∷ rest.items;
      changed = (prior.id, "disabled") ∷ rest.changed;
    }

abbrev pub reconciled_event : String × String → ScheduleEvent
reconciled_event (id, outcome) = record {
  event = "agent_extension_schedule_reconciled";
  schedule_id = id;
  extension = "";
  schedule = "";
  outcome = outcome;
  event_actor = "system";
  next_run_at = "";
  succeeded = true;
  task_id = none;
  code = "";
  error = "";
}

-- The end of the transaction. Without a change, the sorted records are those that were read, so
-- that the second test of the code decides nothing.
abbrev pub write_changes : Reconciled → Reconciled → Outcome (List ExtensionScheduleStatus)
write_changes declared rest =
    let items = sorted (declared.items ++ rest.items) in
    let changed = declared.changed ++ rest.changed in
    if null changed then leave items else commit items (map reconciled_event changed) items

-- The transaction of `reconcile_extension_schedules`.
unfoldable pub reconcile_body :
    Env → ℕ → List Desired → List ExtensionScheduleStatus → Outcome (List ExtensionScheduleStatus)
unfolding fold_all disable_all
reconcile_body env current desired items = elim (fold_all env current items desired) [
  | none ↦ raise (schedule_error "the first run of a schedule cannot be found")
  | some declared ↦
      write_changes declared (disable_all (iso env current) (undeclared desired items))
]

-- `reconcile_extension_schedules`
unfoldable pub reconcile_extension_schedules :
    Env → Declarations → Option Datetime → Operation (List ExtensionScheduleStatus)
unfolding gather reconcile_body
reconcile_extension_schedules env declarations now w = elim (gather declarations []) [
  | none ↦ (err (schedule_error "a declaration is wrong or stands twice"), w)
  | some desired ↦ transaction env (reconcile_body env (current_time env now) desired) w
]
