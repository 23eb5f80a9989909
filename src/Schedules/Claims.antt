-- ===== src/Schedules/Claims.antt =====
-- src/enoch/extensions/schedules.py: handing out the occurrences of schedules that are due, and
-- acknowledging them.
use Prim.Native.String.{String, ◌++◌}
use enoch.Base.{
  ℕ, suc, Bool, true, false, not, ◌&&◌, Option, none, some, List, [], ◌∷◌, leb, if◌then◌else◌,
}
use enoch.Base.Text.{truthy}
use enoch.Queue.Clock.{Datetime}
use enoch.Schedules.Types.{
  active, scheduled, run_now, ExtensionScheduleStatus, Outcome, leave, commit, Operation,
}
use enoch.Schedules.Times.{Env, current_time, iso, parse_time, claim_token}
use enoch.Schedules.Store.{transaction, same_state}

-- `scheduled_for is not None and scheduled_for <= current`
unfoldable pub scheduled_due : Env → ℕ → ExtensionScheduleStatus → Bool
scheduled_due env current item = elim (parse_time env item.next_run_at) [
  | none ↦ false
  | some scheduled_for ↦ leb scheduled_for current
]

-- The `claim_id` that a claim gives; `hex` is that of its `uuid4`.
unfoldable pub new_claim_id : ExtensionScheduleStatus → String → String → String
new_claim_id item occurrence hex =
    "extension-schedule-"
    ++ (item.extension_name
        ++ ("-" ++ (item.name ++ ("-" ++ (claim_token occurrence ++ ("-" ++ hex))))))

unfoldable pub claimed_status : Env → ℕ → String → ExtensionScheduleStatus → ExtensionScheduleStatus
unfolding new_claim_id scheduled_due
claimed_status env current hex item =
    let due = scheduled_due env current item in
    record item {
      updated_at = iso env current;
      claim_id = new_claim_id item (if due then item.next_run_at else item.run_now_id) hex;
      claimed_at = iso env current;
      claim_kind = if due then scheduled else run_now;
      claim_scheduled_for = if due then item.next_run_at else iso env current;
    }

-- The lists that the loop of `claim_due_extension_schedules` builds, and its flag.
pub record Claims : Type 0 where
  pub items : List ExtensionScheduleStatus
  pub claimed : List ExtensionScheduleStatus
  pub changed : Bool

-- A record that is not handed out.
abbrev pub pass_by : ExtensionScheduleStatus → Claims → Claims
pass_by item rest = record rest { items = item ∷ rest.items }

-- One that is handed out again.
abbrev pub hand_again : ExtensionScheduleStatus → Claims → Claims
hand_again item rest = record rest { items = item ∷ rest.items; claimed = item ∷ rest.claimed }

-- One that is claimed.
abbrev pub hand_out : ExtensionScheduleStatus → Claims → Claims
hand_out item rest = record {
  items = item ∷ rest.items;
  claimed = item ∷ rest.claimed;
  changed = true;
}

-- Neither due nor asked for.
unfoldable pub is_waiting : Env → ℕ → ExtensionScheduleStatus → Bool
unfolding scheduled_due
is_waiting env current item = not (scheduled_due env current item) && not (truthy item.run_now_id)

-- The loop; `hexes n` is the hexadecimal text of the `n`-th `uuid4`.
unfoldable pub claim_items : Env → ℕ → (ℕ → String) → ℕ → List ExtensionScheduleStatus → Claims
unfolding is_waiting claimed_status
claim_items env current hexes n [] = record { items = []; claimed = []; changed = false }
claim_items env current hexes n (item ∷ items) =
    let rest = claim_items env current hexes n items in
    let rest' = claim_items env current hexes (suc n) items in
    if not (same_state item.state active)
    then pass_by item rest
    else if truthy item.claim_id
    then hand_again item rest
    else if is_waiting env current item
    then pass_by item rest
    else hand_out (claimed_status env current (hexes n) item) rest'

abbrev pub claims_outcome : Claims → Outcome (List ExtensionScheduleStatus)
claims_outcome c = if c.changed then commit c.items [] c.claimed else leave c.claimed

unfoldable pub claim_body :
    Env → ℕ → (ℕ → String) → List ExtensionScheduleStatus → Outcome (List ExtensionScheduleStatus)
unfolding claim_items
claim_body env current hexes items = claims_outcome (claim_items env current hexes 0 items)

-- `claim_due_extension_schedules`
unfoldable pub claim_due_extension_schedules :
    Env → Option Datetime → (ℕ → String) → Operation (List ExtensionScheduleStatus)
unfolding claim_body
claim_due_extension_schedules env now hexes w =
    transaction env (claim_body env (current_time env now) hexes) w
