-- ===== src/Job/Normalize.antt =====
-- The normalizers of single fields: src/enoch/tasks/queue.py, src/enoch/tasks/events.py and
-- libraries/provider-kit/src/our_ark_provider_kit/contracts.py.
use Prim.Native.Char.{Char, code}
use Prim.Native.String.{String}
use enoch.Base.{
  ℕ, zero, suc, Bool, false, ◌&&◌, ◌||◌, Option, none, some, List, [], ◌∷◌, traverse, eqb,
  if◌then◌else◌,
}
use enoch.Base.Int.{ℤ, positive, is_zero}
use enoch.Base.Text.{
  strip, lower, one_of, clean_text, split_at, join, all_chars, is_lower_letter, is_digit,
  starts_with, map_chars,
}
use enoch.Job.{ConversationId, number, name}

abbrev pub non_empty : String → Option ConversationId
non_empty String.[] = none
non_empty (String.◌∷◌ c s) = some (name (String.◌∷◌ c s))

-- contracts.py: normalize_conversation_id
unfoldable pub normalize_conversation_id : ConversationId → Option ConversationId
normalize_conversation_id (number n) = if is_zero n then none else some (number n)
normalize_conversation_id (name s) = non_empty (strip s)

unfoldable pub normalize_message_id : Option ConversationId → Option ConversationId
unfolding normalize_conversation_id
normalize_message_id none = none
normalize_message_id (some m) = normalize_conversation_id m

abbrev when_one_of : String → List String → Option String
when_one_of s allowed = if one_of s allowed then some s else none

-- events.py: normalize_task_source; `none` is its `ValueError`
unfoldable pub normalize_task_source : String → Option String
normalize_task_source value = when_one_of (lower (clean_text value)) (
    "backlog" ∷ "feedback" ∷ "experience" ∷ "inheritance" ∷ "learning" ∷ "brainstorming" ∷ "task"
    ∷ "chat-task" ∷ [])

-- events.py: normalize_task_initiator
unfoldable pub normalize_task_initiator : String → Option String
normalize_task_initiator value = when_one_of (lower (clean_text value)) ("human" ∷ "agent" ∷ [])

-- `_normalize_provenance_actor`
unfoldable pub normalize_provenance_actor : String → String
normalize_provenance_actor value =
    let normalized = lower (clean_text value) in
    if one_of normalized ("human" ∷ "agent" ∷ "system" ∷ []) then normalized else ""

-- `_legacy_signal_actor`
unfoldable pub legacy_signal_actor : String → String
legacy_signal_actor source =
    if one_of source ("backlog" ∷ "feedback" ∷ "learning" ∷ [])
    then "human"
    else if one_of source ("inheritance" ∷ "brainstorming" ∷ [])
    then "agent"
    else "system"

-- `_legacy_approval_actor`
unfoldable pub legacy_approval_actor : String → String → String → String
legacy_approval_actor trigger context_source initiated_by =
    if starts_with trigger "/evolve "
      || one_of context_source ("evolve-approve" ∷ "evolve-retry" ∷ [])
    then "human"
    else if one_of context_source ("evolve-scheduler" ∷ [])
    then "agent"
    else initiated_by

underscore_to_dash : Char → Char
underscore_to_dash c = if eqb (code c) b'_' then "-" else c

canonical : String → String
unfolding underscore_to_dash
canonical s = map_chars underscore_to_dash (lower (strip s))

-- `isalpha` of the first character, on ASCII
abbrev starts_alpha : String → Bool
starts_alpha String.[] = false
starts_alpha (String.◌∷◌ c s) = is_lower_letter c

-- contracts.py: `_capability_segment`
capability_segment : String → Option String
unfolding canonical
capability_segment value =
    let text = canonical value in
    if starts_alpha text
      && all_chars (λ c. is_lower_letter c || is_digit c || eqb (code c) b'-') text
    then some text
    else none

abbrev two_segments : List String → Option (List String)
two_segments (a ∷ b ∷ []) = traverse capability_segment (a ∷ b ∷ [])
two_segments _ = none

-- contracts.py: `_normalize_capability`
normalize_capability : String → Option String
unfolding capability_segment
normalize_capability value = elim (two_segments (split_at "." (canonical value))) [
  | none ↦ none
  | some parts ↦ some (join "." parts)
]

-- `dict.fromkeys`: each key once, where it stood first
from_keys : List String → List String → List String
from_keys seen [] = []
from_keys seen (k ∷ ks) =
    let rest = from_keys (k ∷ seen) ks in
    let same = from_keys seen ks in if one_of k seen then same else k ∷ rest

-- contracts.py: the capabilities of `TaskRequirements`
unfoldable pub task_requirements : List String → Option (List String)
unfolding normalize_capability from_keys
task_requirements capabilities = elim (traverse normalize_capability capabilities) [
  | none ↦ none
  | some values ↦ some (from_keys [] values)
]

-- `_required_positive_int`, of an integer
abbrev pub required_positive_int : ℤ → Option ℕ
required_positive_int value = positive value

-- `_optional_positive_int`: absent, or positive, or an error
abbrev pub optional_positive_int : Option ℤ → Option (Option ℕ)
optional_positive_int none = some none
optional_positive_int (some n) = elim (positive n) [ none ↦ none | some p ↦ some (some p) ]

-- `_positive_int`
abbrev pub positive_int : Option ℤ → Option ℕ
positive_int none = none
positive_int (some n) = positive n

-- `_positive_int` of a number that is not negative
abbrev pub positive_nat : Option ℕ → Option ℕ
positive_nat none = none
positive_nat (some zero) = none
positive_nat (some (suc n)) = some (suc n)
