-- ===== src/ReviewUrls.antt =====
-- src/enoch/tasks/queue.py: review addresses in unstructured text, and lists of texts without
-- repetition.
pub mod Merge
pub mod Fuel
pub mod Split
mod Examples
use Prim.Native.Char.{Char, code}
use Prim.Native.String.{String, ◌++◌}
use enoch.Base.{
  ℕ, zero, suc, Bool, true, false, not, ◌&&◌, ◌||◌, Option, none, some, List, [], ◌∷◌, leb, eqb,
  if◌then◌else◌,
}
use enoch.Base.Text.{
  truthy, strip, lower, one_of, starts_with, drop_prefix, is_digit, is_space, len,
}

-- `xs + [x]`
abbrev pub push {ℓ} : {A : Type ℓ} → List A → A → List A
push [] x = x ∷ []
push (y ∷ ys) x = y ∷ push ys x

-- The inner loop of `_merge_review_urls`.
unfoldable pub merge_group : List String → List String → List String
merge_group merged [] = merged
merge_group merged (url ∷ group) =
    merge_group (if one_of url merged then merged else push merged url) group

-- `_merge_review_urls`
unfoldable pub merge_groups : List String → List (List String) → List String
unfolding merge_group
merge_groups merged [] = merged
merge_groups merged (group ∷ groups) = merge_groups (merge_group merged group) groups

unfoldable pub merge_review_urls : List (List String) → List String
unfolding merge_groups
merge_review_urls groups = merge_groups [] groups

-- `_dedupe_strings`; `result` holds the texts of `seen` in order
dedupe_from : List String → List String → List String
dedupe_from result [] = result
dedupe_from result (value ∷ values) =
    let cleaned = strip value in
    dedupe_from
      (if not (truthy cleaned) || one_of cleaned result then result else push result cleaned) values

unfoldable pub dedupe_strings : List String → List String
unfolding dedupe_from
dedupe_strings values = dedupe_from [] values

-- The characters of `\d+` at the head of a text, and what follows.
unfoldable pub take_digits : String → String × String
take_digits String.[] = (String.[], String.[])
take_digits (String.◌∷◌ c s) =
    let (ds, rest) = take_digits s in
    if is_digit c then (String.◌∷◌ c ds, rest) else (String.[], String.◌∷◌ c s)

abbrev with_tail : String → String → Option (String × String)
with_tail segment s =
    let (ds, rest) = take_digits s in if truthy ds then some (segment ++ ds, rest) else none

-- `/(?:pull|pulls|merge_requests)/\d+` at the head of a text: what it matches, and what follows
unfoldable pub review_tail : String → Option (String × String)
unfolding take_digits
review_tail s =
    if starts_with s "/pull/"
    then with_tail "/pull/" (drop_prefix s "/pull/")
    else if starts_with s "/pulls/"
    then with_tail "/pulls/" (drop_prefix s "/pulls/")
    else if starts_with s "/merge_requests/"
    then with_tail "/merge_requests/" (drop_prefix s "/merge_requests/")
    else none

abbrev prepend : Char → Option (String × String) → Option (String × String)
prepend c none = none
prepend c (some (m, rest)) = some (String.◌∷◌ c m, rest)

abbrev first_some {ℓ} : {A : Type ℓ} → Option A → Option A → Option A
first_some none o = o
first_some (some a) o = some a

-- `[^\s]+` and the tail, at the head of a text. The run is greedy, so the last tail counts.
unfoldable pub greedy_match : String → Option (String × String)
unfolding review_tail
greedy_match String.[] = none
greedy_match (String.◌∷◌ c s) =
    let later = greedy_match s in
    if is_space c then none else first_some (prepend c later) (prepend c (review_tail s))

-- `LEGACY_REVIEW_URL_PATTERN.match`
unfoldable pub review_match : String → Option (String × String)
unfolding greedy_match
review_match s =
    if starts_with s "https://"
    then (elim (greedy_match (drop_prefix s "https://")) [
      | none ↦ none
      | some (m, rest) ↦ some ("https://" ++ m, rest)
    ])
    else none

-- `findall`: matches that do not overlap, from the left; the fuel is the length of the text
unfoldable pub find_all : ℕ → String → List String
unfolding review_match
find_all zero s = []
find_all (suc fuel) String.[] = []
find_all (suc fuel) (String.◌∷◌ c s) = elim (review_match (String.◌∷◌ c s)) [
  | none ↦ find_all fuel s
  | some (m, rest) ↦ m ∷ find_all fuel rest
]

-- `_review_urls`
unfoldable pub review_urls_in : String → List String
unfolding find_all
review_urls_in result = find_all (len result) result

-- `task_result_has_review`
unfoldable pub task_result_has_review : String → Bool
unfolding review_urls_in
task_result_has_review result = elim (review_urls_in result) [ [] ↦ false | u ∷ us ↦ true ]

-- The text up to the first of `/`, `?` and `#`.
netloc : String → String
netloc String.[] = String.[]
netloc (String.◌∷◌ c s) =
    let rest = netloc s in
    if eqb (code c) 47 || eqb (code c) 63 || eqb (code c) 35 then String.[] else String.◌∷◌ c rest

-- `urlsplit` drops control characters in front, and tabs and line ends everywhere.
drop_controls : String → String
drop_controls String.[] = String.[]
drop_controls (String.◌∷◌ c s) = if leb (code c) 32 then drop_controls s else String.◌∷◌ c s

drop_line_ends : String → String
drop_line_ends String.[] = String.[]
drop_line_ends (String.◌∷◌ c s) =
    let rest = drop_line_ends s in
    if eqb (code c) 9 || eqb (code c) 10 || eqb (code c) 13 then rest else String.◌∷◌ c rest

-- `parsed.scheme in {"http", "https"} and parsed.netloc`
unfoldable pub is_web_url : String → Bool
unfolding netloc drop_controls drop_line_ends
is_web_url url =
    let u = drop_line_ends (drop_controls url) in
    let low = lower u in
    (starts_with low "http://" && truthy (netloc (drop_prefix u "http://")))
    || (starts_with low "https://" && truthy (netloc (drop_prefix u "https://")))

unfoldable pub web_urls : List String → List String
unfolding is_web_url
web_urls [] = []
web_urls (item ∷ items) =
    let url = strip item in let rest = web_urls items in if is_web_url url then url ∷ rest else rest

-- What `_parse_review_urls` returns where `urlsplit` returns on every item.
unfoldable pub web_review_urls : List String → List String
unfolding web_urls merge_review_urls
web_review_urls items = merge_review_urls (web_urls items ∷ [])

-- `urlsplit` returns on every item, and raises no `ValueError`.
unfoldable pub all_split : (String → Bool) → List String → Bool
all_split splits [] = true
all_split splits (item ∷ items) = splits (strip item) && all_split splits items

-- `_parse_review_urls`, of a list of texts; `splits` tells on which texts `urlsplit` returns, and
-- `none` is the `ValueError` that it raises on the others.
unfoldable pub parse_review_urls : (String → Bool) → List String → Option (List String)
unfolding all_split web_review_urls
parse_review_urls splits items =
    if all_split splits items then some (web_review_urls items) else none
