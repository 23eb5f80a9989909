-- ===== src/Schedules/Refine/Requests.antt =====
-- src/enoch/extensions/schedules.py: asking for a run, as an update of the map from identities to
-- records, and controls that are refused.
use Prim.Native.String.{String}
use Prim.Native.String
use enoch.Base.{
  ℕ, zero, suc, ◌+◌, ◌-◌, ◌++◌, length, ltb, ap, ap₂, sym, ◌∙◌, arith, Bool, true, false, not, ◌&&◌,
  ◌||◌, Option, none, some, List, [], ◌∷◌, ◌≡◌, refl, subst, inl, inr, Bool-cases, if◌then◌else◌,
}
use enoch.Base.Text.{truthy, one_of}
use enoch.Queue.Clock.{Datetime}
use enoch.Schedules.Types.{
  State, active, paused, disabled, run_now, ExtensionScheduleStatus, World, schedule_not_found,
  invalid_state, raise, leave,
}
use enoch.Schedules.Times.{
  Env, iso, current_time, extension_name, schedule_name, schedule_id, run_now_key,
  append_run_now_key, last, snoc,
}
use enoch.Schedules.Store.{find_item, schedule_event, same_state}
use enoch.Schedules.Control.{
  request_extension_schedule_run, request_body, on_found, commit_request, keyed_status,
  requested_status,
}
use enoch.Schedules.Normal.{IsNormal, tidy}
use enoch.Schedules.Normal.Dates.{IsIsoClock, IsHex}
use enoch.Schedules.Normal.History.{run_now_key_stable}
use enoch.Schedules.Normal.Lists.{find_item-IsNormal}
use enoch.Schedules.Normal.Files.{FileIsReadable, loaded, loaded-IsReadable}
use enoch.Schedules.Normal.Updates.{keyed_status-IsNormal, requested_status-IsNormal}
use enoch.Schedules.Lookup.{record_at, record_at-tidy}
use enoch.Schedules.Refine.{
  Decision, refuse, keep, change, answer, record_after, on_items, IsSafe, refines,
}

-- How far a run is that was asked for: not at all, or under way or waiting.
abbrev pub is_busy : ExtensionScheduleStatus → Bool
is_busy s = truthy s.claim_id || truthy s.run_now_id

abbrev pub drop : ℕ → List String → List String
drop zero keys = keys
drop (suc n) [] = []
drop (suc n) (key ∷ keys) = drop n keys

-- The history of the keys with a new one behind it, if it is not blank: the last 64 keys.
abbrev pub remembered : List String → String → List String
remembered history key =
    if truthy key then drop (length history + 1 - 64) (history ++ key ∷ []) else history

-- The key is remembered; a run is made unless there is one.
unfoldable pub asked_record :
    String → String → String → ExtensionScheduleStatus → ExtensionScheduleStatus
asked_record hex now key s = record s {
  updated_at = now;
  run_now_id = if is_busy s then s.run_now_id else String.◌++◌ "run-now-" hex;
  run_now_key = if is_busy s then s.run_now_key else key;
  run_now_history = remembered s.run_now_history key;
}

-- Nothing is new: the key is known, or there is none and a run is there.
abbrev pub is_repeat : String → ExtensionScheduleStatus → Bool
is_repeat key s = if truthy key then one_of key s.run_now_history else is_busy s

abbrev pub ask : String → ExtensionScheduleStatus → Decision ExtensionScheduleStatus
ask actor u = change u (schedule_event u "run_now_requested" actor ∷ []) u

unfoldable pub request_active :
    String → String → String → String → ExtensionScheduleStatus → Decision ExtensionScheduleStatus
request_active hex now key actor s =
    if is_repeat key s then keep s else ask actor (asked_record hex now key s)

-- What asking for a run does.
unfoldable pub request_spec :
    String
    → String
    → String
    → String
    → String
    → Option ExtensionScheduleStatus
    → Decision ExtensionScheduleStatus
unfolding request_active asked_record
request_spec name hex now key actor none = refuse (schedule_not_found run_now name)
request_spec name hex now key actor (some s) = elim s.state [
  | active ↦ request_active hex now key actor s
  | paused ↦ refuse (invalid_state run_now name paused)
  | disabled ↦ refuse (invalid_state run_now name disabled)
]

-- The code's way of cutting the history gives the last keys.
last-eq-drop : (n : ℕ) (keys : List String) → last n keys ≡ drop (length keys - n) keys
unfolding last
last-eq-drop n [] = sym (drop-nil (0 - n))
  where
    drop-nil : (m : ℕ) → drop m [] ≡ []
    drop-nil zero = refl
    drop-nil (suc m) = refl
last-eq-drop n (x ∷ xs) = elim (Bool-cases (ltb n (suc (length xs)))) [
  | inl e ↦
      let more : suc (length xs) - n ≡ suc (length xs - n) = ground (arith, e) in
      rw (e, more) (last-eq-drop n xs)
  | inr e ↦ let none_left : suc (length xs) - n ≡ 0 = ground (arith, e) in rw (e, none_left) refl
]

length-snoc : (keys : List String) (key : String) → length (snoc keys key) ≡ length keys + 1
length-snoc [] key = omega arith
length-snoc (x ∷ xs) key = omega (arith, length-snoc xs key)

snoc-append : (keys : List String) (key : String) → snoc keys key ≡ keys ++ key ∷ []
snoc-append [] key = refl
snoc-append (x ∷ xs) key = ap (λ l. x ∷ l) (snoc-append xs key)

-- A key that is not known is remembered.
append_run_now_key-eq :
    (history : List String) (key : String)
    → (truthy key && one_of key history) ≡ false
    → append_run_now_key history key ≡ remembered history key
unfolding append_run_now_key
append_run_now_key-eq history key h = elim (Bool-cases (truthy key)) [
  | inl e ↦
      let new : one_of key history ≡ false = ground (arith, e, h) in
      rw (e, new)
        (last-eq-drop 64 (snoc history key)
          ∙ ap₂ drop (ap (λ n. n - 64) (length-snoc history key)) (snoc-append history key))
  | inr e ↦ rw e refl
]

asked_record-busy :
    (hex now key : String) (s : ExtensionScheduleStatus)
    → is_busy s ≡ true
    → (truthy key && one_of key s.run_now_history) ≡ false
    → keyed_status now key s ≡ asked_record hex now key s
unfolding keyed_status asked_record
asked_record-busy hex now key s e new = rw (e, append_run_now_key-eq s.run_now_history key new) refl

asked_record-free :
    (hex now key : String) (s : ExtensionScheduleStatus)
    → is_busy s ≡ false
    → (truthy key && one_of key s.run_now_history) ≡ false
    → requested_status hex now key s ≡ asked_record hex now key s
unfolding requested_status asked_record
asked_record-free hex now key s e new = rw (e, append_run_now_key-eq s.run_now_history key new) refl

module _ (name hex now key actor : String) (items : List ExtensionScheduleStatus)
    (s : ExtensionScheduleStatus) where
  active-eq :
      (if truthy key && one_of key s.run_now_history
        then leave s
        else if is_busy s
        then (if not (truthy key)
            then leave s
            else commit_request actor items (keyed_status now key s))
        else commit_request actor items (requested_status hex now key s))
      ≡ on_items (request_active hex now key actor s) items
  unfolding request_active
  active-eq = elim (Bool-cases (truthy key)) [
    | inl e ↦ elim (Bool-cases (one_of key s.run_now_history)) [
      | inl f ↦ rw (e, f) refl
      | inr f ↦
          let new : (truthy key && one_of key s.run_now_history) ≡ false = rw (e, f) refl in
          elim (Bool-cases (is_busy s)) [
            | inl g ↦
                let same = asked_record-busy hex now key s g new in
                rw (e, f, g) (ap (commit_request actor items) same)
            | inr g ↦
                let same = asked_record-free hex now key s g new in
                rw (e, f, g) (ap (commit_request actor items) same)
          ]
    ]
    | inr e ↦
        let new : (truthy key && one_of key s.run_now_history) ≡ false = rw e refl in
        elim (Bool-cases (is_busy s)) [
          | inl g ↦ rw (e, g) refl
          | inr g ↦
              let same = asked_record-free hex now key s g new in
              rw (e, g) (ap (commit_request actor items) same)
        ]
  ]

request_body-eq :
    (id name hex now key actor : String) (items : List ExtensionScheduleStatus)
    → request_body id name hex now key actor items
      ≡ on_items (request_spec name hex now key actor (find_item id items)) items
unfolding request_body request_spec
request_body-eq id name hex now key actor items = go (find_item id items)
  where
    by_state :
        (s : ExtensionScheduleStatus) (st : State)
        → (if not (same_state st active)
            then raise (invalid_state run_now name st)
            else if truthy key && one_of key s.run_now_history
            then leave s
            else if is_busy s
            then (if not (truthy key)
                then leave s
                else commit_request actor items (keyed_status now key s))
            else commit_request actor items (requested_status hex now key s))
          ≡ on_items
              (elim st [
                | active ↦ request_active hex now key actor s
                | paused ↦ refuse (invalid_state run_now name paused)
                | disabled ↦ refuse (invalid_state run_now name disabled)
              ])
              items
    by_state s active = active-eq name hex now key actor items s
    by_state s paused = refl
    by_state s disabled = refl

    go :
        (o : Option ExtensionScheduleStatus)
        → on_found o (raise (schedule_not_found run_now name)) (λ s.
          if not (same_state s.state active)
          then raise (invalid_state run_now name s.state)
          else if truthy key && one_of key s.run_now_history
          then leave s
          else if is_busy s
          then (if not (truthy key)
              then leave s
              else commit_request actor items (keyed_status now key s))
          else commit_request actor items (requested_status hex now key s))
          ≡ on_items (request_spec name hex now key actor o) items
    go none = refl
    go (some s) = by_state s s.state

not_known :
    (key : String) (s : ExtensionScheduleStatus)
    → is_repeat key s ≡ false
    → (truthy key && one_of key s.run_now_history) ≡ false
not_known key s h = elim (Bool-cases (truthy key)) [ inl e ↦ rw e (rw e at h) | inr e ↦ rw e refl ]

module _ (env : Env) (dates : IsIsoClock env.clock) (t : ℕ) (hex key : String) (h : IsHex hex)
    (k : run_now_key key ≡ some key) where
  asked_record-IsNormal :
      (s : ExtensionScheduleStatus)
      → IsNormal env s
      → (truthy key && one_of key s.run_now_history) ≡ false
      → IsNormal env (asked_record hex (iso env t) key s)
  asked_record-IsNormal s n new = elim (Bool-cases (is_busy s)) [
    | inl e ↦
        subst (λ v. IsNormal env v) (asked_record-busy hex (iso env t) key s e new)
          (keyed_status-IsNormal env dates t s n key k)
    | inr e ↦
        subst (λ v. IsNormal env v) (asked_record-free hex (iso env t) key s e new)
          (requested_status-IsNormal env dates t s n hex key h k)
  ]

  request_active-IsSafe :
      (s : ExtensionScheduleStatus) (actor : String)
      → IsNormal env s
      → tidy s ≡ s
      → IsSafe env (some s) (request_active hex (iso env t) key actor s)
  unfolding request_active asked_record
  request_active-IsSafe s actor n clean = elim (Bool-cases (is_repeat key s)) [
    | inl e ↦ rw e tt
    | inr e ↦ rw e (
      refl,
      asked_record-IsNormal s n (not_known key s e),
      λ i. asked_record hex (iso env t) key (clean i),
    )
  ]

  request_spec-IsSafe :
      (w : World) (id name actor : String)
      → FileIsReadable env w.file
      → IsSafe env
          (record_at id w.file)
          (request_spec name hex (iso env t) key actor (record_at id w.file))
  unfolding request_spec
  request_spec-IsSafe w id name actor f = go (record_at id w.file) refl
    where
      by_state :
          (s : ExtensionScheduleStatus) (st : State)
          → IsSafe env (some s) (request_active hex (iso env t) key actor s)
          → IsSafe env (some s) (elim st [
            | active ↦ request_active hex (iso env t) key actor s
            | paused ↦ refuse (invalid_state run_now name paused)
            | disabled ↦ refuse (invalid_state run_now name disabled)
          ])
      by_state s active x = x
      by_state s paused x = tt
      by_state s disabled x = tt

      go :
          (o : Option ExtensionScheduleStatus)
          → record_at id w.file ≡ o
          → IsSafe env o (request_spec name hex (iso env t) key actor o)
      go none e = tt
      go (some s) e =
          let r = loaded-IsReadable w.file f in
          by_state s s.state (
            request_active-IsSafe s actor (find_item-IsNormal id (loaded w.file) r.normal e).0
              (record_at-tidy id w.file e))

-- On a readable file, with names and a key that are accepted, asking for a run answers as the
-- specification says of the record with the schedule's identity, and the file afterwards, seen as
-- a map from identities to records, is the map before with the change that the specification
-- makes, at that identity only: a record that is absent, paused or disabled is refused, a key
-- that is known, or no key while a run is there, changes nothing, and otherwise the key is
-- remembered and a run is made unless there is one.
pub request_extension_schedule_run-refines :
    (env : Env) (w : World) (extension name e n : String) (now : Option Datetime)
    (raw_key key actor hex k : String)
    → IsIsoClock env.clock
    → IsHex hex
    → FileIsReadable env w.file
    → extension_name extension ≡ some e
    → schedule_name name ≡ some n
    → run_now_key raw_key ≡ some key
    → ((request_extension_schedule_run env extension name now raw_key actor hex w).0
        ≡ answer (
            request_spec n hex
              (iso env (current_time env now))
              key
              actor
              (record_at (schedule_id e n) w.file)))
      × (record_at k
            (request_extension_schedule_run env extension name now raw_key actor hex w).1.file
          ≡ record_after
              (request_spec n hex
                (iso env (current_time env now))
                key
                actor
                (record_at (schedule_id e n) w.file))
              k
              (record_at k w.file))
unfolding request_extension_schedule_run
request_extension_schedule_run-refines env w extension name e n now raw_key key actor hex k dates x
      h p q l =
    let t = current_time env now in
    let id = schedule_id e n in
    rw (p, q, l)
      (refines env id (request_body id n hex (iso env t) key actor)
        (request_spec n hex (iso env t) key actor) (request_body-eq id n hex (iso env t) key actor)
        w h
        (request_spec-IsSafe env dates t hex key x (run_now_key_stable raw_key l) w id n actor h) k)
