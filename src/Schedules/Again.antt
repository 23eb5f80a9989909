-- ===== src/Schedules/Again.antt =====
-- src/enoch/extensions/schedules.py: a run that is asked for again with the same key.
use enoch.Base.{
  ℕ, zero, suc, ◌+◌, ◌-◌, ◌≤◌, ◌++◌, length, String, Bool, true, false, Option, none, some, List,
  [], ◌∷◌, ◌≡◌, refl, sym, ap, ◌∙◌, arith, inl, inr, Bool-cases, if◌then◌else◌, ◌==◌, eq_iff,
}
use enoch.Base.Text.{truthy, one_of}
use enoch.Queue.Clock.{Datetime}
use enoch.Schedules.Types.{
  State, active, paused, disabled, ExtensionScheduleStatus, World, ok, run_now, invalid_state,
  leave,
}
use enoch.Schedules.Times.{
  Env, iso, current_time, extension_name, schedule_name, schedule_id, run_now_key,
}
use enoch.Schedules.Store.{find_item, transaction, finish}
use enoch.Schedules.Control.{request_extension_schedule_run, request_body}
use enoch.Schedules.Normal.Dates.{IsIsoClock, IsHex}
use enoch.Schedules.Normal.Lists.{find_item-IsNormal}
use enoch.Schedules.Normal.Files.{
  FileIsReadable, loaded, loaded-IsReadable, transaction-readable_file,
}
use enoch.Schedules.Lookup.{record_at}
use enoch.Schedules.Reach.{request_extension_schedule_run-FileIsReadable}
use enoch.Schedules.Refine.{answer, record_after, refuse}
use enoch.Schedules.Refine.Requests.{
  drop, remembered, asked_record, is_repeat, request_active, request_spec,
  request_extension_schedule_run-refines,
}

same : (s : String) → (s == s) ≡ true
same s = (eq_iff s s).1 refl

-- The last of the keys is not dropped.
one_of-drop :
    (key : String) (n : ℕ) (keys : List String)
    → n ≤ length keys
    → one_of key (drop n (keys ++ key ∷ [])) ≡ true
one_of-drop key zero [] h = rw (same key) refl
one_of-drop key (suc n) [] h = absurd (omega (arith, h))
one_of-drop key zero (x ∷ xs) h = ground (arith, one_of-drop key zero xs (omega arith))
one_of-drop key (suc n) (x ∷ xs) h = one_of-drop key n xs (omega (arith, h))

remembered-has :
    (history : List String) (key : String)
    → truthy key ≡ true
    → one_of key (remembered history key) ≡ true
remembered-has history key h =
    rw h (one_of-drop key (length history + 1 - 64) history (omega arith))

chosen : (x y : Option ExtensionScheduleStatus) (b : Bool) → b ≡ true → (if b then x else y) ≡ x
chosen x y true h = refl
chosen x y false h = absurd (cc)

ok-injective : {s u : ExtensionScheduleStatus} → ok s ≡ ok u → s ≡ u
ok-injective h = cc

module _ (name hex now key actor id : String) (named : truthy key ≡ true) where
  -- After a request that was granted, the record is active and has the key.
  request_active-has :
      (s : ExtensionScheduleStatus) {u : ExtensionScheduleStatus}
      → s.id ≡ id
      → s.state ≡ active
      → answer (request_active hex now key actor s) ≡ ok u
      → (record_after (request_active hex now key actor s) id (some s) ≡ some u)
        × (u.state ≡ active)
        × (one_of key u.run_now_history ≡ true)
  unfolding request_active asked_record
  request_active-has s {u} own st h = elim (Bool-cases (is_repeat key s)) [
    | inl e ↦
        let kept : s ≡ u = ok-injective (rw e at h) in
        rw e (
          ap some kept,
          ap (λ v. v.state) (sym kept) ∙ st,
          ap (λ v. one_of key v.run_now_history) (sym kept) ∙ known e,
        )
    | inr e ↦
        let changed : asked_record hex now key s ≡ u = ok-injective (rw e at h) in
        rw e (
          chosen _ _ (s.id == id) (ap (λ v. v == id) own ∙ same id) ∙ ap some changed,
          ap (λ v. v.state) (sym changed) ∙ st,
          ap (λ v. one_of key v.run_now_history) (sym changed)
              ∙ remembered-has s.run_now_history key named,
        )
  ]
    where
      known : is_repeat key s ≡ true → one_of key s.run_now_history ≡ true
      known e = rw named at e

  request_spec-has :
      (o : Option ExtensionScheduleStatus) {u : ExtensionScheduleStatus}
      → ((s : ExtensionScheduleStatus) → o ≡ some s → s.id ≡ id)
      → answer (request_spec name hex now key actor o) ≡ ok u
      → (record_after (request_spec name hex now key actor o) id o ≡ some u)
        × (u.state ≡ active)
        × (one_of key u.run_now_history ≡ true)
  unfolding request_spec
  request_spec-has none own h = absurd (cc)
  request_spec-has (some s) {u} own h = go s.state refl h
    where
      go :
          (st : State)
          → s.state ≡ st
          → answer (elim st [
            | active ↦ request_active hex now key actor s
            | paused ↦ refuse (invalid_state run_now name paused)
            | disabled ↦ refuse (invalid_state run_now name disabled)
          ])
            ≡ ok u
          → (record_after
                (elim st [
                  | active ↦ request_active hex now key actor s
                  | paused ↦ refuse (invalid_state run_now name paused)
                  | disabled ↦ refuse (invalid_state run_now name disabled)
                ])
                id
                (some s)
              ≡ some u)
            × (u.state ≡ active)
            × (one_of key u.run_now_history ≡ true)
      go active e h = request_active-has s (own s refl) e h
      go paused e h = absurd (cc)
      go disabled e h = absurd (cc)

-- A record with the key is left as it is.
request_body-known :
    (id name hex now key actor : String) (items : List ExtensionScheduleStatus)
    (u : ExtensionScheduleStatus)
    → truthy key ≡ true
    → find_item id items ≡ some u
    → u.state ≡ active
    → one_of key u.run_now_history ≡ true
    → request_body id name hex now key actor items ≡ leave u
unfolding request_body
request_body-known id name hex now key actor items u named found st known =
    rw (found, st, named, known) refl

-- The call is a transaction where its arguments are accepted.
opened :
    (env : Env) (w : World) (extension name e n : String) (now : Option Datetime)
    (raw_key key actor hex : String)
    → extension_name extension ≡ some e
    → schedule_name name ≡ some n
    → run_now_key raw_key ≡ some key
    → request_extension_schedule_run env extension name now raw_key actor hex w
      ≡ transaction env
          (request_body (schedule_id e n) n hex (iso env (current_time env now)) key actor)
          w
unfolding request_extension_schedule_run
opened env w extension name e n now raw_key key actor hex p q l = rw (p, q, l) refl

-- On a readable file, with names and a key that are accepted and a key that is not blank, when
-- asking for a run returns a record, asking again with the same key, at whatever time and by
-- whatever actor, returns that record again and changes neither the file nor the events.
pub request_extension_schedule_run-again :
    (env : Env) (w : World) (extension name e n : String) (now now' : Option Datetime)
    (raw_key key actor actor' hex hex' : String) (u : ExtensionScheduleStatus)
    → IsIsoClock env.clock
    → IsHex hex
    → FileIsReadable env w.file
    → extension_name extension ≡ some e
    → schedule_name name ≡ some n
    → run_now_key raw_key ≡ some key
    → truthy key ≡ true
    → (request_extension_schedule_run env extension name now raw_key actor hex w).0 ≡ ok u
    → request_extension_schedule_run env extension name now' raw_key actor' hex'
        (request_extension_schedule_run env extension name now raw_key actor hex w).1
      ≡ (ok u, (request_extension_schedule_run env extension name now raw_key actor hex w).1)
request_extension_schedule_run-again env w extension name e n now now' raw_key key actor actor' hex
      hex' u dates x h p q l named granted =
    let id = schedule_id e n in
    let t = iso env (current_time env now) in
    let w' = (request_extension_schedule_run env extension name now raw_key actor hex w).1 in
    let h' =
      request_extension_schedule_run-FileIsReadable env dates w h extension name now raw_key actor
        hex x in
    let (answers, after) =
      request_extension_schedule_run-refines env w extension name e n now raw_key key actor hex id
        dates x h p q l in
    let (there, st, known) =
      request_spec-has n hex t key actor id named (record_at id w.file)
        (λ s found.
          (find_item-IsNormal id (loaded w.file) (loaded-IsReadable w.file h).normal found).1)
        (sym answers ∙ granted) in
    opened env w' extension name e n now' raw_key key actor' hex' p q l
    ∙ transaction-readable_file env _ w' h'
    ∙ ap (finish w') (
        request_body-known id n hex' (iso env (current_time env now')) key actor' (loaded w'.file) u
          named (after ∙ there) st known)
