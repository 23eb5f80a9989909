-- ===== src/Schedules/Once.antt =====
-- src/enoch/extensions/schedules.py: occurrences are handed out until they are acknowledged, and
-- acknowledged once.
use enoch.Base.{
  String, Bool, true, false, not, ◌||◌, Option, none, some, List, ◌≡◌, refl, sym, ap, subst, ◌∙◌,
  inl, inr, Bool-cases, Option-cases, if◌then◌else◌, ◌==◌, eq_iff,
}
use enoch.Base.Text.{strip, truthy}
use enoch.Queue.Clock.{Datetime}
use enoch.Schedules.Types.{ExtensionScheduleStatus, World, Result, ok, Outcome}
use enoch.Schedules.Times.{Env, current_time}
use enoch.Schedules.Store.{transaction, finish, find_item, replace_item}
use enoch.Schedules.Acknowledge.{
  Acknowledgement, acknowledge_schedule, acknowledge_body, acknowledged_status, next_target,
}
use enoch.Schedules.Normal.{tidy}
use enoch.Schedules.Normal.Dates.{IsIsoClock}
use enoch.Schedules.Normal.Lists.{find_item-IsNormal}
use enoch.Schedules.Normal.Files.{
  IsReadable, FileIsReadable, loaded, loaded-IsReadable, transaction-readable_file,
  replace_item-IsReadable,
}
use enoch.Schedules.Normal.Updates.{IsCleanResult, acknowledged_status-IsNormal}
use enoch.Schedules.Normal.Bodies.{next_target-IsDate}
use enoch.Schedules.Lookup.{record_at, record_at-write, find_item-replace_item, tidied}
use enoch.Schedules.Reach.{acknowledge_schedule-FileIsReadable}

-- When the file is readable and the schedule's record holds another claim than the given one,
-- stripped, an acknowledgement returns `None` and changes neither the file nor the events.
pub acknowledge_schedule-stale :
    (env : Env) (w : World) (schedule claim : String) (now : Option Datetime) (a : Acknowledgement)
    (s : ExtensionScheduleStatus)
    → FileIsReadable env w.file
    → record_at (strip schedule) w.file ≡ some s
    → (s.claim_id == strip claim) ≡ false
    → acknowledge_schedule env schedule claim now a w ≡ (ok none, w)
unfolding acknowledge_schedule acknowledge_body
acknowledge_schedule-stale env w schedule claim now a s h found other =
    go (not (truthy (strip schedule)) || not (truthy (strip claim)))
  where
    body : List ExtensionScheduleStatus → Outcome (Option ExtensionScheduleStatus)
    body = acknowledge_body env (current_time env now) (strip schedule) (strip claim) a

    go : (b : Bool) → (if b then (ok none, w) else transaction env body w) ≡ (ok none, w)
    go true = refl
    go false = transaction-readable_file env body w h ∙ rw (found, acknowledge_body, other) refl

acknowledge_schedule-blank :
    (env : Env) (schedule claim : String) (now : Option Datetime) (a : Acknowledgement) (w : World)
    → truthy (strip claim) ≡ false
    → acknowledge_schedule env schedule claim now a w ≡ (ok none, w)
unfolding acknowledge_schedule
acknowledge_schedule-blank env schedule claim now a w f =
    elim (Bool-cases (truthy (strip schedule))) [
      | inl e ↦ rw (acknowledge_schedule, e, f) refl
      | inr e ↦ rw (acknowledge_schedule, e) refl
    ]

unlike_empty : (t : String) → truthy t ≡ true → ("" == t) ≡ false
unlike_empty String.[] k = absurd (cc)
unlike_empty (String.◌∷◌ c t) k = elim (Bool-cases ("" == String.◌∷◌ c t)) [
  | inl e ↦ let same : "" ≡ String.◌∷◌ c t = (eq_iff "" (String.◌∷◌ c t)).0 e in absurd (cc)
  | inr e ↦ e
]

module _ (env : Env) (dates : IsIsoClock env.clock) (w : World) (h : FileIsReadable env w.file)
    (schedule claim : String) (now : Option Datetime) (a : Acknowledgement)
    (clean : IsCleanResult a) where
  -- When a record is returned, the claim had a text, and the record in the file holds no claim.
  abbrev Released : Result (Option ExtensionScheduleStatus) × World → Type 0
  Released (r, v) =
      (u : ExtensionScheduleStatus)
      → r ≡ ok (some u)
      → (s : ExtensionScheduleStatus) × (record_at (strip schedule) v.file ≡ some s)
        × (s.claim_id ≡ "")

  body : List ExtensionScheduleStatus → Outcome (Option ExtensionScheduleStatus)
  body = acknowledge_body env (current_time env now) (strip schedule) (strip claim) a

  finish-Released :
      (items : List ExtensionScheduleStatus)
      → IsReadable env items
      → Released (finish w (body items))
  unfolding body acknowledge_body acknowledged_status
  finish-Released items r = elim (Option-cases (find_item (strip schedule) items)) [
    | inl e ↦ rw (e, acknowledge_body) (λ u k. absurd (cc))
    | inr (s, e) ↦ elim (Bool-cases (s.claim_id == strip claim)) [
      | inr f ↦ rw (e, acknowledge_body, f) (λ u k. absurd (cc))
      | inl f ↦ elim (Option-cases (next_target env (current_time env now) s)) [
        | inl g ↦ rw (e, acknowledge_body, f, g) (λ u k. absurd (cc))
        | inr (next, g) ↦
            let (n, same) = find_item-IsNormal (strip schedule) items r.normal e in
            let updated = acknowledged_status env (current_time env now) next a s in
            let normal =
              acknowledged_status-IsNormal env dates (current_time env now) s n next a
                (next_target-IsDate env dates (current_time env now) items r s n g) clean in
            let at : find_item updated.id items ≡ some s = ap (λ v. find_item v items) same ∙ e in
            rw (e, acknowledge_body, f, g)
              (λ u k. (
                tidy updated,
                record_at-write env (strip schedule) (replace_item updated items)
                      (replace_item-IsReadable updated items normal r)
                    ∙ ap tidied (
                        ap (λ v. find_item v (replace_item updated items)) (sym same)
                        ∙ find_item-replace_item updated items at),
                refl,
              ))
      ]
    ]
  ]

  released : (b : Bool) → Released (if b then (ok none, w) else transaction env body w)
  released true = λ u k. absurd (cc)
  released false =
      subst (λ v. Released v) (sym (transaction-readable_file env body w h))
        (finish-Released (loaded w.file) (loaded-IsReadable w.file h))

  acknowledge_schedule-Released : Released (acknowledge_schedule env schedule claim now a w)
  unfolding acknowledge_schedule body
  acknowledge_schedule-Released =
      released (not (truthy (strip schedule)) || not (truthy (strip claim)))

  -- When the file is readable, and an acknowledgement whose outcome and code are clean and whose
  -- task id, if there is one, is positive returns a record, then a second acknowledgement of the
  -- same schedule with the same claim, at whatever time and with whatever result, returns `None`
  -- and changes neither the file nor the events.
  pub acknowledge_schedule-once :
      (u : ExtensionScheduleStatus) (now' : Option Datetime) (a' : Acknowledgement)
      → (acknowledge_schedule env schedule claim now a w).0 ≡ ok (some u)
      → acknowledge_schedule env schedule claim now' a'
          (acknowledge_schedule env schedule claim now a w).1
        ≡ (ok none, (acknowledge_schedule env schedule claim now a w).1)
  acknowledge_schedule-once u now' a' e =
      let after = (acknowledge_schedule env schedule claim now a w).1 in
      elim (Bool-cases (truthy (strip claim))) [
        | inr f ↦ acknowledge_schedule-blank env schedule claim now' a' after f
        | inl f ↦
            let (s, found, free) = acknowledge_schedule-Released u e in
            acknowledge_schedule-stale env after schedule claim now' a' s
              (acknowledge_schedule-FileIsReadable env dates w h schedule claim now a clean) found
              (ap (λ v. v == strip claim) free ∙ unlike_empty (strip claim) f)
      ]
