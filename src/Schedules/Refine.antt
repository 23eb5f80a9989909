-- ===== src/Schedules/Refine.antt =====
-- src/enoch/extensions/schedules.py: an abstract view of the file, a map from identities to
-- records, and what the operations on one schedule do to that map.
pub mod Controls
pub mod Requests
use Prim.Native.String.{String, ◌++◌}
use enoch.Base.{
  ℕ, suc, Bool, true, false, not, ◌&&◌, ◌||◌, Option, none, some, List, [], ◌∷◌, map, find, ◌≡◌,
  refl, sym, ap, subst, ◌∙◌, arith, inl, inr, Bool-cases, Option-cases, if◌then◌else◌,
  some-injective, ◌==◌, eq_iff,
}
use enoch.Base.Text.{truthy, strip, one_of}
use enoch.Schedules.Types.{
  State, active, paused, disabled, Control, pause, resume, status, run_now, ExtensionScheduleStatus,
  World, Result, ok, err, Error, Outcome, raise, leave, commit, ScheduleEvent, schedule_not_found,
  invalid_state,
}
use enoch.Schedules.Times.{Env, iso}
use enoch.Schedules.Store.{
  transaction, finish, find_item, replace_item, write_schedule_data, schedule_event, sorted,
}
use enoch.Schedules.Normal.{IsNormal, tidy}
use enoch.Schedules.Normal.Lists.{find_item-IsNormal, tidy-tidy}
use enoch.Schedules.Normal.Files.{
  IsReadable, FileIsReadable, loaded, held, loaded-IsReadable, transaction-readable_file,
  replace_item-IsReadable,
}
use enoch.Schedules.Lookup.{
  record_at, record_at-write, find_item-replace_item, find_item-others, tidied, tidied-twice,
  find_item-loaded,
}

-- What an operation decides on the record of its schedule.
pub data Decision (A : Type 0) : Type 0 where
  refuse : Error → Decision A
  keep : A → Decision A
  change : ExtensionScheduleStatus → List ScheduleEvent → A → Decision A

module _ {A : Type 0} where
  -- The answer that the caller gets.
  abbrev pub answer : Decision A → Result A
  answer (refuse e) = err e
  answer (keep a) = ok a
  answer (change u events a) = ok a

  -- The record with the identity `k` afterwards.
  abbrev pub record_after :
      Decision A → String → Option ExtensionScheduleStatus → Option ExtensionScheduleStatus
  record_after (change u events a) k old = if u.id == k then some u else old
  record_after _ k old = old

  -- The same decision on a list of records.
  abbrev pub on_items : Decision A → List ExtensionScheduleStatus → Outcome A
  on_items (refuse e) items = raise e
  on_items (keep a) items = leave a
  on_items (change u events a) items = commit (replace_item u items) events a

  -- A decision that the file can hold: it changes the record that it was made on.
  abbrev pub IsSafe : Env → Option ExtensionScheduleStatus → Decision A → Type 0
  IsSafe env o (refuse e) = Unit
  IsSafe env o (keep a) = Unit
  IsSafe env none (change u events a) = ⊥
  IsSafe env (some s) (change u events a) = (u.id ≡ s.id) × IsNormal env u × (tidy u ≡ u)

  -- A body that follows a specification is, on the file, an update of the map.
  pub refines :
      (env : Env) (id : String) (body : List ExtensionScheduleStatus → Outcome A)
      (spec : Option ExtensionScheduleStatus → Decision A)
      → ((items : List ExtensionScheduleStatus)
          → body items ≡ on_items (spec (find_item id items)) items)
      → (w : World) → FileIsReadable env w.file
      → IsSafe env (record_at id w.file) (spec (record_at id w.file))
      → (k : String)
      → ((transaction env body w).0 ≡ answer (spec (record_at id w.file)))
        × (record_at k (transaction env body w).1.file
            ≡ record_after (spec (record_at id w.file)) k (record_at k w.file))
  refines env id body spec agree w h safe k =
      rw (transaction-readable_file env body w h, agree (loaded w.file))
        (go (spec (record_at id w.file)) (record_at id w.file) refl safe)
    where
      r : IsReadable env (loaded w.file)
      r = loaded-IsReadable w.file h

      go :
          (d : Decision A) (o : Option ExtensionScheduleStatus)
          → record_at id w.file ≡ o
          → IsSafe env o d
          → ((finish w (on_items d (loaded w.file))).0 ≡ answer d)
            × (record_at k (finish w (on_items d (loaded w.file))).1.file
                ≡ record_after d k (record_at k w.file))
      go (refuse e) o p q = (refl, refl)
      go (keep a) o p q = (refl, refl)
      go (change u events a) none p q = absurd (q)
      go (change u events a) (some s) p (same, normal, clean) =
          let (n, named) = find_item-IsNormal id (loaded w.file) r.normal p in
          let at : find_item u.id (loaded w.file) ≡ some s =
            ap (λ v. find_item v (loaded w.file)) (same ∙ named) ∙ p in
          let written =
            record_at-write env k (replace_item u (loaded w.file))
              (replace_item-IsReadable u (loaded w.file) normal r) in
          (
            refl,
            written ∙ (elim (Bool-cases (u.id == k)) [
              | inl e ↦
                  let here : u.id ≡ k = (eq_iff u.id k).0 e in
                  rw e (
                    ap tidied (
                      ap (λ v. find_item v (replace_item u (loaded w.file))) (sym here)
                      ∙ find_item-replace_item u (loaded w.file) at)
                    ∙ ap some clean)
              | inr e ↦
                  rw e
                    (ap tidied (find_item-others u k (loaded w.file) e) ∙ find_item-loaded k w.file)
            ]),
          )
