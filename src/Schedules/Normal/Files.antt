-- ===== src/Schedules/Normal/Files.antt =====
-- src/enoch/extensions/schedules.py: files whose records are read back as they are, and what a
-- transaction makes of them.
use enoch.Base.{
  Bool, true, false, Option, none, some, List, [], map, ◌≡◌, refl, ap, ◌∙◌, if◌then◌else◌,
}
use enoch.Schedules.Types.{
  ExtensionScheduleStatus, ScheduleEvent, Error, ok, Outcome, raise, leave, commit, World,
}
use enoch.Schedules.Times.{Env, distinct_texts}
use enoch.Schedules.Store.{
  sorted, ids, load_schedule_data, write_schedule_data, transaction, finish, replace_item,
}
use enoch.Schedules.Normal.{IsNormal, tidy}
use enoch.Schedules.Normal.Lists.{
  AllNormal, nil, traverse-AllNormal, filter_map-AllNormal, sorted-AllNormal, distinct-sorted,
  replace_item-AllNormal, ids-replace_item, tidy-AllNormal, ids-tidy, sorted-tidy, map-tidy-tidy,
}

-- Records that are read back as they are, no two of them with one identity.
pub record IsReadable (env : Env) (items : List ExtensionScheduleStatus) : Type 0 where
  pub normal : AllNormal env items
  pub distinct : distinct_texts (ids items) ≡ true

-- The file is absent or readable.
abbrev pub FileIsReadable : Env → Option (List ExtensionScheduleStatus) → Type 0
FileIsReadable env none = Unit
FileIsReadable env (some items) = IsReadable env items

-- The records that a file holds.
abbrev pub held : Option (List ExtensionScheduleStatus) → List ExtensionScheduleStatus
held none = []
held (some items) = items

pub sorted-IsReadable :
    {env : Env} (items : List ExtensionScheduleStatus)
    → IsReadable env items
    → IsReadable env (sorted items)
sorted-IsReadable items r = record {
  normal = sorted-AllNormal r.normal;
  distinct = distinct-sorted items ∙ r.distinct;
}

pub replace_item-IsReadable :
    {env : Env} (u : ExtensionScheduleStatus) (items : List ExtensionScheduleStatus)
    → IsNormal env u
    → IsReadable env items
    → IsReadable env (replace_item u items)
replace_item-IsReadable u items n r = record {
  normal = replace_item-AllNormal u n r.normal;
  distinct = ap distinct_texts (ids-replace_item u items) ∙ r.distinct;
}

pub held-IsReadable :
    {env : Env} (f : Option (List ExtensionScheduleStatus))
    → FileIsReadable env f
    → IsReadable env (held f)
unfolding distinct_texts
held-IsReadable none h = record { normal = nil; distinct = refl }
held-IsReadable (some items) h = h

-- The records that a transaction works on.
abbrev pub loaded : Option (List ExtensionScheduleStatus) → List ExtensionScheduleStatus
loaded f = map tidy (sorted (held f))

pub loaded-IsReadable :
    {env : Env} (f : Option (List ExtensionScheduleStatus))
    → FileIsReadable env f
    → IsReadable env (loaded f)
loaded-IsReadable f h =
    let r = held-IsReadable f h in
    record {
      normal = tidy-AllNormal (sorted (held f)) (sorted-AllNormal r.normal);
      distinct =
          ap distinct_texts (ids-tidy (sorted (held f))) ∙ distinct-sorted (held f) ∙ r.distinct;
    }

-- A readable file is read.
pub load_schedule_data-readable :
    (env : Env) (w : World)
    → FileIsReadable env w.file
    → load_schedule_data env w ≡ ok (loaded w.file)
unfolding load_schedule_data sorted
load_schedule_data-readable env w h = go w.file h
  where
    go :
        (f : Option (List ExtensionScheduleStatus))
        → FileIsReadable env f
        → load_schedule_data env (record w { file = f }) ≡ ok (loaded f)
    go none h = refl
    go (some items) h =
        rw (traverse-AllNormal env items h.normal, ids-tidy items, h.distinct)
          (ap ok (sorted-tidy items))

-- A transaction on a readable file runs its body on the file's records.
pub transaction-readable_file :
    {A : Type 0} (env : Env) (body : List ExtensionScheduleStatus → Outcome A) (w : World)
    → FileIsReadable env w.file
    → transaction env body w ≡ finish w (body (loaded w.file))
unfolding transaction
transaction-readable_file env body w h = rw (load_schedule_data-readable env w h) (
    ap (λ (l : List ExtensionScheduleStatus). finish w (body l))
      (filter_map-AllNormal env (loaded w.file) (IsReadable.normal (loaded-IsReadable w.file h))
        ∙ map-tidy-tidy (sorted (held w.file))))

-- What a body writes satisfies `P`; it may write nothing.
pub data Writes {A : Type 0} (P : List ExtensionScheduleStatus → Type 0) : Outcome A → Type 0 where
  raised : (e : Error) → Writes P (raise e)
  left : (a : A) → Writes P (leave a)
  written :
      {items : List ExtensionScheduleStatus} {events : List ScheduleEvent} {a : A}
      → P items
      → Writes P (commit items events a)

module _ {A : Type 0} {P : List ExtensionScheduleStatus → Type 0} where
  pub Writes-if :
      (b : Bool) {x y : Outcome A}
      → (b ≡ true → Writes P x)
      → (b ≡ false → Writes P y)
      → Writes P (if b then x else y)
  Writes-if true hx hy = hx refl
  Writes-if false hx hy = hy refl

-- A transaction keeps a file readable if its body writes readable records.
pub transaction-FileIsReadable :
    {A : Type 0} (env : Env) (body : List ExtensionScheduleStatus → Outcome A)
    → ((items : List ExtensionScheduleStatus)
        → IsReadable env items
        → Writes (IsReadable env) (body items))
    → (w : World) → FileIsReadable env w.file
    → FileIsReadable env (transaction env body w).1.file
unfolding write_schedule_data
transaction-FileIsReadable {A} env body keeps w h =
    rw (transaction-readable_file env body w h)
      (end (body (loaded w.file)) (keeps (loaded w.file) (loaded-IsReadable w.file h)))
  where
    end : (o : Outcome A) → Writes (IsReadable env) o → FileIsReadable env (finish w o).1.file
    end (raise e) k = h
    end (leave a) k = h
    end (commit items events a) (written k) = sorted-IsReadable items k
