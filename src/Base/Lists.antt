-- ===== src/Base/Lists.antt =====
-- List functions that run: tests over lists, the first element that passes, partial maps.
use Prim.Native.Nat.{ℕ, suc}
use mathlib.Core.Bool.{Bool, true, false, ◌&&◌, ◌||◌}
use mathlib.Core.List.{List, [], ◌∷◌}
use mathlib.Core.Option.{Option, none, some}
use enoch.Base.Tests.{if◌then◌else◌}

module _ {ℓ} {A : Type ℓ} where
  abbrev pub length : List A → ℕ
  length [] = 0
  length (x ∷ xs) = suc (length xs)

  -- `any(p(x) for x in xs)`
  abbrev pub any : (A → Bool) → List A → Bool
  any p [] = false
  any p (x ∷ xs) = p x || any p xs

  -- `all(p(x) for x in xs)`
  abbrev pub all : (A → Bool) → List A → Bool
  all p [] = true
  all p (x ∷ xs) = p x && all p xs

  -- `next((x for x in xs if p(x)), None)`
  abbrev pub find : (A → Bool) → List A → Option A
  find p [] = none
  find p (x ∷ xs) = if p x then some x else find p xs

  -- `[x for x in xs if p(x)]`
  abbrev pub keep : (A → Bool) → List A → List A
  keep p [] = []
  keep p (x ∷ xs) = let rest = keep p xs in if p x then x ∷ rest else rest

  abbrev pub before : A → Option (List A × A × List A) → Option (List A × A × List A)
  before x none = none
  before x (some (front, y, back)) = some (x ∷ front, y, back)

  -- The first element that passes, with what stands before and behind it.
  abbrev pub split_first : (A → Bool) → List A → Option (List A × A × List A)
  split_first p [] = none
  split_first p (x ∷ xs) =
      let later = before x (split_first p xs) in if p x then some ([], x, xs) else later

  abbrev pub null : List A → Bool
  null [] = true
  null (x ∷ xs) = false

module _ {κ} {B : Type κ} where
  abbrev pub put_some : Option B → List B → List B
  put_some none ys = ys
  put_some (some y) ys = y ∷ ys

  abbrev pub all_some : Option B → Option (List B) → Option (List B)
  all_some none ys = none
  all_some (some y) none = none
  all_some (some y) (some ys) = some (y ∷ ys)

module _ {ℓ κ} {A : Type ℓ} {B : Type κ} where
  -- `[y for y in map(f, xs) if y is not None]`
  abbrev pub filter_map : (A → Option B) → List A → List B
  filter_map f [] = []
  filter_map f (x ∷ xs) = put_some (f x) (filter_map f xs)

  -- The list of the results if every element has one.
  abbrev pub traverse : (A → Option B) → List A → Option (List B)
  traverse f [] = some []
  traverse f (x ∷ xs) = all_some (f x) (traverse f xs)
