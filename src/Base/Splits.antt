-- ===== src/Base/Splits.antt =====
-- What the searches over lists find.
use mathlib.Core.Path.{◌≡◌, refl, ap, sym, ◌∙◌}
use mathlib.Core.Bool.{Bool, true, false}
use mathlib.Core.List.{List, [], ◌∷◌, ◌++◌}
use mathlib.Core.Option.{Option, none, some}
use mathlib.Core.Logic.{inl, inr}
use enoch.Base.Tests.{Bool-cases, some-injective, if◌then◌else◌}
use enoch.Base.Lists.{split_first, before, find}

module _ {ℓ} {A : Type ℓ} where
  -- The first element that passes, in its place.
  pub split_first-eq-some :
      (p : A → Bool) (xs : List A) {b a : List A} {j : A}
      → split_first p xs ≡ some (b, j, a)
      → (xs ≡ b ++ j ∷ a) × (p j ≡ true)
  split_first-eq-some p [] h = absurd (cc)
  split_first-eq-some p (x ∷ xs) {b} {a} {j} h =
      go (p x) (split_first p xs) refl (λ b' j' a' e. split_first-eq-some p xs e) h
    where
      go :
          (t : Bool) (o : Option (List A × A × List A))
          → p x ≡ t
          → ((b' : List A) (j' : A) (a' : List A)
              → o ≡ some (b', j', a')
              → (xs ≡ b' ++ j' ∷ a') × (p j' ≡ true))
          → (if t then some ([], x, xs) else before x o) ≡ some (b, j, a)
          → (x ∷ xs ≡ b ++ j ∷ a) × (p j ≡ true)
      go true o e rec q =
          let same = some-injective q in
          ((λ i. (same i).0 ++ (same i).1 ∷ (same i).2), (λ i. p (sym same i).1) ∙ e)
      go false none e rec q = absurd (cc)
      go false (some (b', j', a')) e rec q =
          let same = some-injective q in
          let (whole, passed) = rec b' j' a' refl in
          (
            ap (λ (l : List A). x ∷ l) whole ∙ (λ i. (same i).0 ++ (same i).1 ∷ (same i).2),
            (λ i. p (sym same i).1) ∙ passed,
          )

  -- An element that `find` returns passes its test.
  pub find-passes : (p : A → Bool) (xs : List A) {j : A} → find p xs ≡ some j → p j ≡ true
  find-passes p [] h = absurd (cc)
  find-passes p (x ∷ xs) {j} h = elim (Bool-cases (p x)) [
    | inl t ↦ let same : x ≡ j = some-injective (sym (if_true_eq t) ∙ h) in ap p (sym same) ∙ t
    | inr f ↦ find-passes p xs (sym (if_false_eq f) ∙ h)
  ]
    where
      if_true_eq : p x ≡ true → (if p x then some x else find p xs) ≡ some x
      if_true_eq t = rw t

      if_false_eq : p x ≡ false → (if p x then some x else find p xs) ≡ find p xs
      if_false_eq f = rw f
