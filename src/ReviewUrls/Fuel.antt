-- ===== src/ReviewUrls/Fuel.antt =====
-- src/enoch/tasks/queue.py: the fuel of the search for review addresses.
use Prim.Native.Char.{Char}
use Prim.Native.String.{String, ◌++◌}
use enoch.Base.{
  ℕ, zero, suc, ◌≡◌, ◌≤◌, refl, ap, Bool, true, false, Option, some, none, arith, if◌then◌else◌,
  List, ◌∷◌,
}
use enoch.Base.Text.{len, starts_with, drop_prefix, is_digit, is_space, truthy}
use enoch.ReviewUrls.{
  take_digits, with_tail, review_tail, prepend, first_some, greedy_match, review_match, find_all,
}

drop_prefix-shorter : (s p : String) → len (drop_prefix s p) ≤ len s
drop_prefix-shorter s String.[] = omega arith
drop_prefix-shorter String.[] (String.◌∷◌ p ps) = omega arith
drop_prefix-shorter (String.◌∷◌ c s) (String.◌∷◌ p ps) = omega (arith, drop_prefix-shorter s ps)

take_digits-shorter : (s : String) → len (take_digits s).1 ≤ len s
unfolding take_digits
take_digits-shorter String.[] = omega arith
take_digits-shorter (String.◌∷◌ c s) = go (is_digit c) (take_digits-shorter s)
  where
    go :
        (b : Bool)
        → len (take_digits s).1 ≤ len s
        → len
            (if◌then◌else◌ {A = String × String} b
              (String.◌∷◌ c (take_digits s).0, (take_digits s).1)
              (String.[], String.◌∷◌ c s)).1
          ≤ suc (len s)
    go true h = omega (arith, h)
    go false h = omega arith

-- What follows a match is no longer than the text.
abbrev IsShorter : ℕ → Option (String × String) → Type 0
IsShorter n none = Unit
IsShorter n (some (m, rest)) = len rest ≤ n

IsShorter-mono : (m n : ℕ) (o : Option (String × String)) → m ≤ n → IsShorter m o → IsShorter n o
IsShorter-mono m n none h k = tt
IsShorter-mono m n (some (a, b)) h k = omega (arith, h, k)

IsShorter-if :
    (n : ℕ) (b : Bool) (x y : Option (String × String))
    → IsShorter n x
    → IsShorter n y
    → IsShorter n (if b then x else y)
IsShorter-if n true x y h k = h
IsShorter-if n false x y h k = k

with_tail-IsShorter : (segment s : String) → IsShorter (len s) (with_tail segment s)
with_tail-IsShorter segment s =
    IsShorter-if (len s) (truthy (take_digits s).0)
      (some (segment ++ (take_digits s).0, (take_digits s).1)) none (take_digits-shorter s) tt

-- A tail after a prefix of the text.
tail_after : (segment s p : String) → IsShorter (len s) (with_tail segment (drop_prefix s p))
tail_after segment s p =
    IsShorter-mono (len (drop_prefix s p)) (len s) (with_tail segment (drop_prefix s p))
      (drop_prefix-shorter s p) (with_tail-IsShorter segment (drop_prefix s p))

review_tail-IsShorter : (s : String) → IsShorter (len s) (review_tail s)
unfolding review_tail
review_tail-IsShorter s =
    go (starts_with s "/pull/") (starts_with s "/pulls/") (starts_with s "/merge_requests/")
  where
    go :
        (a b c : Bool)
        → IsShorter (len s) (
            if a
            then with_tail "/pull/" (drop_prefix s "/pull/")
            else if b
            then with_tail "/pulls/" (drop_prefix s "/pulls/")
            else if c
            then with_tail "/merge_requests/" (drop_prefix s "/merge_requests/")
            else none)
    go true b c = tail_after "/pull/" s "/pull/"
    go false true c = tail_after "/pulls/" s "/pulls/"
    go false false true = tail_after "/merge_requests/" s "/merge_requests/"
    go false false false = tt

prepend-IsShorter :
    (n : ℕ) (c : Char) (o : Option (String × String))
    → IsShorter n o
    → IsShorter (suc n) (prepend c o)
prepend-IsShorter n c none h = tt
prepend-IsShorter n c (some (a, b)) h = omega (arith, h)

first_some-IsShorter :
    (n : ℕ) (o q : Option (String × String))
    → IsShorter n o
    → IsShorter n q
    → IsShorter n (first_some o q)
first_some-IsShorter n none q h k = k
first_some-IsShorter n (some a) q h k = h

greedy_match-IsShorter : (s : String) → IsShorter (len s) (greedy_match s)
unfolding greedy_match
greedy_match-IsShorter String.[] = tt
greedy_match-IsShorter (String.◌∷◌ c s) = IsShorter-if (suc (len s)) (is_space c) none _ tt (
    first_some-IsShorter (suc (len s)) (prepend c (greedy_match s)) (prepend c (review_tail s))
      (prepend-IsShorter (len s) c (greedy_match s) (greedy_match-IsShorter s))
      (prepend-IsShorter (len s) c (review_tail s) (review_tail-IsShorter s)))

-- A match takes at least one character.
review_match-IsShorter : (c : Char) (s : String) → IsShorter (len s) (review_match (String.◌∷◌ c s))
unfolding review_match
review_match-IsShorter c s = IsShorter-if (len s) _ _ none (go (greedy_match rest) whole) tt
  where
    rest : String
    rest = drop_prefix (String.◌∷◌ c s) "https://"

    whole : IsShorter (len s) (greedy_match rest)
    whole =
        IsShorter-mono (len rest) (len s) (greedy_match rest) (drop_prefix-shorter s "ttps://")
          (greedy_match-IsShorter rest)

    go :
        (o : Option (String × String))
        → IsShorter (len s) o
        → IsShorter (len s) (elim o [ none ↦ none | some (m, r) ↦ some ("https://" ++ m, r) ])
    go none h = tt
    go (some (m, r)) h = h

-- With fuel of at least the length of the text, the search for review addresses returns the same
-- list, however much fuel there is.
pub find_all-enough_fuel :
    (f g : ℕ) (s : String) → len s ≤ f → len s ≤ g → find_all f s ≡ find_all g s
unfolding find_all
find_all-enough_fuel zero zero s h k = refl
find_all-enough_fuel zero (suc g) String.[] h k = refl
find_all-enough_fuel zero (suc g) (String.◌∷◌ c s) h k = absurd (omega (arith, h))
find_all-enough_fuel (suc f) zero String.[] h k = refl
find_all-enough_fuel (suc f) zero (String.◌∷◌ c s) h k = absurd (omega (arith, k))
find_all-enough_fuel (suc f) (suc g) String.[] h k = refl
find_all-enough_fuel (suc f) (suc g) (String.◌∷◌ c s) h k =
    go (review_match (String.◌∷◌ c s)) (review_match-IsShorter c s)
      (λ t l. find_all-enough_fuel f g t (omega (arith, h, l)) (omega (arith, k, l)))
  where
    go :
        (o : Option (String × String))
        → IsShorter (len s) o
        → ((t : String) → len t ≤ len s → find_all f t ≡ find_all g t)
        → (elim o [ none ↦ find_all f s | some (m, rest) ↦ m ∷ find_all f rest ])
          ≡ (elim o [ none ↦ find_all g s | some (m, rest) ↦ m ∷ find_all g rest ])
    go none l same = same s (omega arith)
    go (some (m, rest)) l same = ap (λ (xs : List String). m ∷ xs) (same rest l)
