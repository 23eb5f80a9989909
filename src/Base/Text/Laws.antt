-- ===== src/Base/Text/Laws.antt =====
-- Laws of stripping, lowering, splitting and joining.
use Prim.Native.Char.{Char, code}
use Prim.Native.String.{String, ◌++◌}
use Prim.Native.String.append
use Prim.Native.Nat.{ℕ}
use mathlib.Core.Path.{◌≡◌, refl, sym, ap, ap₂, ◌∙◌}
use mathlib.Core.Logic.{◌≢◌, ◌⊎◌, inl, inr}
use mathlib.Core.Bool.{Bool, true, false, not, ◌&&◌}
use mathlib.Core.List.{List, [], ◌∷◌}
use text.Mathlib.TextEquality.{Char-path}
use native.Mathlib.Omega.{arith}
use enoch.Base.Tests.{Bool-cases, eqb, if◌then◌else◌}
use enoch.Base.Text.{
  is_space, lstrip, rstrip, strip, keep_unless_blank, lower_char, lower, map_chars, join, split_at,
  split_where, add_to_word, translate, all_chars, truthy, is_hex, is_lower_letter,
}

and_left : (a b : Bool) → (a && b) ≡ true → a ≡ true
and_left a b h = ground arith

and_right : (a b : Bool) → (a && b) ≡ true → b ≡ true
and_right a b h = ground arith

eqb_sound : (a b : ℕ) → eqb a b ≡ true → a ≡ b
eqb_sound a b h = ground arith

not_same : (a b : Bool) → not a ≡ true → not b ≡ true → a ≡ b
not_same a b h k = ground arith

rstrip-rstrip : (s : String) → rstrip (rstrip s) ≡ rstrip s
unfolding rstrip
rstrip-rstrip String.[] = refl
rstrip-rstrip (String.◌∷◌ c s) = go (rstrip s) (rstrip-rstrip s)
  where
    go : (t : String) → rstrip t ≡ t → rstrip (keep_unless_blank c t) ≡ keep_unless_blank c t
    go String.[] e = elim (Bool-cases (is_space c)) [ inl h ↦ rw h | inr h ↦ rw h (rw h) ]
    go (String.◌∷◌ d t) e = rw e

-- A text that does not begin with white space.
abbrev StartsDark : String → Type 0
StartsDark String.[] = Unit
StartsDark (String.◌∷◌ c s) = is_space c ≡ false

lstrip-StartsDark : (s : String) → StartsDark (lstrip s)
unfolding lstrip
lstrip-StartsDark String.[] = tt
lstrip-StartsDark (String.◌∷◌ c s) = elim (Bool-cases (is_space c)) [
  | inl h ↦ rw h (lstrip-StartsDark s)
  | inr h ↦ rw h h
]

lstrip-rstrip : (s : String) → StartsDark s → lstrip (rstrip s) ≡ rstrip s
unfolding lstrip rstrip
lstrip-rstrip String.[] h = refl
lstrip-rstrip (String.◌∷◌ c s) h = go (rstrip s)
  where
    go : (t : String) → lstrip (keep_unless_blank c t) ≡ keep_unless_blank c t
    go String.[] = rw h (rw h)
    go (String.◌∷◌ d t) = rw h

pub strip-strip : (s : String) → strip (strip s) ≡ strip s
unfolding strip
strip-strip s = rw (lstrip-rstrip (lstrip s) (lstrip-StartsDark s)) (rstrip-rstrip (lstrip s))

-- What a table of characters does: nothing, or it gives a character that passes a test of all of
-- its right side, for one that passes a test of all of its left side.
translate-cases :
    (p q : Char → Bool) (from to : String) (c : Char)
    → all_chars p from ≡ true
    → all_chars q to ≡ true
    → (translate from to c ≡ c) ⊎ ((p c ≡ true) × (q (translate from to c) ≡ true))
translate-cases p q String.[] to c hp hq = inl refl
translate-cases p q (String.◌∷◌ f fs) String.[] c hp hq = inl refl
translate-cases p q (String.◌∷◌ f fs) (String.◌∷◌ t ts) c hp hq =
    elim (Bool-cases (eqb (code c) (code f))) [
      | inl h ↦
          let e : c ≡ f = Char-path c f (ground arith) in
          rw h (inr (rw e (and_left _ _ hp), and_left _ _ hq))
      | inr h ↦ rw h (translate-cases p q fs ts c (and_right _ _ hp) (and_right _ _ hq))
    ]

abbrev is_fixed : Char → Bool
is_fixed c = eqb (code (lower_char c)) (code c)

letters_dark : all_chars (λ c. not (is_space c)) "ABCDEFGHIJKLMNOPQRSTUVWXYZ" ≡ true
unfolding is_space
letters_dark = refl

small_letters : all_chars (λ c. not (is_space c) && is_fixed c) "abcdefghijklmnopqrstuvwxyz" ≡ true
unfolding is_space lower_char
small_letters = refl

lower_char-cases :
    (c : Char)
    → (lower_char c ≡ c)
      ⊎ ((not (is_space c) ≡ true)
          × ((not (is_space (lower_char c)) && is_fixed (lower_char c)) ≡ true))
unfolding lower_char
lower_char-cases c =
    translate-cases (λ c. not (is_space c)) (λ c. not (is_space c) && is_fixed c)
      "ABCDEFGHIJKLMNOPQRSTUVWXYZ" "abcdefghijklmnopqrstuvwxyz" c letters_dark small_letters

lower_char-lower_char : (c : Char) → lower_char (lower_char c) ≡ lower_char c
lower_char-lower_char c = elim (lower_char-cases c) [
  | inl e ↦ ap lower_char e
  | inr (p, q) ↦ Char-path _ _ (eqb_sound _ _ (and_right (not (is_space (lower_char c))) _ q))
]

is_space-lower_char : (c : Char) → is_space (lower_char c) ≡ is_space c
is_space-lower_char c = elim (lower_char-cases c) [
  | inl e ↦ ap is_space e
  | inr (p, q) ↦ not_same _ _ (and_left _ (is_fixed (lower_char c)) q) p
]

pub lower-lower : (s : String) → lower (lower s) ≡ lower s
unfolding lower
lower-lower String.[] = refl
lower-lower (String.◌∷◌ c s) = cc (lower_char-lower_char c, lower-lower s)

lower-lstrip : (s : String) → lstrip (lower s) ≡ lower (lstrip s)
unfolding lower lstrip
lower-lstrip String.[] = refl
lower-lstrip (String.◌∷◌ c s) =
    rw (is_space-lower_char c)
      (elim (Bool-cases (is_space c)) [ inl h ↦ rw h (lower-lstrip s) | inr h ↦ rw h refl ])

lower-keep_unless_blank :
    (c : Char) (s : String)
    → keep_unless_blank (lower_char c) (map_chars lower_char s)
      ≡ map_chars lower_char (keep_unless_blank c s)
lower-keep_unless_blank c String.[] =
    rw (is_space-lower_char c) (elim (Bool-cases (is_space c)) [ inl h ↦ rw h | inr h ↦ rw h ])
lower-keep_unless_blank c (String.◌∷◌ d s) = refl

lower-rstrip : (s : String) → rstrip (lower s) ≡ lower (rstrip s)
unfolding lower rstrip
lower-rstrip String.[] = refl
lower-rstrip (String.◌∷◌ c s) =
    ap (keep_unless_blank (lower_char c)) (lower-rstrip s) ∙ lower-keep_unless_blank c (rstrip s)

pub strip-lower : (s : String) → strip (lower s) ≡ lower (strip s)
unfolding strip
strip-lower s = ap rstrip (lower-lstrip s) ∙ lower-rstrip (lstrip s)

-- The normal form `lower (strip s)` stays as it is when it is normalized again.
pub lower-strip_idem : (s : String) → lower (strip (lower (strip s))) ≡ lower (strip s)
lower-strip_idem s =
    rw (strip-lower (strip s)) (rw (lower-lower (strip (strip s))) (rw (strip-strip s)))

-- Joining the pieces of a split.
join-add_to_word :
    (sep : String) (c : Char) (ws : List String)
    → ws ≢ []
    → join sep (add_to_word c ws) ≡ String.◌∷◌ c (join sep ws)
unfolding join
join-add_to_word sep c [] h = absurd (h refl)
join-add_to_word sep c (w ∷ []) h = refl
join-add_to_word sep c (w ∷ v ∷ ws) h = append.cons c w _

join-empty :
    (sep : String) (ws : List String) → ws ≢ [] → join sep (String.[] ∷ ws) ≡ sep ++ join sep ws
unfolding join
join-empty sep [] h = absurd (h refl)
join-empty sep (w ∷ ws) h = append.nil _

split_where-ne-nil : (p : Char → Bool) (s : String) → split_where p s ≢ []
unfolding split_where
split_where-ne-nil p String.[] h = cc
split_where-ne-nil p (String.◌∷◌ c s) h = go (split_where p s) (p c) h
  where
    go : (ws : List String) (b : Bool) → (if b then String.[] ∷ ws else add_to_word c ws) ≢ []
    go ws true e = cc
    go [] false e = cc
    go (w ∷ ws) false e = cc

join-split_where :
    (sep : Char) (s : String)
    → join (String.◌∷◌ sep String.[]) (split_where (λ c. eqb (code c) (code sep)) s) ≡ s
unfolding split_where
join-split_where sep String.[] = unfold join in refl
join-split_where sep (String.◌∷◌ c s) =
    let rest = split_where (λ c. eqb (code c) (code sep)) s in
    let full = split_where-ne-nil (λ c. eqb (code c) (code sep)) s in
    elim (Bool-cases (eqb (code c) (code sep))) [
      | inl h ↦ rw h (
          rw (join-empty (String.◌∷◌ sep String.[]) rest full) (
            rw (join-split_where sep s) (
              append.cons sep String.[] s
              ∙ ap₂ String.◌∷◌ (Char-path sep c (ground arith)) (append.nil s))))
      | inr h ↦ rw h (
          rw (join-add_to_word (String.◌∷◌ sep String.[]) c rest full)
            (rw (join-split_where sep s)))
    ]

pub join-split_at : (sep : Char) (s : String) → join (String.◌∷◌ sep String.[]) (split_at sep s) ≡ s
unfolding split_at
join-split_at sep s = join-split_where sep s

-- A text behind another one keeps its end.
pub rstrip-append :
    (s t : String)
    → rstrip t ≡ t
    → truthy t ≡ true
    → (rstrip (s ++ t) ≡ s ++ t) × (truthy (s ++ t) ≡ true)
unfolding rstrip
rstrip-append String.[] t h k = rw (append.nil t) (h, k)
rstrip-append (String.◌∷◌ c s) t h k = rw (append.cons c s t) (go (s ++ t) (rstrip-append s t h k))
  where
    go :
        (u : String)
        → (rstrip u ≡ u) × (truthy u ≡ true)
        → (keep_unless_blank c (rstrip u) ≡ String.◌∷◌ c u) × (true ≡ true)
    go String.[] (h, k) = absurd (cc)
    go (String.◌∷◌ d u) (h, k) = rw h (refl, refl)

-- A small letter is no white space.
letter_char : (c : Char) → is_lower_letter c ≡ true → is_space c ≡ false
unfolding is_space
letter_char c h = ground arith

-- A text that begins with a small letter, before one that keeps its end.
pub strip-append :
    (c : Char) (s t : String)
    → is_lower_letter c ≡ true
    → rstrip t ≡ t
    → truthy t ≡ true
    → (strip (String.◌∷◌ c s ++ t) ≡ String.◌∷◌ c s ++ t) × (truthy (String.◌∷◌ c s ++ t) ≡ true)
unfolding strip lstrip
strip-append c s t a h k =
    let (kept, full) = rstrip-append (String.◌∷◌ c s) t h k in
    let dark = letter_char c a in
    (
      rw (append.cons c s t)
          (rw dark (ap rstrip (sym (append.cons c s t)) ∙ kept ∙ append.cons c s t)),
      full,
    )

-- A hexadecimal digit is no white space.
hex_char : (c : Char) → is_hex c ≡ true → is_space c ≡ false
unfolding is_space
hex_char c h = ground arith

-- A text of hexadecimal digits.
pub rstrip-hex : (s : String) → all_chars is_hex s ≡ true → rstrip s ≡ s
unfolding rstrip
rstrip-hex String.[] h = refl
rstrip-hex (String.◌∷◌ c s) h =
    rw (rstrip-hex s (and_right (is_hex c) (all_chars is_hex s) h)) (go s)
  where
    go : (t : String) → keep_unless_blank c t ≡ String.◌∷◌ c t
    go String.[] = rw (hex_char c (and_left (is_hex c) (all_chars is_hex s) h)) refl
    go (String.◌∷◌ d t) = refl
