-- ===== src/Base/Text.antt =====
-- The text operations of Python that the program uses, over the native `String`: `strip`, `split`,
-- `join`, `lower` (its ASCII letters), `startswith`, tests on characters.
pub mod Laws
use Prim.Native.Char.{Char, code}
use Prim.Native.String.{String, ◌++◌}
use Prim.Native.Nat.{ℕ, zero, suc, ◌/◌, ◌%◌}
use mathlib.Core.Bool.{Bool, true, false, not, ◌&&◌, ◌||◌}
use mathlib.Core.List.{List, [], ◌∷◌}
use text.Mathlib.Text.{◌==◌}
use enoch.Base.Tests.{leb, eqb, if◌then◌else◌}

-- `bool(s)`
abbrev pub truthy : String → Bool
truthy String.[] = false
truthy (String.◌∷◌ c s) = true

-- `a or b`
abbrev pub or_else : String → String → String
or_else String.[] b = b
or_else (String.◌∷◌ c s) b = String.◌∷◌ c s

-- `s in {...}`
abbrev pub one_of : String → List String → Bool
one_of s [] = false
one_of s (t ∷ ts) = s == t || one_of s ts

-- `str.isspace` of one character
pub is_space : Char → Bool
is_space ch =
    let c = code ch in
    (leb 9 c && leb c 13)
    || (leb 28 c && leb c 32)
    || eqb c 0x85
    || eqb c 0xa0
    || eqb c 0x1680
    || (leb 0x2000 c && leb c 0x200a)
    || (leb 0x2028 c && leb c 0x2029)
    || eqb c 0x202f
    || eqb c 0x205f
    || eqb c 0x3000

pub lstrip : String → String
lstrip String.[] = String.[]
lstrip (String.◌∷◌ c s) = if is_space c then lstrip s else String.◌∷◌ c s

abbrev keep_unless_blank : Char → String → String
keep_unless_blank c String.[] = if is_space c then String.[] else String.◌∷◌ c String.[]
keep_unless_blank c (String.◌∷◌ d s) = String.◌∷◌ c (String.◌∷◌ d s)

pub rstrip : String → String
rstrip String.[] = String.[]
rstrip (String.◌∷◌ c s) = keep_unless_blank c (rstrip s)

-- `s.strip()`
unfoldable pub strip : String → String
unfolding lstrip rstrip is_space
strip s = rstrip (lstrip s)

abbrev add_to_word : Char → List String → List String
add_to_word c [] = String.◌∷◌ c String.[] ∷ []
add_to_word c (w ∷ ws) = String.◌∷◌ c w ∷ ws

-- The pieces of `s` between characters that pass `p`, the empty ones included.
pub split_where : (Char → Bool) → String → List String
split_where p String.[] = String.[] ∷ []
split_where p (String.◌∷◌ c s) =
    let rest = split_where p s in if p c then String.[] ∷ rest else add_to_word c rest

keep_words : List String → List String
keep_words [] = []
keep_words (w ∷ ws) = let rest = keep_words ws in if truthy w then w ∷ rest else rest

-- `s.split()`
unfoldable pub split : String → List String
unfolding split_where keep_words is_space
split s = keep_words (split_where is_space s)

-- `s.split(sep)` for one character
unfoldable pub split_at : Char → String → List String
unfolding split_where
split_at sep s = split_where (λ c. eqb (code c) (code sep)) s

-- `sep.join(parts)`
unfoldable pub join : String → List String → String
join sep [] = String.[]
join sep (w ∷ []) = w
join sep (w ∷ v ∷ ws) = w ++ (sep ++ join sep (v ∷ ws))

-- memory/paths.py: clean_text
unfoldable pub clean_text : String → String
unfolding split join
clean_text s = join " " (split s)

-- `c` at the same place of `to` as it stands in `from`.
abbrev translate : String → String → Char → Char
translate (String.◌∷◌ f fs) (String.◌∷◌ t ts) c =
    if eqb (code c) (code f) then t else translate fs ts c
translate _ _ c = c

lower_char : Char → Char
lower_char = translate "ABCDEFGHIJKLMNOPQRSTUVWXYZ" "abcdefghijklmnopqrstuvwxyz"

abbrev pub map_chars : (Char → Char) → String → String
map_chars f String.[] = String.[]
map_chars f (String.◌∷◌ c s) = String.◌∷◌ (f c) (map_chars f s)

-- `s.lower()` on ASCII letters; other characters stay.
unfoldable pub lower : String → String
unfolding lower_char
lower s = map_chars lower_char s

abbrev pub all_chars : (Char → Bool) → String → Bool
all_chars p String.[] = true
all_chars p (String.◌∷◌ c s) = p c && all_chars p s

-- `len(s)`
abbrev pub len : String → ℕ
len String.[] = 0
len (String.◌∷◌ c s) = suc (len s)

abbrev pub starts_with : String → String → Bool
starts_with s String.[] = true
starts_with String.[] (String.◌∷◌ p ps) = false
starts_with (String.◌∷◌ c s) (String.◌∷◌ p ps) = eqb (code c) (code p) && starts_with s ps

-- `s.removeprefix(p)`, for an `s` that starts with `p`
abbrev pub drop_prefix : String → String → String
drop_prefix s String.[] = s
drop_prefix String.[] (String.◌∷◌ p ps) = String.[]
drop_prefix (String.◌∷◌ c s) (String.◌∷◌ p ps) = drop_prefix s ps

unfoldable pub remove_prefix : String → String → String
remove_prefix p s = if starts_with s p then drop_prefix s p else s

-- `sub in s`
abbrev pub contains : String → String → Bool
contains String.[] sub = not (truthy sub)
contains (String.◌∷◌ c s) sub = starts_with (String.◌∷◌ c s) sub || contains s sub

abbrev pub in_range : ℕ → ℕ → Char → Bool
in_range lo hi c = leb lo (code c) && leb (code c) hi

abbrev pub is_lower_letter : Char → Bool
is_lower_letter c = in_range b'a' b'z' c

abbrev pub is_digit : Char → Bool
is_digit c = in_range b'0' b'9' c

abbrev pub is_hex : Char → Bool
is_hex c = is_digit c || in_range b'a' b'f' c

-- `s[:n]`
unfoldable pub take_chars : ℕ → String → String
take_chars zero s = ""
take_chars (suc n) String.[] = ""
take_chars (suc n) (String.◌∷◌ c s) = String.◌∷◌ c (take_chars n s)

-- The decimal digit of a number below 10.
digit : ℕ → String → String
digit n String.[] = String.[]
digit zero (String.◌∷◌ c s) = String.◌∷◌ c String.[]
digit (suc n) (String.◌∷◌ c s) = digit n s

decimal_before : ℕ → ℕ → String → String
unfolding digit
decimal_before zero n acc = acc
decimal_before (suc fuel) n acc =
    let acc' = digit (n % 10) "0123456789" ++ acc in
    let more = decimal_before fuel (n / 10) acc' in if leb n 9 then acc' else more

-- `str(n)`; the number is fuel enough for its digits
unfoldable pub decimal : ℕ → String
unfolding decimal_before
decimal n = decimal_before (suc n) n ""
