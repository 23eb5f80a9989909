-- ===== src/Payloads/Names.antt =====
-- The regular expressions of src/enoch/tasks/payloads.py, as tests on a whole text.
use Prim.Native.Char.{Char, code}
use Prim.Native.String.{String}
use enoch.Base.{ℕ, Bool, false, ◌&&◌, ◌||◌, List, [], ◌∷◌, eqb, leb}
use enoch.Base.Text.{all_chars, len, in_range, is_lower_letter, is_digit}

abbrev pub is_char : ℕ → Char → Bool
is_char n c = eqb (code c) n

-- `[a-z0-9._-]`
abbrev pub name_char : Char → Bool
name_char c = is_lower_letter c || is_digit c || is_char b'.' c || is_char b'_' c || is_char b'-' c

-- `{0,63}` of `name_char`
pub name_tail : String → Bool
name_tail s = all_chars name_char s && leb (len s) 63

-- `[a-z][a-z0-9._-]{0,63}`: metadata keys and artifact kinds
unfoldable pub key_name : String → Bool
unfolding name_tail
key_name String.[] = false
key_name (String.◌∷◌ c s) = is_lower_letter c && name_tail s

-- `[a-z0-9][a-z0-9._-]{0,63}`: lanes and extension names
unfoldable pub lane_name : String → Bool
unfolding name_tail
lane_name String.[] = false
lane_name (String.◌∷◌ c s) = (is_lower_letter c || is_digit c) && name_tail s

abbrev media_first : Char → Bool
media_first c = in_range b'A' b'Z' c || is_lower_letter c || is_digit c

-- `[A-Za-z0-9!#$&^_.+-]`
abbrev media_char : Char → Bool
media_char c =
    media_first c
    || is_char b'!' c
    || is_char b'#' c
    || is_char b'$' c
    || is_char b'&' c
    || is_char b'^' c
    || is_char b'_' c
    || is_char b'.' c
    || is_char b'+' c
    || is_char b'-' c

pub media_part : String → Bool
media_part String.[] = false
media_part (String.◌∷◌ c s) = media_first c && all_chars media_char s && leb (len s) 63

-- The two parts of a media type; `/` is in neither class.
unfoldable pub media_type_parts : List String → Bool
unfolding media_part
media_type_parts (a ∷ b ∷ []) = media_part a && media_part b
media_type_parts _ = false
