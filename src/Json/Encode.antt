-- ===== src/Json/Encode.antt =====
-- How many bytes `json.dumps(value, ensure_ascii=False, separators=(",", ":")).encode()` has. The
-- order of the keys does not change it.
use Prim.Native.Nat.{ℕ, zero, suc, ◌+◌, ◌/◌}
use Prim.Native.Char.{Char, code, len_utf8}
use Prim.Native.String
use Prim.Native.String.{String}
use mathlib.Core.Bool.{true, false, ◌||◌}
use enoch.Base.{ltb, eqb, if◌then◌else◌}
use enoch.Base.Int.{ℤ, pos, negsuc}
use enoch.Json.{Json, null, bool, int, float, str, arr, obj, Items, nil, cons, Fields, end, field}

-- The decimal digits of a number, with the number as fuel.
digits : ℕ → ℕ → ℕ
digits zero n = 1
digits (suc f) n = let rest = digits f (n / 10) in if ltb n 10 then 1 else suc rest

int_bytes : ℤ → ℕ
unfolding digits
int_bytes (pos n) = digits n n
int_bytes (negsuc n) = suc (digits (suc n) (suc n))

-- `"` and `\` and the short escapes take two bytes, other control characters `\u00XX`.
char_bytes : Char → ℕ
char_bytes ch =
    let c = code ch in
    if eqb c 34 || eqb c 92 || eqb c 8 || eqb c 9 || eqb c 10 || eqb c 12 || eqb c 13
    then 2
    else if ltb c 32
    then 6
    else len_utf8 ch

chars_bytes : String → ℕ
chars_bytes String.[] = 0
chars_bytes (String.◌∷◌ c s) = char_bytes c + chars_bytes s

string_bytes : String → ℕ
unfolding chars_bytes char_bytes
string_bytes s = chars_bytes s + 2

unfoldable mutual
  unfolding int_bytes string_bytes

  pub encoded_bytes : Json → ℕ
  encoded_bytes null = 4
  encoded_bytes (bool true) = 4
  encoded_bytes (bool false) = 5
  encoded_bytes (int n) = int_bytes n
  encoded_bytes (float x) = String.len x.repr
  encoded_bytes (str s) = string_bytes s
  encoded_bytes (arr xs) = encoded_items xs + 2
  encoded_bytes (obj fs) = encoded_fields fs + 2

  -- The elements with the commas between them.
  pub encoded_items : Items → ℕ
  encoded_items nil = 0
  encoded_items (cons x nil) = encoded_bytes x
  encoded_items (cons x (cons y ys)) = encoded_bytes x + 1 + encoded_items (cons y ys)

  pub encoded_fields : Fields → ℕ
  encoded_fields end = 0
  encoded_fields (field k v end) = string_bytes k + 1 + encoded_bytes v
  encoded_fields (field k v (field j w fs)) =
      string_bytes k + 1 + encoded_bytes v + 1 + encoded_fields (field j w fs)
