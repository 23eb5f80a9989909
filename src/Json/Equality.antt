-- ===== src/Json/Equality.antt =====
-- Python's `==` on JSON values. A float of 10^16 or more, whose `repr` has an exponent, is taken
-- to differ from every integer.
use Prim.Native.String.{String, ◌++◌}
use enoch.Base.{ℕ, suc, Bool, true, false, ◌&&◌, ◌||◌, Option, none, some, eqb, if◌then◌else◌, ◌==◌}
use enoch.Base.Int.{ℤ, pos, negsuc, same_int}
use enoch.Base.Text.{decimal}
use enoch.Json.{
  Json, null, bool, int, float, str, arr, obj, Items, nil, cons, Fields, end, field, Float,
}

abbrev int_of_bool : Bool → ℤ
int_of_bool true = pos 1
int_of_bool false = pos 0

pub int_repr : ℤ → String
int_repr (pos n) = decimal n
int_repr (negsuc n) = "-" ++ decimal (suc n)

pub float_is_int : Float → ℤ → Bool
unfolding int_repr
float_is_int x n = x.repr == int_repr n ++ ".0"

pub is_zero_float : Float → Bool
is_zero_float x = x.repr == "0.0" || x.repr == "-0.0"

pub same_float : Float → Float → Bool
unfolding is_zero_float
same_float x y = x.repr == y.repr || (is_zero_float x && is_zero_float y)

abbrev value_at : String → Fields → Option Json
value_at key end = none
value_at key (field k v fs) = if k == key then some v else value_at key fs

abbrev size : Fields → ℕ
size end = 0
size (field k v fs) = suc (size fs)

abbrev on_value : Option Json → (Json → Bool) → Bool
on_value none test = false
on_value (some v) test = test v

unfoldable mutual
  unfolding float_is_int same_float

  pub same_json : Json → Json → Bool
  same_json null null = true
  same_json (bool a) (bool b) = same_int (int_of_bool a) (int_of_bool b)
  same_json (bool a) (int n) = same_int (int_of_bool a) n
  same_json (bool a) (float x) = float_is_int x (int_of_bool a)
  same_json (int n) (bool b) = same_int n (int_of_bool b)
  same_json (int n) (int m) = same_int n m
  same_json (int n) (float x) = float_is_int x n
  same_json (float x) (bool b) = float_is_int x (int_of_bool b)
  same_json (float x) (int n) = float_is_int x n
  same_json (float x) (float y) = same_float x y
  same_json (str s) (str t) = s == t
  same_json (arr xs) (arr ys) = same_items xs ys
  same_json (obj fs) (obj gs) = eqb (size fs) (size gs) && fields_within fs gs
  same_json _ _ = false

  pub same_items : Items → Items → Bool
  same_items nil nil = true
  same_items (cons x xs) (cons y ys) = same_json x y && same_items xs ys
  same_items _ _ = false

  pub fields_within : Fields → Fields → Bool
  fields_within end gs = true
  fields_within (field k v fs) gs =
      on_value (value_at k gs) (λ w. same_json v w) && fields_within fs gs

-- `a == b` of two dictionaries
unfoldable pub same_fields : Fields → Fields → Bool
unfolding same_json
same_fields fs gs = eqb (size fs) (size gs) && fields_within fs gs
