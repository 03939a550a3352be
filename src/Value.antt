-- ===== src/Value.antt =====
-- The values of a JSON document as Python holds them, and the interpreter's conversions to numbers.
-- A finite float is a whole number of ticks, 2 ^ 1074 to one: every finite double is such a number.
pub mod Signing
use forge_boss.Base.{
  ℕ, ◌*◌, ◌+◌, ◌-◌, ◌^◌, String, Bool, true, false, Option, none, some, List, [], ◌∷◌, ltb,
  if◌then◌else◌, Text,
}
use forge_boss.Base.Int.{ℤ, pos, negsuc}
use text.Mathlib.Text.{◌==◌ as str_eq}

abbrev pub tick : ℕ
tick = 2 ^ 1074

pub data Float : Type 0 where
  finite : ℤ → Float
  pos_inf neg_inf nan : Float

mutual
  pub data Value : Type 0 where
    null : Value
    bool : Bool → Value
    int : ℤ → Value
    float : Float → Value
    str : Text → Value
    arr : Items → Value
    obj : Fields → Value

  pub data Fields : Type 0 where
    end : Fields
    field : String → Value → Fields → Fields

  pub data Items : Type 0 where
    nil : Items
    cons : Value → Items → Items

unfoldable pub to_list : Items → List Value
to_list nil = []
to_list (cons v vs) = v ∷ to_list vs

unfoldable pub of_texts : List Text → Items
of_texts [] = nil
of_texts (t ∷ ts) = cons (str t) (of_texts ts)

-- `d.get(key)`, with `None` for a missing key
unfoldable pub get : String → Fields → Value
get key end = null
get key (field k v fs) = if str_eq k key then v else get key fs

-- `key in d`
unfoldable pub has : String → Fields → Bool
has key end = false
has key (field k v fs) = if str_eq k key then true else has key fs

-- `d.pop(key, None)`, which leaves the other keys in their order
unfoldable pub without : String → Fields → Fields
without key end = end
without key (field k v fs) =
    let rest = without key fs in if str_eq k key then rest else field k v rest

-- `d[key] = v` for a key that is not there
unfoldable pub append_field : Fields → String → Value → Fields
append_field end key v = field key v end
append_field (field k w fs) key v = field k w (append_field fs key v)

-- Integers from 2 ** 1024 on have no float: `float(n)` raises `OverflowError`.
abbrev pub float_bound : ℕ
float_bound = 2 ^ 1024

unfoldable pub float_of_int : ℤ → Option ℤ
float_of_int (pos n) = if ltb n float_bound then some (pos (n * tick)) else none
float_of_int (negsuc n) =
    if ltb (n + 1) float_bound then some (negsuc ((n + 1) * tick - 1)) else none

-- `d.get(key, default)`
unfoldable pub get_or : Value → String → Fields → Value
unfolding has get
get_or default key fs = if has key fs then get key fs else default

-- `float(value)`, given the parser of texts; `none` is `TypeError`, `ValueError` or `OverflowError`.
unfoldable pub to_float : (Text → Option Float) → Value → Option Float
unfolding float_of_int
to_float parse (bool b) = some (finite (pos (if b then tick else 0)))
to_float parse (int n) = elim (float_of_int n) [ none ↦ none | some z ↦ some (finite z) ]
to_float parse (float f) = some f
to_float parse (str s) = parse s
to_float parse _ = none
