-- ===== src/Runtime/Conversions.antt =====
-- `int(value)`, `bool(value)` and `str(value)` of JSON values.
use forge_boss.Base.{
  ◌/◌, ◌+◌, zero, suc, ◌==◌, Bool, true, false, not, [], Option, none, some, if◌then◌else◌,
  is_empty, Text,
}
use forge_boss.Base.Int.{ℤ, pos, negsuc}
use forge_boss.Value.{tick, finite, Value, null, bool, int, float, str, arr, obj, nil, end}

-- What `int` and `str` of Python do with texts and with values that are not texts
pub record Conversions : Type 0 where
  -- `int(text)`, with `none` for `ValueError`
  pub parse_int : Text → Option ℤ
  -- `str(value)`
  pub show : Value → Text

-- A float is cut off towards zero.
abbrev pub whole_part : ℤ → ℤ
whole_part (pos n) = pos (n / tick)
whole_part (negsuc n) = elim ((n + 1) / tick) [ zero ↦ pos 0 | suc k ↦ negsuc k ]

-- `int(value)`, with `none` for what it raises
unfoldable pub to_int : Conversions → Value → Option ℤ
to_int c (bool b) = some (pos (if b then 1 else 0))
to_int c (int n) = some n
to_int c (float (finite z)) = some (whole_part z)
to_int c (str s) = c.parse_int s
to_int c _ = none

-- `bool(value)`
unfoldable pub is_true : Value → Bool
is_true null = false
is_true (bool b) = b
is_true (int (pos n)) = not (n == 0)
is_true (float (finite (pos n))) = not (n == 0)
is_true (str s) = not (is_empty s)
is_true (arr nil) = false
is_true (obj end) = false
is_true _ = true

-- `str(value or "")`
unfoldable pub text_or_empty : Conversions → Value → Text
text_or_empty c (str s) = s
text_or_empty c v = if is_true v then c.show v else []

-- `value or []`
abbrev pub or_empty : Value → Value
or_empty v = if is_true v then v else arr nil

-- `str(value)`
unfoldable pub text_of : Conversions → Value → Text
text_of c (str s) = s
text_of c v = c.show v
