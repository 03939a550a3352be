-- ===== src/Runtime.antt =====
-- What the program takes from Python's libraries and does not implement: the case table of `str`,
-- the JSON reader and writer, the parsers of `float` and `Decimal`, and the two SHA-256 digests as
-- lower-case hexadecimal text.
pub mod Plain
pub mod Conversions
use forge_boss.Base.Int.{ℤ}
use forge_boss.Base.{ℕ, Bool, Option, List, Text}
use forge_boss.Casefold.{CaseTable}
use forge_boss.Value.{Float, Value}

pub record Runtime : Type 0 where
  pub table : CaseTable
  -- `json.loads`, with `none` for text that is no JSON
  pub loads : Text → Option Value
  -- `json.dumps(obj, sort_keys=True, separators=(",", ":"), ensure_ascii=False)`
  pub dumps : Value → Text
  -- `float(text)` and `Decimal(text)`, with `none` for `ValueError` and `InvalidOperation`
  pub parse_float : Text → Option Float
  pub parse_decimal : Text → Option Float
  -- `a + b` of two finite floats whose sum is finite: the sum, rounded to a float
  pub add_float : ℤ → ℤ → ℤ
  -- `Path(p).is_absolute()`, `str(Path(p).resolve(strict=False))`, and whether `os.path.commonpath`
  -- of a root and a path is the root
  pub is_absolute : Text → Bool
  pub resolve : Text → Text
  pub is_within : Text → Text → Bool
  -- `hashlib.sha256(data).hexdigest()` and `hmac.new(key, data, hashlib.sha256).hexdigest()`
  pub sha256_hex : List ℕ → Text
  pub hmac_hex : List ℕ → List ℕ → Text
