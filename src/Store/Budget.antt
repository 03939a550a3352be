-- ===== src/Store/Budget.antt =====
-- `_budget_decimal`, `_validated_budget_request` and `_ttl` of forgeboss/control/store.py.
use forge_boss.Base.{
  ℕ, ◌+◌, ◌*◌, ◌-◌, Option, none, some, ltb, if◌then◌else◌, Result, ok, err, raise_if, from_option,
  ◌>>=◌, ◌>>◌,
}
use forge_boss.Base.Int.{pos, negsuc}
use forge_boss.Value.{Float, finite, Value, bool, int, float, str, tick, float_bound, to_float}
use forge_boss.Runtime.{Runtime}
use forge_boss.Store.Errors.{
  StoreError, budget_state_invalid, budget_invalid, budget_exceeded, ttl_not_positive,
}
use forge_boss.Store.Tables.{Task}

-- `Decimal(str(value))`, with `none` for `InvalidOperation`. A bool is refused before.
unfoldable pub to_decimal : Runtime → Value → Option Float
to_decimal rt (int (pos n)) = some (finite (pos (n * tick)))
to_decimal rt (int (negsuc n)) = some (finite (negsuc ((n + 1) * tick - 1)))
to_decimal rt (float f) = some f
to_decimal rt (str s) = rt.parse_decimal s
to_decimal rt _ = none

-- Finite, not negative, and small enough for a float
unfoldable pub amount_of : StoreError → Float → Result StoreError ℕ
amount_of code (finite (pos n)) = if ltb n (float_bound * tick) then ok n else err code
amount_of code _ = err code

unfoldable pub budget_decimal : Runtime → Value → StoreError → Result StoreError ℕ
unfolding to_decimal amount_of
budget_decimal rt (bool b) code = err code
budget_decimal rt value code = from_option code (to_decimal rt value) >>= amount_of code

-- The amount reserved, and what is then spent of the task's budget
unfoldable pub validated_budget_request : Runtime → Task → Value → Result StoreError (ℕ × ℕ)
unfolding budget_decimal
validated_budget_request rt task requested = do
  allocated ← budget_decimal rt (float task.budget_allocated) budget_state_invalid
  spent ← budget_decimal rt (float task.budget_spent) budget_state_invalid
  raise_if (ltb allocated spent) budget_state_invalid
  value ← budget_decimal rt requested budget_invalid
  raise_if (ltb (allocated - spent) value) budget_exceeded
  ok (value, spent + value)

unfoldable pub positive_ticks : Float → Result StoreError ℕ
positive_ticks (finite (pos n)) = if ltb 0 n then ok n else err ttl_not_positive
positive_ticks _ = err ttl_not_positive

-- `_ttl`
unfoldable pub ttl : Runtime → Value → Result StoreError ℕ
unfolding to_float positive_ticks
ttl rt (bool b) = err ttl_not_positive
ttl rt value = from_option ttl_not_positive (to_float rt.parse_float value) >>= positive_ticks
