-- ===== src/Ledger.antt =====
-- forgeboss/safety/cost_ledger.py and forgeboss/safety/numbers.py: budgets and the reservations of
-- costs. A transaction gives the new tables or the exception, which rolls it back. An amount is a
-- float that is not negative, in ticks; `Sums` is how floats are added.
pub mod Accounts
pub mod Spending
mod Examples
use forge_boss.Base.{
  ℕ, ◌*◌, ◌^◌, Bool, true, false, not, ◌&&◌, List, [], ◌∷◌, ◌++◌, Option, none, some, if◌then◌else◌,
  ltb, Text, eq_text, Result, ok, err, raise_if, or_raise, from_option, ◌>>=◌, ◌>>◌,
}
use forge_boss.Base.Int.{ℤ, pos, negsuc, ltb_ℤ}
use forge_boss.Value.{Float, finite, Value, to_float}
use forge_boss.Runtime.{Runtime}

-- Sums of floats that are not negative, with `none` for infinity
pub record Sums : Type 0 where
  -- `COALESCE(SUM(…), 0)` of SQLite
  pub sum : List ℕ → Option ℕ
  -- `a + b`
  pub add : ℕ → ℕ → Option ℕ

pub data LedgerError : Type 0 where
  not_a_number : LedgerError
  not_finite : LedgerError
  below_minimum : LedgerError
  above_maximum : LedgerError
  reservation_denied : LedgerError
  -- The `IntegrityError` of the primary key
  id_taken : LedgerError
  reservation_unknown : LedgerError
  already_settled : LedgerError
  settlement_denied : LedgerError

pub record Budget : Type 0 where
  pub scope : Text
  pub cap : ℕ

-- A reservation has status 'settled' just if it has an actual amount.
pub record Reservation : Type 0 where
  pub id : Text
  pub scope : Text
  pub reserved : ℕ
  pub actual : Option ℕ

pub record Ledger : Type 0 where
  pub budgets : List Budget
  pub reservations : List Reservation

abbrev pub no_less : Option ℤ → ℤ → Bool
no_less none v = true
no_less (some lo) v = not (ltb_ℤ v lo)

abbrev pub no_more : Option ℤ → ℤ → Bool
no_more none v = true
no_more (some hi) v = not (ltb_ℤ hi v)

unfoldable pub finite_number : Runtime → Value → Option ℤ → Option ℤ → Result LedgerError ℤ
finite_number rt v lo hi = do
  number ← from_option not_a_number (to_float rt.parse_float v)
  value ← elim number [ finite z ↦ ok z | _ ↦ err not_finite ]
  raise_if (not (no_less lo value)) below_minimum
  raise_if (not (no_more hi value)) above_maximum
  ok value

-- `finite_number(v, …, 0)`
unfoldable pub amount : Runtime → Value → Result LedgerError ℕ
amount rt v = do
  z ← finite_number rt v (some (pos 0)) none
  elim z [ pos n ↦ ok n | negsuc n ↦ err below_minimum ]

-- The insertion, or the update of the row of that scope
unfoldable pub put_budget : Text → ℕ → List Budget → List Budget
put_budget scope cap [] = record { scope = scope; cap = cap } ∷ []
put_budget scope cap (b ∷ bs) =
    let rest = put_budget scope cap bs in
    if eq_text b.scope scope then record { scope = scope; cap = cap } ∷ bs else b ∷ rest

unfoldable pub set_budget : Runtime → Text → Value → Ledger → Result LedgerError Ledger
set_budget rt scope cap l = do
  c ← amount rt cap
  ok (record { budgets = put_budget scope c l.budgets; reservations = l.reservations })

unfoldable pub find_cap : Text → List Budget → Option ℕ
find_cap scope [] = none
find_cap scope (b ∷ bs) = if eq_text b.scope scope then some b.cap else find_cap scope bs

-- `CASE WHEN status='settled' THEN actual ELSE reserved END`
abbrev pub charge : Reservation → ℕ
charge r = elim r.actual [ none ↦ r.reserved | some paid ↦ paid ]

-- The rows `… WHERE scope=?` that are summed up
unfoldable pub charges : Text → List Reservation → List ℕ
charges scope [] = []
charges scope (r ∷ rs) =
    let rest = charges scope rs in if eq_text r.scope scope then charge r ∷ rest else rest

-- `… AND id<>?`
unfoldable pub charges_of_others : Text → Text → List Reservation → List ℕ
charges_of_others scope id [] = []
charges_of_others scope id (r ∷ rs) =
    let rest = charges_of_others scope id rs in
    if eq_text r.scope scope && not (eq_text r.id id) then charge r ∷ rest else rest

-- The float 1e-12
abbrev pub tolerance : ℕ
tolerance = 4951760157141521 * 2 ^ 982

-- `x > y`
abbrev pub is_above : Option ℕ → Option ℕ → Bool
is_above _ none = false
is_above none (some y) = true
is_above (some x) (some y) = ltb y x

-- `used + a`
abbrev pub with_amount : Sums → Option ℕ → ℕ → Option ℕ
with_amount sums none a = none
with_amount sums (some used) a = sums.add used a

-- `cap and used + a > cap[0] + 1e-12`
abbrev pub exceeds : Sums → Option ℕ → List ℕ → ℕ → Bool
exceeds sums none rows a = false
exceeds sums (some cap) rows a =
    is_above (with_amount sums (sums.sum rows) a) (sums.add cap tolerance)

unfoldable pub find_reservation : Text → List Reservation → Option Reservation
find_reservation id [] = none
find_reservation id (r ∷ rs) = if eq_text r.id id then some r else find_reservation id rs

abbrev pub is_known : Option Reservation → Bool
is_known none = false
is_known (some r) = true

-- `rid` is the new `uuid4`
unfoldable pub reserve : Runtime → Sums → Text → Text → Value → Ledger → Result LedgerError Ledger
reserve rt sums rid scope value l = do
  a ← amount rt value
  raise_if (exceeds sums (find_cap scope l.budgets) (charges scope l.reservations) a)
      reservation_denied
  raise_if (is_known (find_reservation rid l.reservations)) id_taken
  ok (record {
    budgets = l.budgets;
    reservations =
        l.reservations ++ (record { id = rid; scope = scope; reserved = a; actual = none } ∷ []);
  })

-- `UPDATE reservations SET actual=?, status='settled' WHERE id=? AND status='reserved'`
unfoldable pub pay : Text → ℕ → List Reservation → List Reservation
pay id a [] = []
pay id a (r ∷ rs) =
    let rest = pay id a rs in
    if eq_text r.id id
    then record { id = r.id; scope = r.scope; reserved = r.reserved; actual = some a } ∷ rs
    else r ∷ rest

abbrev pub is_settled : Reservation → Bool
is_settled r = elim r.actual [ none ↦ false | some paid ↦ true ]

unfoldable pub settle : Runtime → Sums → Text → Value → Ledger → Result LedgerError Ledger
settle rt sums rid value l = do
  a ← amount rt value
  row ← from_option reservation_unknown (find_reservation rid l.reservations)
  raise_if (is_settled row) already_settled
  raise_if
      (exceeds sums (find_cap row.scope l.budgets) (charges_of_others row.scope rid l.reservations)
        a)
      settlement_denied
  ok (record { budgets = l.budgets; reservations = pay rid a l.reservations })
