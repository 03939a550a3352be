-- ===== src/Ledger/Examples.antt =====
-- A ledger on concrete data, and the theorem at it.
use forge_boss.Base.{◌+◌, ◌*◌, ◌≡◌, refl, [], ◌∷◌, none, some, arith, codes, eq_text, ok, err}
use forge_boss.Base.Int.{pos, negsuc}
use forge_boss.Value.{tick, int, float, nan, to_float, float_of_int}
use forge_boss.Runtime.Plain.{plain}
use forge_boss.Ledger.{
  reservation_denied, already_settled, not_finite, below_minimum, Ledger, finite_number, amount,
  put_budget, set_budget, find_cap, Sums, charges, charges_of_others, reserve, find_reservation,
  pay, settle,
}
use forge_boss.Ledger.Accounts.{total, used}
use forge_boss.Ledger.Spending.{
  IsSound, IsRounded, opening, then, reserves, settles, budgets, Reach-IsSound,
}

-- Sums that are not rounded
abbrev exactly : Sums
exactly = record { sum = λ xs. some (total xs); add = λ a b. some (a + b) }

exactly-IsRounded : IsRounded exactly
exactly-IsRounded = record {
  summed = λ xs r e. ground arith;
  added = λ a b r e. ground arith;
  added_most = λ a b r e. ground arith;
  capped = λ cap e. cc;
}

abbrev empty : Ledger
empty = record { budgets = []; reservations = [] }

abbrev funded : Ledger
funded = record { budgets = record { scope = codes "s"; cap = 10 * tick } ∷ []; reservations = [] }

abbrev reserved : Ledger
reserved = record {
  budgets = record { scope = codes "s"; cap = 10 * tick } ∷ [];
  reservations =
      record { id = codes "r"; scope = codes "s"; reserved = 8 * tick; actual = none } ∷ [];
}

abbrev paid : Ledger
paid = record {
  budgets = record { scope = codes "s"; cap = 10 * tick } ∷ [];
  reservations =
      record { id = codes "r"; scope = codes "s"; reserved = 8 * tick; actual = some (3 * tick) }
      ∷ [];
}

-- The operations that the tests run
opened : Unit {0}
unfolding plain eq_text to_float float_of_int finite_number amount put_budget set_budget find_cap
    charges charges_of_others total used reserve find_reservation pay settle
opened = tt

funding : set_budget plain (codes "s") (int (pos 10)) empty ≡ ok funded
unfolding opened
funding = refl

reserving : reserve plain exactly (codes "r") (codes "s") (int (pos 8)) funded ≡ ok reserved
unfolding opened
reserving = refl

overspending :
    reserve plain exactly (codes "q") (codes "s") (int (pos 3)) reserved ≡ err reservation_denied
unfolding opened
overspending = refl

paying : settle plain exactly (codes "r") (int (pos 3)) reserved ≡ ok paid
unfolding opened
paying = refl

paying_again : settle plain exactly (codes "r") (int (pos 3)) paid ≡ err already_settled
unfolding opened
paying_again = refl

no_number : reserve plain exactly (codes "q") (codes "s") (float nan) funded ≡ err not_finite
unfolding opened
no_number = refl

negative : reserve plain exactly (codes "q") (codes "s") (int (negsuc 0)) funded ≡ err below_minimum
unfolding opened
negative = refl

Reach-IsSound_example : IsSound paid
unfolding opened
Reach-IsSound_example = Reach-IsSound plain exactly exactly-IsRounded (
    then
      (then
        (then opening
          (budgets empty funded (codes "s") (int (pos 10)) funding (λ cap capped. ground arith)))
        (reserves funded reserved (codes "r") (codes "s") (int (pos 8)) reserving))
      (settles reserved paid (codes "r") (int (pos 3)) paying))
