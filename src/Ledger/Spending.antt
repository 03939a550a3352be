-- ===== src/Ledger/Spending.antt =====
-- Spending against budgets, over sequences of committed transactions.
use forge_boss.Base.{
  ℕ, List, ◌≢◌, ◌+◌, ◌*◌, ◌≤◌, ◌≡◌, sym, ap, ◌∙◌, subst, false, [], ◌∷◌, ◌++◌, Option, none, some,
  arith, Text, eq_text, eq_text_iff, ok, raise_if, from_option, from_option-eq-ok, >>=-eq-ok,
  Bool-cases, Option-cases, inl, inr,
}
use forge_boss.Value.{Value}
use forge_boss.Runtime.{Runtime}
use forge_boss.Ledger.{
  Reservation, Ledger, amount, put_budget, set_budget, find_cap, charges, charges_of_others, Sums,
  tolerance, exceeds, is_known, reserve, find_reservation, pay, is_settled, settle,
  reservation_denied, id_taken, reservation_unknown, already_settled, settlement_denied,
}
use forge_boss.Ledger.Accounts.{
  IsUnique, used, total, total-charges, total-charges_of_others, used-append, used-pay,
  used-pay_elsewhere, IsUnique-pay, IsUnique-append, find_cap-put_elsewhere,
}

-- What is reserved and paid in the scope is within its budget, if it has one, up to the tolerance and
-- three millionths.
abbrev pub IsWithin : Text → Ledger → Type 0
IsWithin scope l =
    (cap : ℕ)
    → find_cap scope l.budgets ≡ some cap
    → 999997 * used scope l.reservations ≤ 1000000 * (cap + tolerance)

pub record IsSound (l : Ledger) : Type 0 where
  pub unique : IsUnique l.reservations
  pub within : (scope : Text) → IsWithin scope l

-- Sums are rounded by at most a millionth of them, and a cap with the tolerance is no infinity.
pub record IsRounded (sums : Sums) : Type 0 where
  pub summed : (xs : List ℕ) (r : ℕ) → sums.sum xs ≡ some r → 1000000 * total xs ≤ 1000001 * r
  pub added : (a b r : ℕ) → sums.add a b ≡ some r → 1000000 * (a + b) ≤ 1000001 * r
  pub added_most : (a b r : ℕ) → sums.add a b ≡ some r → 1000000 * r ≤ 1000001 * (a + b)
  pub capped : (cap : ℕ) → sums.add cap tolerance ≢ none

exceeds-false :
    (sums : Sums) (o : Option ℕ) (rows : List ℕ) (a cap : ℕ)
    → IsRounded sums
    → exceeds sums o rows a ≡ false
    → o ≡ some cap
    → 999997 * (total rows + a) ≤ 1000000 * (cap + tolerance)
exceeds-false sums none rows a cap rounded h e = cc
exceeds-false sums (some c) rows a cap rounded h e =
    let same : c ≡ cap = ground arith in
    elim (Option-cases (sums.add c tolerance)) [
      | inl infinite ↦ absurd (rounded.capped c infinite)
      | inr (bound, bounds) ↦ elim (Option-cases (sums.sum rows)) [
        | inl infinite ↦ absurd (ground (arith, infinite, bounds))
        | inr (spent, sums_up) ↦ elim (Option-cases (sums.add spent a)) [
          | inl infinite ↦ absurd (ground (arith, infinite, bounds, sums_up))
          | inr (all_spent, adds) ↦
              let below : all_spent ≤ bound = ground (arith, bounds, sums_up, adds) in
              ground (
                arith,
                same,
                below,
                rounded.summed rows spent sums_up,
                rounded.added spent a all_spent adds,
                rounded.added_most c tolerance bound bounds,
              )
        ]
      ]
    ]

module _ (rt : Runtime) (sums : Sums) (rounded : IsRounded sums) where
  reserve-IsSound :
      (rid scope : Text) (value : Value) (l out : Ledger)
      → reserve rt sums rid scope value l ≡ ok out
      → IsSound l
      → IsSound out
  unfolding reserve
  reserve-IsSound rid scope value l out h sound =
      let (a, read, b) = >>=-eq-ok (amount rt value) _ h in
      let (_, allowed, c) =
        >>=-eq-ok
          (raise_if (exceeds sums (find_cap scope l.budgets) (charges scope l.reservations) a)
            reservation_denied)
          _ b in
      let (_, fresh, d) =
        >>=-eq-ok (raise_if (is_known (find_reservation rid l.reservations)) id_taken) _ c in
      let row : Reservation = record { id = rid; scope = scope; reserved = a; actual = none } in
      let made : record { budgets = l.budgets; reservations = l.reservations ++ (row ∷ []) } ≡ out =
        ground arith in
      let new : find_reservation rid l.reservations ≡ none =
        elim (Option-cases (find_reservation rid l.reservations)) [
          | inl absent ↦ absent
          | inr (r, found) ↦ absurd (ground (arith, found))
        ] in
      let room : exceeds sums (find_cap scope l.budgets) (charges scope l.reservations) a ≡ false =
        ground arith in
      subst IsSound made (record {
        unique = IsUnique-append l.reservations row new sound.unique;
        within = λ s cap capped.
            let adds = used-append s l.reservations row in
            let before = sound.within s cap capped in
            elim (Bool-cases (eq_text scope s)) [
              | inl same ↦
                  let names : scope ≡ s = (eq_text_iff scope s).0 same in
                  let bounded =
                    exceeds-false sums (find_cap scope l.budgets) (charges scope l.reservations) a
                      cap rounded room (ap (λ x. find_cap x l.budgets) names ∙ capped) in
                  ground (arith, adds, same, bounded, names, total-charges scope l.reservations)
              | inr other ↦ ground (arith, adds, other, before)
            ];
      })

  settle-IsSound :
      (rid : Text) (value : Value) (l out : Ledger)
      → settle rt sums rid value l ≡ ok out
      → IsSound l
      → IsSound out
  unfolding settle
  settle-IsSound rid value l out h sound =
      let (a, read, b) = >>=-eq-ok (amount rt value) _ h in
      let (row, finds, c) =
        >>=-eq-ok (from_option reservation_unknown (find_reservation rid l.reservations)) _ b in
      let (_, unsettled, d) = >>=-eq-ok (raise_if (is_settled row) already_settled) _ c in
      let (_, allowed, e) =
        >>=-eq-ok
          (raise_if
            (exceeds sums (find_cap row.scope l.budgets)
              (charges_of_others row.scope rid l.reservations) a)
            settlement_denied)
          _ d in
      let found : find_reservation rid l.reservations ≡ some row =
        from_option-eq-ok reservation_unknown (find_reservation rid l.reservations) finds in
      let made : record { budgets = l.budgets; reservations = pay rid a l.reservations } ≡ out =
        ground arith in
      let room : exceeds sums (find_cap row.scope l.budgets)
            (charges_of_others row.scope rid l.reservations) a
          ≡ false =
        ground arith in
      subst IsSound made (record {
        unique = IsUnique-pay rid a l.reservations sound.unique;
        within = λ s cap capped. elim (Bool-cases (eq_text row.scope s)) [
          | inl same ↦
              let names : row.scope ≡ s = (eq_text_iff row.scope s).0 same in
              let bounded =
                exceeds-false sums (find_cap row.scope l.budgets)
                  (charges_of_others row.scope rid l.reservations) a cap rounded room
                  (ap (λ x. find_cap x l.budgets) names ∙ capped) in
              let others = total-charges_of_others row.scope rid l.reservations in
              let paid = used-pay rid a l.reservations row found sound.unique in
              subst (λ x. 999997 * used x (pay rid a l.reservations) ≤ 1000000 * (cap + tolerance))
                names (ground (arith, paid, others, bounded))
          | inr other ↦
              let total = used-pay_elsewhere rid s a l.reservations row found other in
              ground (arith, total, sound.within s cap capped)
        ];
      })

  set_budget-IsSound :
      (scope : Text) (value : Value) (l out : Ledger)
      → set_budget rt scope value l ≡ ok out
      → IsWithin scope out
      → IsSound l
      → IsSound out
  unfolding set_budget
  set_budget-IsSound scope value l out h enough sound =
      let (c, read, b) = >>=-eq-ok (amount rt value) _ h in
      let made : record { budgets = put_budget scope c l.budgets; reservations = l.reservations }
          ≡ out =
        ground arith in
      subst (λ x. IsWithin scope x → IsSound x) made
        (λ within. record {
          unique = sound.unique;
          within = λ s cap capped. elim (Bool-cases (eq_text scope s)) [
            | inl same ↦
                let names : scope ≡ s = (eq_text_iff scope s).0 same in
                subst (λ x. 999997 * used x l.reservations ≤ 1000000 * (cap + tolerance)) names
                  (within cap (ap (λ x. find_cap x (put_budget scope c l.budgets)) names ∙ capped))
            | inr other ↦
                sound.within s cap (sym (find_cap-put_elsewhere scope s c l.budgets other) ∙ capped)
          ];
        })
        enough

  -- Committed transactions; a budget is not set below what is used already.
  pub data Step : Ledger → Ledger → Type 0 where
    reserves :
        (l out : Ledger) (rid scope : Text) (value : Value)
        → reserve rt sums rid scope value l ≡ ok out
        → Step l out
    settles :
        (l out : Ledger) (rid : Text) (value : Value)
        → settle rt sums rid value l ≡ ok out
        → Step l out
    budgets :
        (l out : Ledger) (scope : Text) (value : Value)
        → set_budget rt scope value l ≡ ok out
        → IsWithin scope out
        → Step l out

  pub data Reach : Ledger → Type 0 where
    opening : Reach (record { budgets = []; reservations = [] })
    then : {l out : Ledger} → Reach l → Step l out → Reach out

  Step-IsSound : {l out : Ledger} → Step l out → IsSound l → IsSound out
  Step-IsSound (reserves l out rid scope value h) sound =
      reserve-IsSound rid scope value l out h sound
  Step-IsSound (settles l out rid value h) sound = settle-IsSound rid value l out h sound
  Step-IsSound (budgets l out scope value h enough) sound =
      set_budget-IsSound scope value l out h enough sound

  -- If floats are added with an error of at most a millionth of the sum: from an empty ledger, after
  -- any committed reservations, settlements, and budgets that are not set below what their scope
  -- uses, what each scope has reserved and paid is at most its budget and 1e-12, up to three
  -- millionths, and no two reservations have one id.
  pub Reach-IsSound : {l : Ledger} → Reach l → IsSound l
  Reach-IsSound opening = record {
    unique = unfold IsUnique in tt;
    within = λ scope cap capped. unfold find_cap in cc;
  }
  Reach-IsSound (then before step) = Step-IsSound step (Reach-IsSound before)
