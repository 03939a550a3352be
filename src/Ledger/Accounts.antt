-- ===== src/Ledger/Accounts.antt =====
-- What reservations and settlements do to the use of a scope.
use forge_boss.Base.{
  ℕ, ◌+◌, ◌&&◌, not, ◌≡◌, refl, sym, subst, true, false, List, [], ◌∷◌, ◌++◌, none, some, arith,
  Text, eq_text, eq_text_iff, eq_text_refl, Bool-cases, inl, inr, if◌then◌else◌,
}
use forge_boss.Ledger.{
  Budget, Reservation, charge, put_budget, find_cap, charges, charges_of_others, find_reservation,
  pay,
}

unfoldable pub total : List ℕ → ℕ
total [] = 0
total (x ∷ xs) = x + total xs

-- The exact sum of what is reserved and paid in the scope
unfoldable pub used : Text → List Reservation → ℕ
used scope [] = 0
used scope (r ∷ rs) = (if eq_text r.scope scope then charge r else 0) + used scope rs

unfoldable pub used_by_others : Text → Text → List Reservation → ℕ
used_by_others scope id [] = 0
used_by_others scope id (r ∷ rs) =
    (if eq_text r.scope scope && not (eq_text r.id id) then charge r else 0)
    + used_by_others scope id rs

pub total-charges :
    (scope : Text) (rs : List Reservation) → total (charges scope rs) ≡ used scope rs
unfolding total charges used
total-charges scope [] = refl
total-charges scope (r ∷ rs) = ground (arith, total-charges scope rs)

pub total-charges_of_others :
    (scope id : Text) (rs : List Reservation)
    → total (charges_of_others scope id rs) ≡ used_by_others scope id rs
unfolding total charges_of_others used_by_others
total-charges_of_others scope id [] = refl
total-charges_of_others scope id (r ∷ rs) = ground (arith, total-charges_of_others scope id rs)

-- No id stands twice.
unfoldable pub IsUnique : List Reservation → Type 0
IsUnique [] = Unit
IsUnique (r ∷ rs) = (find_reservation r.id rs ≡ none) × IsUnique rs

pub used-append :
    (scope : Text) (rs : List Reservation) (r : Reservation)
    → used scope (rs ++ (r ∷ [])) ≡ used scope rs + (if eq_text r.scope scope then charge r else 0)
unfolding used
used-append scope [] r = ground arith
used-append scope (q ∷ rs) r = omega (arith, used-append scope rs r)

used_by_others-absent :
    (scope id : Text) (rs : List Reservation)
    → find_reservation id rs ≡ none
    → used_by_others scope id rs ≡ used scope rs
unfolding used used_by_others find_reservation
used_by_others-absent scope id [] h = refl
used_by_others-absent scope id (r ∷ rs) h =
    let other : eq_text r.id id ≡ false = ground arith in
    ground (arith, used_by_others-absent scope id rs (ground arith))

pub used-pay :
    (id : Text) (a : ℕ) (rs : List Reservation) (row : Reservation)
    → find_reservation id rs ≡ some row
    → IsUnique rs
    → used row.scope (pay id a rs) ≡ used_by_others row.scope id rs + a
unfolding used used_by_others find_reservation pay IsUnique
used-pay id a [] row h unique = cc
used-pay id a (r ∷ rs) row h unique = elim (Bool-cases (eq_text r.id id)) [
  | inl same ↦
      let first : r ≡ row = ground (arith, same) in
      let named : r.id ≡ id = (eq_text_iff r.id id).0 same in
      let absent : find_reservation id rs ≡ none =
        subst (λ x. find_reservation x rs ≡ none) named unique.0 in
      let others = used_by_others-absent row.scope id rs absent in
      let scoped : eq_text r.scope row.scope ≡ true =
        subst (λ (x : Reservation). eq_text r.scope x.scope ≡ true) first (eq_text_refl r.scope) in
      ground (arith, same, others, scoped)
  | inr other ↦
      let rest = used-pay id a rs row (ground (arith, other)) unique.1 in
      ground (arith, other, rest)
]

pub used-pay_elsewhere :
    (id scope : Text) (a : ℕ) (rs : List Reservation) (row : Reservation)
    → find_reservation id rs ≡ some row
    → eq_text row.scope scope ≡ false
    → used scope (pay id a rs) ≡ used scope rs
unfolding used find_reservation pay
used-pay_elsewhere id scope a [] row h apart = cc
used-pay_elsewhere id scope a (r ∷ rs) row h apart = elim (Bool-cases (eq_text r.id id)) [
  | inl same ↦
      let first : r ≡ row = ground (arith, same) in
      let scoped : eq_text r.scope scope ≡ false =
        subst (λ (x : Reservation). eq_text x.scope scope ≡ false) (sym first) apart in
      ground (arith, same, scoped)
  | inr other ↦
      let rest = used-pay_elsewhere id scope a rs row (ground (arith, other)) apart in
      ground (arith, other, rest)
]

find-pay :
    (x id : Text) (a : ℕ) (rs : List Reservation)
    → find_reservation x rs ≡ none
    → find_reservation x (pay id a rs) ≡ none
unfolding find_reservation pay
find-pay x id a [] h = refl
find-pay x id a (r ∷ rs) h =
    let other : eq_text r.id x ≡ false = ground arith in
    ground (arith, find-pay x id a rs (ground arith))

pub IsUnique-pay :
    (id : Text) (a : ℕ) (rs : List Reservation) → IsUnique rs → IsUnique (pay id a rs)
unfolding IsUnique pay
IsUnique-pay id a [] h = tt
IsUnique-pay id a (r ∷ rs) h = elim (Bool-cases (eq_text r.id id)) [
  | inl same ↦ rw same h
  | inr other ↦ rw other (find-pay r.id id a rs h.0, IsUnique-pay id a rs h.1)
]

find-append :
    (x : Text) (rs : List Reservation) (r : Reservation)
    → find_reservation x rs ≡ none
    → eq_text r.id x ≡ false
    → find_reservation x (rs ++ (r ∷ [])) ≡ none
unfolding find_reservation
find-append x [] r h apart = rw apart
find-append x (q ∷ rs) r h apart =
    let other : eq_text q.id x ≡ false = ground arith in
    ground (arith, find-append x rs r (ground arith) apart)

pub IsUnique-append :
    (rs : List Reservation) (r : Reservation)
    → find_reservation r.id rs ≡ none
    → IsUnique rs
    → IsUnique (rs ++ (r ∷ []))
unfolding IsUnique find_reservation
IsUnique-append [] r new h = (refl, tt)
IsUnique-append (q ∷ rs) r new h =
    let apart : eq_text r.id q.id ≡ false =
      ground (arith, eq_text_iff r.id q.id, eq_text_iff q.id r.id) in
    (find-append q.id rs r h.0 apart, IsUnique-append rs r (ground arith) h.1)

pub find_cap-put :
    (scope : Text) (cap : ℕ) (bs : List Budget)
    → find_cap scope (put_budget scope cap bs) ≡ some cap
unfolding find_cap put_budget
find_cap-put scope cap [] = rw (eq_text_refl scope)
find_cap-put scope cap (b ∷ bs) = elim (Bool-cases (eq_text b.scope scope)) [
  | inl same ↦ rw (same, eq_text_refl scope)
  | inr other ↦ ground (arith, other, find_cap-put scope cap bs)
]

pub find_cap-put_elsewhere :
    (scope other : Text) (cap : ℕ) (bs : List Budget)
    → eq_text scope other ≡ false
    → find_cap other (put_budget scope cap bs) ≡ find_cap other bs
unfolding find_cap put_budget
find_cap-put_elsewhere scope other cap [] apart = rw apart
find_cap-put_elsewhere scope other cap (b ∷ bs) apart = elim (Bool-cases (eq_text b.scope scope)) [
  | inl same ↦
      let named : b.scope ≡ scope = (eq_text_iff b.scope scope).0 same in
      let differs : eq_text b.scope other ≡ false =
        subst (λ x. eq_text x other ≡ false) (sym named) apart in
      rw (same, apart, differs)
  | inr differs ↦ ground (arith, differs, find_cap-put_elsewhere scope other cap bs apart)
]
