-- ===== src/Value/Signing.antt =====
-- Replacing the entry of a key, as signing does.
use forge_boss.Base.{◌≡◌, sym, subst, true, false, List, String, arith, Bool-cases, inl, inr, any}
use forge_boss.Value.{Value, Fields, end, field, get, has, without, append_field}
use forge_boss.Policy.ReuseReview.{keys_within}
use text.Mathlib.Text.{◌==◌ as str_eq}
use text.Mathlib.TextEquality.{eq_iff}
use text.Mathlib.TextPositions.{eq_refl}

abbrev pub replace : String → Value → Fields → Fields
replace key v fs = append_field (without key fs) key v

module _ (key : String) (v : Value) where
  pub get-replace : (fs : Fields) → get key (replace key v fs) ≡ v
  unfolding get without append_field
  get-replace end = rw (eq_refl key)
  get-replace (field k w fs) = elim (Bool-cases (str_eq k key)) [
    | inl same ↦ rw (same, get-replace fs)
    | inr other ↦ ground (arith, other, get-replace fs)
  ]

  pub without-replace : (fs : Fields) → without key (replace key v fs) ≡ without key fs
  unfolding without append_field
  without-replace end = rw (eq_refl key)
  without-replace (field k w fs) = elim (Bool-cases (str_eq k key)) [
    | inl same ↦ rw (same, without-replace fs)
    | inr other ↦ ground (arith, other, without-replace fs)
  ]

  apart :
      (k other : String) → str_eq key other ≡ false → str_eq k key ≡ true → str_eq k other ≡ false
  apart k other h same = subst (λ x. str_eq x other ≡ false) (sym ((eq_iff k key).0 same)) h

  pub get-replace_elsewhere :
      (other : String)
      → str_eq key other ≡ false
      → (fs : Fields) → get other (replace key v fs) ≡ get other fs
  unfolding get without append_field
  get-replace_elsewhere other h end = rw h
  get-replace_elsewhere other h (field k w fs) = elim (Bool-cases (str_eq k key)) [
    | inl same ↦ rw (same, apart k other h same, get-replace_elsewhere other h fs)
    | inr differs ↦ rw (differs, get-replace_elsewhere other h fs)
  ]

  pub has-replace : (fs : Fields) → has key (replace key v fs) ≡ true
  unfolding has without append_field
  has-replace end = rw (eq_refl key)
  has-replace (field k w fs) = elim (Bool-cases (str_eq k key)) [
    | inl same ↦ rw (same, has-replace fs)
    | inr other ↦ ground (arith, other, has-replace fs)
  ]

  pub has-replace_elsewhere :
      (other : String)
      → str_eq key other ≡ false
      → (fs : Fields) → has other (replace key v fs) ≡ has other fs
  unfolding has without append_field
  has-replace_elsewhere other h end = rw h
  has-replace_elsewhere other h (field k w fs) = elim (Bool-cases (str_eq k key)) [
    | inl same ↦ rw (same, apart k other h same, has-replace_elsewhere other h fs)
    | inr differs ↦ rw (differs, has-replace_elsewhere other h fs)
  ]

  pub keys_within-replace :
      (expected : List String)
      → any (λ e. str_eq key e) expected ≡ true
      → (fs : Fields) → keys_within expected fs ≡ true
      → keys_within expected (replace key v fs) ≡ true
  unfolding keys_within without append_field
  keys_within-replace expected known end h = rw known
  keys_within-replace expected known (field k w fs) h =
      let rest = keys_within-replace expected known fs (ground arith) in
      let this : any (λ e. str_eq k e) expected ≡ true = ground arith in
      elim (Bool-cases (str_eq k key)) [
        | inl same ↦ rw same rest
        | inr other ↦ rw (other, this, rest)
      ]
