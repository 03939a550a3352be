-- ===== src/Envelope/Verify/Entries.antt =====
-- The keys and the expiry of an envelope that passes the checks of forgeboss/control/envelope.py.
use forge_boss.Base.{
  inl, inr, ◌≡◌, subst, true, false, List, [], ◌∷◌, arith, String, all, any, All, Bool-cases, ◌⊎◌,
}
use forge_boss.Base.Int.{ℤ, ◌<ℤ◌}
use forge_boss.Value.{Float, finite, pos_inf, neg_inf, nan, Fields, end, field, has}
use text.Mathlib.Text.{◌==◌ as str_eq}
use text.Mathlib.TextEquality.{eq_iff}
use forge_boss.Policy.ReuseReview.{keys_within}
use forge_boss.Envelope.Verify.{is_past}

-- Later than now; a comparison of NaN is false, so that NaN is never past.
abbrev pub IsLater : Float → ℤ → Type 0
IsLater (finite z) now = now <ℤ z
IsLater pos_inf now = Unit
IsLater neg_inf now = ⊥
IsLater nan now = Unit

pub is_past-IsLater : (f : Float) (now : ℤ) → is_past f now ≡ false → IsLater f now
unfolding is_past
is_past-IsLater (finite z) now h = ground arith
is_past-IsLater pos_inf now h = tt
is_past-IsLater neg_inf now h = cc
is_past-IsLater nan now h = tt

-- One of the keys
abbrev pub IsAmong : String → List String → Type 0
IsAmong k [] = ⊥
IsAmong k (e ∷ es) = (k ≡ e) ⊎ IsAmong k es

any-IsAmong : (k : String) (es : List String) → any (λ e. str_eq k e) es ≡ true → IsAmong k es
any-IsAmong k [] h = cc
any-IsAmong k (e ∷ es) h = elim (Bool-cases (str_eq k e)) [
  | inl same ↦ inl ((eq_iff k e).0 same)
  | inr other ↦ inr (any-IsAmong k es (ground arith))
]

pub has-IsAmong :
    (es : List String) (fs : Fields) (k : String)
    → keys_within es fs ≡ true
    → has k fs ≡ true
    → IsAmong k es
unfolding keys_within has
has-IsAmong es end k h present = cc
has-IsAmong es (field l v fs) k h present = elim (Bool-cases (str_eq l k)) [
  | inl same ↦
      let this : any (λ e. str_eq l e) es ≡ true = ground arith in
      subst (λ x. IsAmong x es) ((eq_iff l k).0 same) (any-IsAmong l es this)
  | inr other ↦ has-IsAmong es fs k (ground arith) (ground arith)
]

pub all-has :
    (fs : Fields) (ks : List String) → all (λ k. has k fs) ks ≡ true → All (λ k. has k fs ≡ true) ks
all-has fs [] h = tt
all-has fs (k ∷ ks) h = (ground arith, all-has fs ks (ground arith))
