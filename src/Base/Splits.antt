-- ===== src/Base/Splits.antt =====
-- Laws of `split` and `join`.
use forge_boss.Base.Tests.{if◌then◌else◌, ◌==◌, ==_refl}
use forge_boss.Base.Lists.{All, All-append}
use forge_boss.Base.Texts.{Text, split, join, cons_head}
use Prim.Native.Nat.{ℕ}
use mathlib.Core.Path.{◌≡◌, refl, ◌∙◌, ap}
use mathlib.Core.Bool.{Bool, true, false}
use mathlib.Core.List.{List, [], ◌∷◌, ◌++◌}
use native.Mathlib.Omega.{arith}

module _ {ℓ} (P : ℕ → Type ℓ) where
  All-cons_head : (c : ℕ) (ws : List Text) → P c → All (All P) ws → All (All P) (cons_head c ws)
  unfolding cons_head
  All-cons_head c [] h hw = ((h, tt), tt)
  All-cons_head c (w ∷ ws) h hw = ((h, hw.0), hw.1)

  -- What holds of each character of a text holds in each part.
  pub All-split : (sep : ℕ) (s : Text) → All P s → All (All P) (split sep s)
  unfolding split
  All-split sep [] h = (tt, tt)
  All-split sep (c ∷ s) h = go (c == sep) (All-split sep s h.1)
    where
      go :
          (b : Bool)
          → All (All P) (split sep s)
          → All (All P) (if b then [] ∷ split sep s else cons_head c (split sep s))
      go true ih = (tt, ih)
      go false ih = All-cons_head c (split sep s) h.0 ih

abbrev pub Lacks : ℕ → Text → Type 0
Lacks sep = All (λ c. (c == sep) ≡ false)

-- No part contains the separator.
pub split-Lacks : (sep : ℕ) (s : Text) → All (Lacks sep) (split sep s)
unfolding split
split-Lacks sep [] = (tt, tt)
split-Lacks sep (c ∷ s) = go (c == sep) refl (split-Lacks sep s)
  where
    go :
        (b : Bool)
        → (c == sep) ≡ b
        → All (Lacks sep) (split sep s)
        → All (Lacks sep) (if b then [] ∷ split sep s else cons_head c (split sep s))
    go true e ih = (tt, ih)
    go false e ih = All-cons_head (λ d. (d == sep) ≡ false) c (split sep s) e ih

split-Lacks_one : (sep : ℕ) (w : Text) → Lacks sep w → split sep w ≡ w ∷ []
unfolding split cons_head
split-Lacks_one sep [] h = refl
split-Lacks_one sep (c ∷ w) h = ground (arith, split-Lacks_one sep w h.1)

split-append_sep :
    (sep : ℕ) (w s : Text) → Lacks sep w → split sep (w ++ (sep ∷ s)) ≡ w ∷ split sep s
unfolding split cons_head
split-append_sep sep [] s h = ground (arith, ==_refl sep)
split-append_sep sep (c ∷ w) s h = ground (arith, split-append_sep sep w s h.1)

-- Parts that lack the separator survive `join` and `split`, if there is one at all.
pub split-join :
    (sep : ℕ) (w : Text) (ws : List Text)
    → All (Lacks sep) (w ∷ ws)
    → split sep (join sep (w ∷ ws)) ≡ w ∷ ws
unfolding join
split-join sep w [] h = split-Lacks_one sep w h.0
split-join sep w (v ∷ ws) h =
    split-append_sep sep w (join sep (v ∷ ws)) h.0 ∙ ap (λ r. w ∷ r) (split-join sep v ws h.1)

pub All-join {ℓ} :
    (P : ℕ → Type ℓ) (sep : ℕ) (ws : List Text) → P sep → All (All P) ws → All P (join sep ws)
unfolding join
All-join P sep [] h hw = tt
All-join P sep (w ∷ []) h hw = hw.0
All-join P sep (w ∷ v ∷ ws) h hw =
    All-append P w (sep ∷ join sep (v ∷ ws)) hw.0 (h, All-join P sep (v ∷ ws) h hw.1)
