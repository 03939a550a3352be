-- ===== src/Base/Strips.antt =====
-- Laws of `rstrip` and `replace_char`, and of what the characters of their results satisfy.
use forge_boss.Base.Tests.{if◌then◌else◌, ◌==◌}
use forge_boss.Base.Lists.{is_empty, All}
use forge_boss.Base.Texts.{Text, rstrip, replace_char}
use Prim.Native.Nat.{ℕ}
use mathlib.Core.Path.{◌≡◌, refl}
use mathlib.Core.Bool.{Bool, true, false, ◌&&◌}
use mathlib.Core.List.{[], ◌∷◌}
use native.Mathlib.Omega.{arith}

-- Stripping drops characters only, so what held of each character still does.
pub All-rstrip {ℓ} : (P : ℕ → Type ℓ) (p : ℕ → Bool) (s : Text) → All P s → All P (rstrip p s)
unfolding rstrip
All-rstrip P p [] h = tt
All-rstrip P p (c ∷ s) h = go (is_empty (rstrip p s) && p c) (All-rstrip P p s h.1)
  where
    go : (b : Bool) → All P (rstrip p s) → All P (if b then [] else c ∷ rstrip p s)
    go true ih = tt
    go false ih = (h.0, ih)

-- The last character that is left is none of those stripped.
pub rstrip_last :
    (p : ℕ → Bool) (s : Text) (c : ℕ) → p c ≡ false → rstrip p (c ∷ s) ≡ c ∷ rstrip p s
unfolding rstrip
rstrip_last p s c h = ground arith

pub rstrip_idem : (p : ℕ → Bool) (s : Text) → rstrip p (rstrip p s) ≡ rstrip p s
unfolding rstrip
rstrip_idem p [] = refl
rstrip_idem p (c ∷ s) = ground (arith, rstrip_idem p s)

-- A text that the wider strip leaves alone, the narrower one leaves alone.
pub rstrip_weaker :
    (p q : ℕ → Bool) (s : Text)
    → ((c : ℕ) → p c ≡ true → q c ≡ true)
    → rstrip q s ≡ s
    → rstrip p s ≡ s
unfolding rstrip
rstrip_weaker p q [] h e = refl
rstrip_weaker p q (c ∷ s) h e = ground (arith, h c, rstrip_weaker p q s h)

-- After a replacement the old character is gone.
pub All-replace_char :
    (old new : ℕ) (s : Text)
    → (new == old) ≡ false
    → All (λ c. (c == old) ≡ false) (replace_char old new s)
unfolding replace_char
All-replace_char old new [] h = tt
All-replace_char old new (c ∷ s) h = ground (arith, All-replace_char old new s h)

pub replace_char_none :
    (old new : ℕ) (s : Text) → All (λ c. (c == old) ≡ false) s → replace_char old new s ≡ s
unfolding replace_char
replace_char_none old new [] h = refl
replace_char_none old new (c ∷ s) h = ground (arith, replace_char_none old new s h.1)
