-- ===== src/Base/Members.antt =====
-- Membership of a text in a list, and searches through it.
use forge_boss.Base.Lists.{any}
use forge_boss.Base.Texts.{Text, eq_text, eq_text_iff, eq_text_refl, elem}
use mathlib.Core.Path.{◌≡◌, refl}
use mathlib.Core.Bool.{Bool, true, false}
use mathlib.Core.List.{List, [], ◌∷◌}
use native.Mathlib.Omega.{arith}

-- A search that succeeds has found an element.
pub any-elem :
    (p : Text → Bool) (xs : List Text)
    → any p xs ≡ true
    → (x : Text) × (elem x xs ≡ true) × (p x ≡ true)
unfolding elem
any-elem p [] h = cc
any-elem p (x ∷ xs) h = go (p x) refl (any-elem p xs)
  where
    go :
        (b : Bool)
        → p x ≡ b
        → (any p xs ≡ true → (y : Text) × (elem y xs ≡ true) × (p y ≡ true))
        → (y : Text) × (elem y (x ∷ xs) ≡ true) × (p y ≡ true)
    go true e ih = (x, ground (arith, eq_text_refl x), e)
    go false e ih = let (y, m, q) = ih (ground arith) in (y, ground arith, q)

-- An element that passes the test makes the search succeed.
pub elem-any :
    (p : Text → Bool) (x : Text) (xs : List Text) → elem x xs ≡ true → p x ≡ true → any p xs ≡ true
unfolding elem
elem-any p x [] m h = cc
elem-any p x (y ∷ ys) m h = ground (arith, eq_text_iff x y, elem-any p x ys)

pub any-eq_text : (x : Text) (xs : List Text) → any (λ y. eq_text x y) xs ≡ elem x xs
unfolding elem
any-eq_text x [] = refl
any-eq_text x (y ∷ ys) = rw (any-eq_text x ys)
