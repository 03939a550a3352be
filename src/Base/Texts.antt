-- ===== src/Base/Texts.antt =====
-- Python's `str` as the list of its code points, with the methods that the program calls.
use Prim.Native.Nat.{ℕ}
use Prim.Native.Char.{code}
use Prim.Native.String.{String}
use mathlib.Core.Path.{◌≡◌, refl}
use mathlib.Core.Logic.{◌↔◌, ◌≢◌}
use mathlib.Core.Bool.{Bool, true, false, ◌&&◌, ◌||◌}
use mathlib.Core.List.{List, [], ◌∷◌, ◌++◌}
use native.Mathlib.Omega.{arith}
use forge_boss.Base.Tests.{ltb, leb, ◌==◌, if◌then◌else◌}
use forge_boss.Base.Lists.{is_empty}

abbrev pub Text : Type 0
Text = List ℕ

-- The code points of a literal.
abbrev pub codes : String → Text
codes String.[] = []
codes (String.◌∷◌ c s) = code c ∷ codes s

unfoldable pub eq_text : Text → Text → Bool
eq_text [] [] = true
eq_text (c ∷ s) (d ∷ t) = c == d && eq_text s t
eq_text _ _ = false

pub eq_text_iff : (s t : Text) → (eq_text s t ≡ true) ↔ (s ≡ t)
unfolding eq_text
eq_text_iff [] [] = ground arith
eq_text_iff [] (d ∷ t) = ground arith
eq_text_iff (c ∷ s) [] = ground arith
eq_text_iff (c ∷ s) (d ∷ t) = ground (arith, eq_text_iff s t)

pub eq_text_refl : (s : Text) → eq_text s s ≡ true
eq_text_refl s = (eq_text_iff s s).1 refl

-- `s.startswith(p)`
unfoldable pub starts_with : Text → Text → Bool
starts_with s [] = true
starts_with [] (d ∷ p) = false
starts_with (c ∷ s) (d ∷ p) = c == d && starts_with s p

-- `x in xs`, for a list, tuple or set of texts
unfoldable pub elem : Text → List Text → Bool
elem x [] = false
elem x (y ∷ ys) = eq_text x y || elem x ys

-- `s.replace(old, new)` for single characters
unfoldable pub replace_char : ℕ → ℕ → Text → Text
replace_char old new [] = []
replace_char old new (c ∷ s) = (if c == old then new else c) ∷ replace_char old new s

unfoldable pub cons_head : ℕ → List Text → List Text
cons_head c [] = (c ∷ []) ∷ []
cons_head c (w ∷ ws) = (c ∷ w) ∷ ws

-- `s.split(sep)` for a single character
unfoldable pub split : ℕ → Text → List Text
unfolding cons_head
split sep [] = [] ∷ []
split sep (c ∷ s) = let rest = split sep s in if c == sep then [] ∷ rest else cons_head c rest

-- `sep.join(parts)` for a single character
unfoldable pub join : ℕ → List Text → Text
join sep [] = []
join sep (w ∷ []) = w
join sep (w ∷ v ∷ ws) = w ++ (sep ∷ join sep (v ∷ ws))

-- `s.rstrip(chars)`, the set of characters given by a test
unfoldable pub rstrip : (ℕ → Bool) → Text → Text
rstrip p [] = []
rstrip p (c ∷ s) = let r = rstrip p s in if is_empty r && p c then [] else c ∷ r

unfoldable pub lstrip : (ℕ → Bool) → Text → Text
lstrip p [] = []
lstrip p (c ∷ s) = let r = lstrip p s in if p c then r else c ∷ s

-- `str.isspace` of one character, which `strip()` removes
abbrev pub is_space : ℕ → Bool
is_space c =
    (leb 9 c && leb c 13)
    || (leb 28 c && leb c 32)
    || c == 0x85
    || c == 0xa0
    || c == 0x1680
    || (leb 0x2000 c && leb c 0x200a)
    || c == 0x2028
    || c == 0x2029
    || c == 0x202f
    || c == 0x205f
    || c == 0x3000

-- `s.strip()`
unfoldable pub strip : Text → Text
unfolding rstrip lstrip
strip s = rstrip is_space (lstrip is_space s)

-- `ord(ch)<32 or ord(ch)==127`
abbrev pub is_control : ℕ → Bool
is_control c = ltb c 32 || c == 127

pub eq_text-false : (s t : Text) → s ≢ t → eq_text s t ≡ false
eq_text-false s t h = go (eq_text s t) refl
  where
    go : (b : Bool) → eq_text s t ≡ b → b ≡ false
    go true e = absurd (h ((eq_text_iff s t).0 e))
    go false e = refl

-- Equality of lists of texts
unfoldable pub same_texts : List Text → List Text → Bool
same_texts [] [] = true
same_texts (x ∷ xs) (y ∷ ys) = eq_text x y && same_texts xs ys
same_texts _ _ = false

pub same_texts_eq : (xs ys : List Text) → same_texts xs ys ≡ true → xs ≡ ys
unfolding same_texts
same_texts_eq [] [] h = refl
same_texts_eq [] (y ∷ ys) h = cc
same_texts_eq (x ∷ xs) [] h = cc
same_texts_eq (x ∷ xs) (y ∷ ys) h =
    let heads : x ≡ y = ground (arith, eq_text_iff x y) in
    let tails : xs ≡ ys = same_texts_eq xs ys (ground arith) in cc

pub same_texts_refl : (xs : List Text) → same_texts xs xs ≡ true
unfolding same_texts
same_texts_refl [] = refl
same_texts_refl (x ∷ xs) = ground (arith, eq_text_refl x, same_texts_refl xs)
