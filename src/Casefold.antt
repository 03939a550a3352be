-- ===== src/Casefold.antt =====
-- Python's `str.casefold` (the interpreter's, not this repository's): a fixed table that maps each
-- character to a text. The program relies on four facts of that table, which Unicode documents:
-- no character folds to nothing, ASCII folds to its lower case, no other character folds to one of
-- the four path characters, and folding twice is folding once.
use forge_boss.Base.{
  ℕ, ◌+◌, ◌<◌, ◌≡◌, refl, ◌≢◌, Bool, false, ◌||◌, ◌&&◌, [], ◌∷◌, ◌++◌, arith, leb, ◌==◌,
  if◌then◌else◌, All, Text,
}

abbrev pub to_lower : ℕ → ℕ
to_lower c = if leb b'A' c && leb c b'Z' then c + 32 else c

-- `/`, `\`, `.` and the blank
abbrev pub is_path_mark : ℕ → Bool
is_path_mark c = c == b'/' || c == 92 || c == b'.' || c == b' '

pub record CaseTable : Type 0 where
  pub fold : ℕ → Text
  pub fold_some : (c : ℕ) → fold c ≢ []
  pub fold_ascii : (c : ℕ) → c < 128 → fold c ≡ to_lower c ∷ []
  pub fold_unmarked : (c : ℕ) → is_path_mark c ≡ false → All (λ d. is_path_mark d ≡ false) (fold c)
  pub fold_stable : (c : ℕ) → All (λ d. fold d ≡ d ∷ []) (fold c)

module _ (table : CaseTable) where
  unfoldable pub casefold : Text → Text
  casefold [] = []
  casefold (c ∷ s) = table.fold c ++ casefold s

  casefold_stable :
      (s t : Text) → All (λ d. table.fold d ≡ d ∷ []) s → casefold (s ++ t) ≡ s ++ casefold t
  unfolding casefold
  casefold_stable [] t h = refl
  casefold_stable (c ∷ s) t h = rw (h.0, casefold_stable s t h.1)

  pub casefold_idem : (s : Text) → casefold (casefold s) ≡ casefold s
  unfolding casefold
  casefold_idem [] = refl
  casefold_idem (c ∷ s) =
      rw (casefold_stable (table.fold c) (casefold s) (table.fold_stable c)) (rw (casefold_idem s))

  pub casefold-ne-nil : (s : Text) → s ≢ [] → casefold s ≢ []
  unfolding casefold
  casefold-ne-nil [] h e = h e
  casefold-ne-nil (c ∷ s) h e = go (table.fold c) refl e
    where
      go : (w : Text) → table.fold c ≡ w → w ++ casefold s ≡ [] → ⊥
      go [] e' e = table.fold_some c e'
      go (d ∷ w) e' e = cc

-- Folding of the ASCII letters alone has the four properties.
abbrev pub ascii_fold : ℕ → Text
ascii_fold c = to_lower c ∷ []

pub ascii_fold_some : (c : ℕ) → ascii_fold c ≢ []
ascii_fold_some c e = cc

pub ascii_fold_unmarked :
    (c : ℕ) → is_path_mark c ≡ false → All (λ d. is_path_mark d ≡ false) (ascii_fold c)
ascii_fold_unmarked c h = (ground arith, tt)

pub ascii_fold_stable : (c : ℕ) → All (λ d. ascii_fold d ≡ d ∷ []) (ascii_fold c)
ascii_fold_stable c = (ground arith, tt)

unfoldable pub ascii : CaseTable
ascii = record {
  fold = ascii_fold;
  fold_some = ascii_fold_some;
  fold_ascii = λ c h. refl;
  fold_unmarked = ascii_fold_unmarked;
  fold_stable = ascii_fold_stable;
}
