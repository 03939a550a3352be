-- ===== src/Scheduler/Paths/Canonical.antt =====
-- The form of canonical paths.
use mathlib.Core.List.{foldl-append, reverse-cons, append-nil}
use forge_boss.Base.{
  ℕ, ◌≡◌, refl, ap, ◌∙◌, subst, ◌≢◌, ◌⊎◌, inl, inr, Bool, true, false, ◌||◌, List, [], ◌∷◌, ◌++◌,
  arith, foldl, reverse, ◌==◌, if◌then◌else◌, All, All-append, All-map, All-reverse, Bool-cases,
  if_keeps, eq_text-false, Text, eq_text, eq_text_iff, replace_char, split, join, rstrip,
}
use forge_boss.Base.Strips.{
  All-rstrip, rstrip_idem, rstrip_weaker, All-replace_char, replace_char_none,
}
use forge_boss.Base.Splits.{All-split, split-Lacks, split-join, All-join, Lacks}
use forge_boss.Casefold.{CaseTable, casefold, casefold_idem, casefold-ne-nil, is_path_mark}
use forge_boss.Scheduler.Paths.{
  is_blank, is_dot_or_blank, dot, dot_dot, go_up, add_name, add_part, canonical_parts,
  canonical_path,
}

-- Neither a slash nor a backslash
abbrev IsClean : ℕ → Type 0
IsClean c = ((c == b'/') ≡ false) × ((c == 92) ≡ false)

rstrip_none : (p : ℕ → Bool) (s : Text) → All (λ c. p c ≡ false) s → rstrip p s ≡ s
unfolding rstrip
rstrip_none p [] h = refl
rstrip_none p (c ∷ s) h = ground (arith, rstrip_none p s h.1)

rstrip-append : (p : ℕ → Bool) (w t : Text) → t ≢ [] → rstrip p t ≡ t → rstrip p (w ++ t) ≡ w ++ t
unfolding rstrip
rstrip-append p [] t h e = e
rstrip-append p (c ∷ w) [] h e = absurd (h refl)
rstrip-append p (c ∷ []) (d ∷ t) h e = rw e
rstrip-append p (c ∷ d ∷ w) (f ∷ t) h e = rw (rstrip-append p (d ∷ w) (f ∷ t) h e)

module _ (table : CaseTable) where
  fold_mark : (c : ℕ) → is_path_mark c ≡ true → table.fold c ≡ c ∷ []
  fold_mark c h = table.fold_ascii c (ground arith) ∙ ap (λ d. d ∷ []) (ground arith)

  fold_unstripped :
      (c : ℕ) → is_dot_or_blank c ≡ false → All (λ d. is_dot_or_blank d ≡ false) (table.fold c)
  fold_unstripped c h = elim (Bool-cases (is_path_mark c)) [
    | inl marked ↦ rw (fold_mark c marked) (h, tt)
    | inr plain ↦ All-map (λ d e. ground arith) (table.fold c) (table.fold_unmarked c plain)
  ]

  fold-IsClean : (c : ℕ) → IsClean c → All IsClean (table.fold c)
  fold-IsClean c h = elim (Bool-cases (is_path_mark c)) [
    | inl marked ↦ rw (fold_mark c marked) (h, tt)
    | inr plain ↦
        All-map (λ d e. (ground arith, ground arith)) (table.fold c) (table.fold_unmarked c plain)
  ]

  casefold-IsClean : (s : Text) → All IsClean s → All IsClean (casefold table s)
  unfolding casefold
  casefold-IsClean [] h = tt
  casefold-IsClean (c ∷ s) h =
      All-append IsClean (table.fold c) (casefold table s) (fold-IsClean c h.0)
        (casefold-IsClean s h.1)

  -- Folding leaves no dot or blank at the end where there was none.
  rstrip-casefold :
      (s : Text)
      → rstrip is_dot_or_blank s ≡ s
      → rstrip is_dot_or_blank (casefold table s) ≡ casefold table s
  unfolding casefold rstrip
  rstrip-casefold [] e = refl
  rstrip-casefold (c ∷ []) e =
      rw append-nil (rstrip_none is_dot_or_blank (table.fold c) (fold_unstripped c (ground arith)))
  rstrip-casefold (c ∷ d ∷ s) e =
      rstrip-append is_dot_or_blank (table.fold c) (casefold table (d ∷ s))
        (casefold-ne-nil table (d ∷ s) (λ q. cc)) (rstrip-casefold (d ∷ s) (ground arith))

  -- A part that is a name: what `_canonical_path` appends after its tests.
  abbrev IsName : Text → Type 0
  IsName x = (x ≢ []) × All IsClean x × (rstrip is_dot_or_blank x ≡ x) × (casefold table x ≡ x)

  -- The parts, last first: names above leading `..`s.
  abbrev IsCanonical : List Text → Type 0
  IsCanonical [] = Unit
  IsCanonical (x ∷ xs) = (IsName x × IsCanonical xs) ⊎ ((x ≡ dot_dot) × All (λ y. y ≡ dot_dot) xs)

  dot_dot-not-IsName : IsName dot_dot → ⊥
  unfolding rstrip
  dot_dot-not-IsName h = cc h.2

  ups-IsCanonical : (xs : List Text) → All (λ y. y ≡ dot_dot) xs → IsCanonical xs
  ups-IsCanonical [] h = tt
  ups-IsCanonical (x ∷ xs) h = inr h

  tail-IsCanonical : (x : Text) (xs : List Text) → IsCanonical (x ∷ xs) → IsCanonical xs
  tail-IsCanonical x xs (inl (n, h)) = h
  tail-IsCanonical x xs (inr (e, h)) = ups-IsCanonical xs h

  go_up-IsCanonical : (xs : List Text) → IsCanonical xs → IsCanonical (go_up xs)
  unfolding go_up
  go_up-IsCanonical [] h = inr (refl, tt)
  go_up-IsCanonical (x ∷ xs) h = go (eq_text x dot_dot) refl h
    where
      go :
          (b : Bool)
          → eq_text x dot_dot ≡ b
          → IsCanonical (x ∷ xs)
          → IsCanonical (if b then dot_dot ∷ x ∷ xs else xs)
      go true e (inl (n, c)) =
          absurd (dot_dot-not-IsName (subst IsName ((eq_text_iff x dot_dot).0 e) n))
      go true e (inr (q, c)) = inr (refl, (q, c))
      go false e c = tail-IsCanonical x xs c

  add_name-IsCanonical :
      (xs : List Text) (part : Text)
      → All IsClean part
      → rstrip is_dot_or_blank part ≡ part
      → IsCanonical xs
      → IsCanonical (add_name table xs part)
  unfolding add_name
  add_name-IsCanonical xs [] clean e h = h
  add_name-IsCanonical xs (c ∷ s) clean e h = inl (
    (
      casefold-ne-nil table (c ∷ s) (λ q. cc),
      casefold-IsClean (c ∷ s) clean,
      rstrip-casefold (c ∷ s) e,
      casefold_idem table (c ∷ s),
    ),
    h,
  )

  add_part-IsCanonical :
      (xs : List Text) (raw : Text)
      → All IsClean raw
      → IsCanonical xs
      → IsCanonical (add_part table xs raw)
  unfolding add_part
  add_part-IsCanonical xs raw clean h =
      if_keeps IsCanonical (eq_text part [] || eq_text part dot) h (
        if_keeps IsCanonical (eq_text part dot_dot) (go_up-IsCanonical xs h) (
          add_name-IsCanonical xs (rstrip is_dot_or_blank part)
            (All-rstrip IsClean is_dot_or_blank part (All-rstrip IsClean is_blank raw clean))
            (rstrip_idem is_dot_or_blank part) h))
    where
      part : Text
      part = rstrip is_blank raw

  -- A name is appended as it is.
  add_part-name : (xs : List Text) (x : Text) → IsName x → add_part table xs x ≡ x ∷ xs
  unfolding add_part rstrip
  add_part-name xs x n = ground (
    arith,
    rstrip_weaker is_blank is_dot_or_blank x (λ c h. ground arith) n.2,
    eq_text-false x [] n.0,
    eq_text-false x dot (λ e. cc (subst IsName e n).2),
    eq_text-false x dot_dot (λ e. dot_dot-not-IsName (subst IsName e n)),
    n.2,
    n.3,
  )

  add_part-dot_dot :
      (xs : List Text) → All (λ y. y ≡ dot_dot) xs → add_part table xs dot_dot ≡ dot_dot ∷ xs
  unfolding add_part rstrip eq_text go_up
  add_part-dot_dot [] h = refl
  add_part-dot_dot (x ∷ xs) h = rw h.0

  add_part-IsCanonical_head :
      (x : Text) (xs : List Text) → IsCanonical (x ∷ xs) → add_part table xs x ≡ x ∷ xs
  add_part-IsCanonical_head x xs (inl (n, h)) = add_part-name xs x n
  add_part-IsCanonical_head x xs (inr (e, h)) = rw e (add_part-dot_dot xs h)

  -- Read back from the first part on, canonical parts are what the loop collects.
  foldl-reverse : (xs : List Text) → IsCanonical xs → foldl (add_part table) [] (reverse xs) ≡ xs
  foldl-reverse [] h = refl
  foldl-reverse (x ∷ xs) h =
      ap (foldl (add_part table) []) (reverse-cons x xs)
      ∙ foldl-append (add_part table) [] (reverse xs) (x ∷ [])
      ∙ ap (λ parts. add_part table parts x) (foldl-reverse xs (tail-IsCanonical x xs h))
      ∙ add_part-IsCanonical_head x xs h

  foldl-IsCanonical :
      (raws : List Text) (xs : List Text)
      → All (All IsClean) raws
      → IsCanonical xs
      → IsCanonical (foldl (add_part table) xs raws)
  foldl-IsCanonical [] xs clean h = h
  foldl-IsCanonical (raw ∷ raws) xs clean h =
      foldl-IsCanonical raws (add_part table xs raw) clean.1 (add_part-IsCanonical xs raw clean.0 h)

  IsClean-of_split :
      (ws : List Text) → All (Lacks b'/') ws → All (Lacks 92) ws → All (All IsClean) ws
  IsClean-of_split [] h k = tt
  IsClean-of_split (w ∷ ws) h k = (zip_clean w h.0 k.0, IsClean-of_split ws h.1 k.1)
    where
      zip_clean : (s : Text) → Lacks b'/' s → Lacks 92 s → All IsClean s
      zip_clean [] p q = tt
      zip_clean (c ∷ s) p q = ((p.0, q.0), zip_clean s p.1 q.1)

  canonical_parts-IsCanonical : (value : Text) → IsCanonical (canonical_parts table value)
  unfolding canonical_parts join
  canonical_parts-IsCanonical value =
      foldl-IsCanonical (split b'/' raw) []
        (IsClean-of_split (split b'/' raw) (split-Lacks b'/' raw)
          (All-split (λ c. (c == 92) ≡ false) b'/' raw (All-replace_char 92 b'/' value refl)))
        tt
    where
      raw : Text
      raw = replace_char 92 b'/' value

  IsCanonical-IsClean : (xs : List Text) → IsCanonical xs → All (All IsClean) xs
  IsCanonical-IsClean [] h = tt
  IsCanonical-IsClean (x ∷ xs) (inl (n, h)) = (n.1, IsCanonical-IsClean xs h)
  IsCanonical-IsClean (x ∷ xs) (inr (e, h)) =
      (rw e ((refl, refl), ((refl, refl), tt)), IsCanonical-IsClean xs (ups-IsCanonical xs h))

  -- Clean parts, joined, are read back as themselves.
  canonical_parts-join :
      (parts : List Text)
      → All (All IsClean) parts
      → canonical_parts table (join b'/' parts) ≡ foldl (add_part table) [] parts
  unfolding canonical_parts join
  canonical_parts-join [] clean = refl
  canonical_parts-join (w ∷ ws) clean =
      ap (λ s. foldl (add_part table) [] (split b'/' s))
        (replace_char_none 92 b'/' (join b'/' (w ∷ ws)) (
          All-join (λ c. (c == 92) ≡ false) b'/' (w ∷ ws) refl
            (All-map (All-map (λ c h. h.1)) (w ∷ ws) clean)))
      ∙ ap (foldl (add_part table) [])
          (split-join b'/' w ws (All-map (All-map (λ c h. h.0)) (w ∷ ws) clean))

  -- Canonicalising a canonical path changes nothing.
  pub canonical_path_idem :
      (value : Text)
      → canonical_path table (canonical_path table value) ≡ canonical_path table value
  unfolding canonical_path
  canonical_path_idem value =
      ap (λ parts. join b'/' (reverse parts))
        (canonical_parts-join (reverse found)
            (All-reverse IsCleanText found (IsCanonical-IsClean found valid))
          ∙ foldl-reverse found valid)
    where
      IsCleanText : Text → Type 0
      IsCleanText = All IsClean

      found : List Text
      found = canonical_parts table value

      valid : IsCanonical found
      valid = canonical_parts-IsCanonical value
