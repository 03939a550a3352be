-- ===== src/Guard/Normal.antt =====
-- The paths that `norm` of forgeboss/security/executor_guard.py gives.
use forge_boss.Base.{
  ◌==◌, ◌≡◌, refl, sym, ap, ◌∙◌, subst, false, ◌||◌, ◌&&◌, [], ◌∷◌, arith, Text, codes, elem, All,
  is_empty, strip, lstrip, is_space, replace_char, starts_with, ok, raise_if, >>=-eq-ok, Bool-cases,
  inl, inr,
}
use forge_boss.Base.Strips.{All-rstrip, All-replace_char, replace_char_none}
use forge_boss.Casefold.{CaseTable}
use forge_boss.Value.{Value, str}
use forge_boss.Guard.{Posix, absolute_path, empty_path, traversal, has_drive, drop_dots, norm}

abbrev pub IsUnslashed : Text → Type 0
IsUnslashed s = All (λ c. (c == 92) ≡ false) s

-- What is relied on of `PurePosixPath`: it makes no backslashes, and reading again what it gave, less
-- steps through the directory itself, changes nothing.
pub record IsPosix (posix : Posix) : Type 0 where
  pub unslashed : (x : Text) → IsUnslashed x → IsUnslashed (posix.as_posix x)
  pub stable :
      (x : Text) → posix.as_posix (drop_dots (posix.as_posix x)) ≡ drop_dots (posix.as_posix x)

drop_dots_idem : (s : Text) → drop_dots (drop_dots s) ≡ drop_dots s
unfolding drop_dots
drop_dots_idem [] = refl
drop_dots_idem (c ∷ []) = refl
drop_dots_idem (c ∷ d ∷ s) = elim (Bool-cases (c == b'.' && d == b'/')) [
  | inl here ↦ rw (here, drop_dots_idem s)
  | inr other ↦ rw (other, other)
]

IsUnslashed-drop_dots : (s : Text) → IsUnslashed s → IsUnslashed (drop_dots s)
unfolding drop_dots
IsUnslashed-drop_dots [] h = tt
IsUnslashed-drop_dots (c ∷ []) h = h
IsUnslashed-drop_dots (c ∷ d ∷ s) h = elim (Bool-cases (c == b'.' && d == b'/')) [
  | inl here ↦ rw here (IsUnslashed-drop_dots s h.1.1)
  | inr other ↦ rw other h
]

IsUnslashed-lstrip : (s : Text) → IsUnslashed s → IsUnslashed (lstrip is_space s)
unfolding lstrip
IsUnslashed-lstrip [] h = tt
IsUnslashed-lstrip (c ∷ s) h = elim (Bool-cases (is_space c)) [
  | inl blank ↦ rw blank (IsUnslashed-lstrip s h.1)
  | inr other ↦ rw other h
]

IsUnslashed-strip : (s : Text) → IsUnslashed s → IsUnslashed (strip s)
unfolding strip
IsUnslashed-strip s h = All-rstrip (λ c. (c == 92) ≡ false) is_space _ (IsUnslashed-lstrip s h)

module _ (table : CaseTable) (posix : Posix) (laws : IsPosix posix) where
  pub record IsNormal (p : Text) : Type 0 where
    pub unslashed : IsUnslashed p
    pub read : posix.as_posix p ≡ p
    pub dotless : drop_dots p ≡ p

  pub norm-result :
      (p y : Text)
      → norm table posix (str p) ≡ ok y
      → drop_dots (posix.as_posix (strip (replace_char 92 b'/' p))) ≡ y
  unfolding norm
  norm-result p y h =
      let x : Text = strip (replace_char 92 b'/' p) in
      let (_, _, a) = >>=-eq-ok (raise_if (is_empty (strip p)) empty_path) _ h in
      let (_, _, b) =
        >>=-eq-ok
          (raise_if (has_drive x || starts_with x (codes "/") || starts_with x (codes "~"))
            absolute_path)
          _ a in
      let (_, _, c) = >>=-eq-ok (raise_if (elem (codes "..") (posix.parts x)) traversal) _ b in
      ground arith

  pub norm-IsNormal : (v : Value) (y : Text) → norm table posix v ≡ ok y → IsNormal y
  unfolding norm
  norm-IsNormal (str p) y h =
      let x : Text = strip (replace_char 92 b'/' p) in
      let made : drop_dots (posix.as_posix x) ≡ y = norm-result p y h in
      let plain : IsUnslashed x =
        IsUnslashed-strip (replace_char 92 b'/' p) (All-replace_char 92 b'/' p refl) in
      subst IsNormal made (record {
        unslashed = IsUnslashed-drop_dots (posix.as_posix x) (laws.unslashed x plain);
        read = laws.stable x;
        dotless = drop_dots_idem (posix.as_posix x);
      })
  norm-IsNormal _ y h = cc

  -- A normal path with no white space around it is left as it is.
  pub norm-again : (p y : Text) → IsNormal p → strip p ≡ p → norm table posix (str p) ≡ ok y → y ≡ p
  norm-again p y normal bare h =
      let made = norm-result p y h in
      let same : strip (replace_char 92 b'/' p) ≡ p =
        ap strip (replace_char_none 92 b'/' p normal.unslashed) ∙ bare in
      sym made
      ∙ ap (λ x. drop_dots (posix.as_posix x)) same
      ∙ ap drop_dots normal.read
      ∙ normal.dotless
