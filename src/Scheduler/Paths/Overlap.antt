-- ===== src/Scheduler/Paths/Overlap.antt =====
-- The paths that two work items may both write.
use forge_boss.Base.{
  ℕ, ◌≡◌, refl, sym, ◌∙◌, Bool, true, false, false≢true, inl, inr, Bool-cases, ◌||◌, ◌&&◌, List, [],
  ◌∷◌, ◌++◌, arith, map, any, elem, Text, eq_text, eq_text_iff, eq_text_refl, starts_with,
}
use forge_boss.Base.Members.{any-elem, elem-any, any-eq_text}
use forge_boss.Casefold.{CaseTable}
use forge_boss.Scheduler.Paths.{WorkItem, canonical_path, contains, conflicts}

module _ (table : CaseTable) where
  -- What an item may write: its files, and all that lies under its roots.
  abbrev pub writes : WorkItem → Text → Bool
  writes item path =
      elem path (map (canonical_path table) item.files)
      || any (λ root. contains root path) (map (canonical_path table) item.write_roots)

starts_with-common :
    (p x y : Text)
    → starts_with p x ≡ true
    → starts_with p y ≡ true
    → (starts_with x y || starts_with y x) ≡ true
unfolding starts_with
starts_with-common p [] [] h k = refl
starts_with-common p [] (d ∷ y) h k = refl
starts_with-common p (c ∷ x) [] h k = refl
starts_with-common [] (c ∷ x) (d ∷ y) h k = cc
starts_with-common (e ∷ p) (c ∷ x) (d ∷ y) h k = ground (arith, starts_with-common p x y)

starts_with-append_mark :
    (c : ℕ) (x y : Text)
    → starts_with (x ++ (c ∷ [])) (y ++ (c ∷ [])) ≡ true
    → (eq_text x y || starts_with x (y ++ (c ∷ []))) ≡ true
unfolding starts_with eq_text
starts_with-append_mark c [] [] h = refl
starts_with-append_mark c [] (d ∷ []) h = ground arith
starts_with-append_mark c [] (d ∷ e ∷ y) h = ground arith
starts_with-append_mark c (e ∷ x) [] h = ground arith
starts_with-append_mark c (e ∷ x) (d ∷ y) h = ground (arith, starts_with-append_mark c x y)

-- Two roots over one path lie one under the other.
contains-common :
    (p x y : Text)
    → contains x p ≡ true
    → contains y p ≡ true
    → (contains x y || contains y x) ≡ true
unfolding contains
contains-common p x y h k = ground (
  arith,
  eq_text_iff p x,
  eq_text_iff p y,
  eq_text_iff x y,
  eq_text_iff y x,
  starts_with-common p (x ++ (b'/' ∷ [])) (y ++ (b'/' ∷ [])),
  starts_with-append_mark b'/' x y,
  starts_with-append_mark b'/' y x,
)

contains_refl : (x : Text) → contains x x ≡ true
unfolding contains
contains_refl x = ground (arith, eq_text_refl x)

-- Some root of either list lies under a root of the other.
abbrev roots_meet : List Text → List Text → Bool
roots_meet xs ys = any (λ x. any (λ y. contains x y || contains y x) ys) xs

roots_meet_of_common :
    (path : Text) (xs ys : List Text)
    → any (λ root. contains root path) xs ≡ true
    → any (λ root. contains root path) ys ≡ true
    → roots_meet xs ys ≡ true
roots_meet_of_common path xs ys h k =
    let (x, mx, cx) = any-elem (λ root. contains root path) xs h in
    let (y, my, cy) = any-elem (λ root. contains root path) ys k in
    elem-any (λ x. any (λ y. contains x y || contains y x) ys) x xs mx
      (elem-any (λ y. contains x y || contains y x) y ys my (contains-common path x y cx cy))

common_of_roots_meet :
    (xs ys : List Text)
    → roots_meet xs ys ≡ true
    → (path : Text) × (any (λ root. contains root path) xs ≡ true)
      × (any (λ root. contains root path) ys ≡ true)
common_of_roots_meet xs ys h =
    let (x, mx, cx) = any-elem (λ x. any (λ y. contains x y || contains y x) ys) xs h in
    let (y, my, cy) = any-elem (λ y. contains x y || contains y x) ys cx in
    go x y mx my (contains x y) refl cy
  where
    go :
        (x y : Text)
        → elem x xs ≡ true
        → elem y ys ≡ true
        → (b : Bool) → contains x y ≡ b
        → (b || contains y x) ≡ true
        → (path : Text) × (any (λ root. contains root path) xs ≡ true)
          × (any (λ root. contains root path) ys ≡ true)
    go x y mx my true e c = (
      y,
      elem-any (λ root. contains root y) x xs mx e,
      elem-any (λ root. contains root y) y ys my (contains_refl y),
    )
    go x y mx my false e c = (
      x,
      elem-any (λ root. contains root x) x xs mx (contains_refl x),
      elem-any (λ root. contains root x) y ys my c,
    )

module _ (table : CaseTable) where
  -- Items that do not conflict have no path that both may write.
  pub conflicts_sound :
      (a b : WorkItem)
      → conflicts table a b ≡ false
      → (path : Text) → (writes table a path && writes table b path) ≡ false
  unfolding conflicts
  conflicts_sound a b h path =
      let fa : List Text = map (canonical_path table) a.files in
      let fb : List Text = map (canonical_path table) b.files in
      let ra : List Text = map (canonical_path table) a.write_roots in
      let rb : List Text = map (canonical_path table) b.write_roots in
      ground (
        arith,
        any-eq_text path fb,
        elem-any (λ x. any (λ y. eq_text x y) fb) path fa,
        elem-any (λ p. any (λ root. contains root p) rb) path fa,
        elem-any (λ p. any (λ root. contains root p) ra) path fb,
        roots_meet_of_common path ra rb,
      )

  -- Items that conflict have a path that both may write.
  pub conflicts_complete :
      (a b : WorkItem)
      → conflicts table a b ≡ true
      → (path : Text) × (writes table a path ≡ true) × (writes table b path ≡ true)
  unfolding conflicts
  conflicts_complete a b h = files (any (λ x. any (λ y. eq_text x y) fb) fa) refl h
    where
      fa : List Text
      fa = map (canonical_path table) a.files

      fb : List Text
      fb = map (canonical_path table) b.files

      ra : List Text
      ra = map (canonical_path table) a.write_roots

      rb : List Text
      rb = map (canonical_path table) b.write_roots

      Shared : Type 0
      Shared = (path : Text) × (writes table a path ≡ true) × (writes table b path ≡ true)

      roots : roots_meet ra rb ≡ true → Shared
      roots e = let (p, ca, cb) = common_of_roots_meet ra rb e in (p, ground arith, ground arith)

      under_a :
          (t : Bool)
          → any (λ p. any (λ root. contains root p) ra) fb ≡ t
          → (t || roots_meet ra rb) ≡ true
          → Shared
      under_a true e h =
          let (p, m, c) = any-elem (λ p. any (λ root. contains root p) ra) fb e in
          (p, ground arith, ground arith)
      under_a false e h = roots h

      under_b :
          (t : Bool)
          → any (λ p. any (λ root. contains root p) rb) fa ≡ t
          → (t || any (λ p. any (λ root. contains root p) ra) fb || roots_meet ra rb) ≡ true
          → Shared
      under_b true e h =
          let (p, m, c) = any-elem (λ p. any (λ root. contains root p) rb) fa e in
          (p, ground arith, ground arith)
      under_b false e h = under_a _ refl h

      files :
          (t : Bool)
          → any (λ x. any (λ y. eq_text x y) fb) fa ≡ t
          → (t
              || any (λ p. any (λ root. contains root p) rb) fa
              || any (λ p. any (λ root. contains root p) ra) fb
              || roots_meet ra rb)
            ≡ true
          → Shared
      files true e h =
          let (p, m, c) = any-elem (λ x. any (λ y. eq_text x y) fb) fa e in
          (p, ground arith, ground (arith, any-eq_text p fb))
      files false e h = under_b _ refl h

  conflicts_flip : (a b : WorkItem) → conflicts table a b ≡ true → conflicts table b a ≡ true
  conflicts_flip a b h = elim (Bool-cases (conflicts table b a)) [
    | inl e ↦ e
    | inr e ↦
        let (p, wa, wb) = conflicts_complete a b h in
        absurd (false≢true (sym (conflicts_sound b a e p) ∙ rw (wa, wb)))
  ]

  -- Which of two items is asked first does not matter.
  pub conflicts_comm : (a b : WorkItem) → conflicts table a b ≡ conflicts table b a
  conflicts_comm a b = ground (arith, conflicts_flip a b, conflicts_flip b a)
