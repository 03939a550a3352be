-- ===== src/Daemon/Idempotency/Facts.antt =====
-- Which keys are pending, and what each section does to them.
use forge_boss.Base.{
  ◌≡◌, refl, sym, ap, subst, false, ◌||◌, List, [], ◌∷◌, ◌++◌, none, some, if◌then◌else◌, arith,
  Text, eq_text, eq_text_iff, elem, Option-cases, inl, inr,
}
use forge_boss.Base.Int.{ℤ}
use forge_boss.Daemon.Idempotency.{Entry, find_entry, add_entry}

-- No key stands twice.
abbrev pub IsDistinct : List Text → Type 0
IsDistinct [] = Unit
IsDistinct (k ∷ ks) = (elem k ks ≡ false) × IsDistinct ks

unfoldable pub remove : Text → List Text → List Text
remove key [] = []
remove key (k ∷ ks) = let rest = remove key ks in if eq_text k key then rest else k ∷ rest

pub elem-append : (k : Text) (ks ls : List Text) → elem k (ks ++ ls) ≡ (elem k ks || elem k ls)
unfolding elem
elem-append k [] ls = refl
elem-append k (l ∷ ks) ls = ground (arith, elem-append k ks ls)

IsDistinct-append :
    (ks : List Text) (k : Text) → elem k ks ≡ false → IsDistinct ks → IsDistinct (ks ++ (k ∷ []))
unfolding elem
IsDistinct-append [] k new h = (refl, tt)
IsDistinct-append (l ∷ ks) k new h =
    let other : eq_text l k ≡ false = ground (arith, eq_text_iff k l, eq_text_iff l k) in
    (ground (arith, elem-append l ks (k ∷ [])), IsDistinct-append ks k (ground arith) h.1)

pub elem-remove :
    (k key : Text) (ks : List Text) → elem k ks ≡ false → elem k (remove key ks) ≡ false
unfolding remove elem
elem-remove k key [] h = refl
elem-remove k key (l ∷ ks) h = ground (arith, elem-remove k key ks (ground arith))

pub remove-absent : (key : Text) (ks : List Text) → elem key ks ≡ false → remove key ks ≡ ks
unfolding remove elem
remove-absent key [] h = refl
remove-absent key (k ∷ ks) h =
    let other : eq_text k key ≡ false = ground (arith, eq_text_iff key k, eq_text_iff k key) in
    rw (other, remove-absent key ks (ground arith))

module _ {R : Type 0} where
  unfoldable pub keys : List (Entry R) → List Text
  keys [] = []
  keys (e ∷ es) = e.key ∷ keys es

  -- The keys of the entries without an outcome
  unfoldable pub pending : List (Entry R) → List Text
  pending [] = []
  pending (e ∷ es) =
      let rest = pending es in elim e.outcome [ none ↦ e.key ∷ rest | some result ↦ rest ]

  find_entry-none :
      (key : Text) (es : List (Entry R)) → find_entry key es ≡ none → elem key (keys es) ≡ false
  unfolding find_entry keys elem
  find_entry-none key [] h = refl
  find_entry-none key (e ∷ es) h =
      let other : eq_text e.key key ≡ false = ground arith in
      ground
        (arith, find_entry-none key es (ground arith), eq_text_iff key e.key, eq_text_iff e.key key)

  keys-add :
      (key digest : Text) (now : ℤ) (es : List (Entry R))
      → keys (add_entry key digest now es) ≡ keys es ++ (key ∷ [])
  unfolding keys
  keys-add key digest now [] = refl
  keys-add key digest now (e ∷ es) = ap (λ ks. e.key ∷ ks) (keys-add key digest now es)

  pub pending-add :
      (key digest : Text) (now : ℤ) (es : List (Entry R))
      → pending (add_entry key digest now es) ≡ pending es ++ (key ∷ [])
  unfolding pending
  pending-add key digest now [] = refl
  pending-add key digest now (e ∷ es) = elim (Option-cases e.outcome) [
    | inl unset ↦ rw (unset, pending-add key digest now es)
    | inr (result, closed) ↦ rw (closed, pending-add key digest now es)
  ]

  pub IsDistinct-add :
      (key digest : Text) (now : ℤ) (es : List (Entry R))
      → find_entry key es ≡ none
      → IsDistinct (keys es)
      → IsDistinct (keys (add_entry key digest now es))
  IsDistinct-add key digest now es new h =
      subst IsDistinct (sym (keys-add key digest now es))
        (IsDistinct-append (keys es) key (find_entry-none key es new) h)

  pub elem-pending :
      (k : Text) (es : List (Entry R)) → elem k (keys es) ≡ false → elem k (pending es) ≡ false
  unfolding pending keys elem
  elem-pending k [] h = refl
  elem-pending k (e ∷ es) h =
      let rest : elem k (pending es) ≡ false = elem-pending k es (ground arith) in ground arith

  pub IsDistinct-pending : (es : List (Entry R)) → IsDistinct (keys es) → IsDistinct (pending es)
  unfolding pending keys
  IsDistinct-pending [] h = tt
  IsDistinct-pending (e ∷ es) h = elim (Option-cases e.outcome) [
    | inl unset ↦ rw unset (elem-pending e.key es h.0, IsDistinct-pending es h.1)
    | inr (result, closed) ↦ rw closed (IsDistinct-pending es h.1)
  ]
