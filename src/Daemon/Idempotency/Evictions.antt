-- ===== src/Daemon/Idempotency/Evictions.antt =====
-- Recording an outcome settles its key alone, and evictions leave pending keys.
use forge_boss.Base.{
  ℕ, zero, suc, ◌≡◌, refl, sym, ap, ◌∙◌, subst, true, false, ◌||◌, List, [], ◌∷◌, some, ltb, length,
  arith, Text, eq_text, eq_text_iff, elem, Bool-cases, Option-cases, inl, inr, All,
}
use forge_boss.Base.Int.{ℤ, leb_ℤ}
use forge_boss.Daemon.Idempotency.{
  Entry, set_outcome, done_entries, insert_by_age, sort_by_age, oldest, pop_entry, pop_entries,
  evict,
}
use forge_boss.Daemon.Idempotency.Facts.{
  IsDistinct, remove, keys, pending, remove-absent, elem-pending,
}

module _ {R : Type 0} where
  keys-set_outcome :
      (key : Text) (result : R) (now : ℤ) (es out : List (Entry R))
      → set_outcome key result now es ≡ some out
      → keys out ≡ keys es
  unfolding set_outcome keys
  keys-set_outcome key result now [] out h = cc
  keys-set_outcome key result now (e ∷ es) out h = elim (Bool-cases (eq_text e.key key)) [
    | inl same ↦
        let made : record { key = e.key; digest = e.digest; outcome = some result; at = now } ∷ es
            ≡ out =
          ground (arith, same) in
        subst (λ x. keys x ≡ e.key ∷ keys es) made refl
    | inr other ↦ elim (Option-cases (set_outcome key result now es)) [
      | inl failed ↦ absurd (ground (arith, other, failed))
      | inr (rest, sets) ↦
          let made : e ∷ rest ≡ out = ground (arith, other, sets) in
          subst (λ x. keys x ≡ e.key ∷ keys es) made
            (ap (λ ks. e.key ∷ ks) (keys-set_outcome key result now es rest sets))
    ]
  ]

  pending-set_outcome :
      (key : Text) (result : R) (now : ℤ) (es out : List (Entry R))
      → set_outcome key result now es ≡ some out
      → IsDistinct (keys es)
      → pending out ≡ remove key (pending es)
  unfolding set_outcome pending keys remove
  pending-set_outcome key result now [] out h distinct = cc
  pending-set_outcome key result now (e ∷ es) out h distinct =
      elim (Bool-cases (eq_text e.key key)) [
        | inl same ↦
            let made : record { key = e.key; digest = e.digest; outcome = some result; at = now }
                  ∷ es
                ≡ out =
              ground (arith, same) in
            let names : e.key ≡ key = (eq_text_iff e.key key).0 same in
            let absent : elem key (pending es) ≡ false =
              elem-pending key es (subst (λ k. elem k (keys es) ≡ false) names distinct.0) in
            subst (λ x. pending x ≡ remove key (pending (e ∷ es))) made
              (elim (Option-cases e.outcome) [
                | inl unset ↦ rw (unset, same, remove-absent key (pending es) absent)
                | inr (r, closed) ↦ rw (closed, remove-absent key (pending es) absent)
              ])
        | inr other ↦ elim (Option-cases (set_outcome key result now es)) [
          | inl failed ↦ absurd (ground (arith, other, failed))
          | inr (rest, sets) ↦
              let made : e ∷ rest ≡ out = ground (arith, other, sets) in
              let tails = pending-set_outcome key result now es rest sets distinct.1 in
              subst (λ x. pending x ≡ remove key (pending (e ∷ es))) made
                (elim (Option-cases e.outcome) [
                  | inl unset ↦ rw (unset, other, tails)
                  | inr (r, closed) ↦ rw (closed, tails)
                ])
        ]
      ]

  pub set_outcome-some :
      (key : Text) (result : R) (now : ℤ) (es : List (Entry R))
      → elem key (pending es) ≡ true
      → (out : List (Entry R)) × (set_outcome key result now es ≡ some out)
  unfolding set_outcome pending elem
  set_outcome-some key result now [] h = cc
  set_outcome-some key result now (e ∷ es) h = elim (Bool-cases (eq_text e.key key)) [
    | inl same ↦
        (record { key = e.key; digest = e.digest; outcome = some result; at = now } ∷ es, rw same)
    | inr other ↦
        let differs : eq_text key e.key ≡ false =
          ground (arith, eq_text_iff key e.key, eq_text_iff e.key key) in
        let (rest, sets) = set_outcome-some key result now es (ground arith) in
        (e ∷ rest, rw (other, sets))
  ]

  pending-pop_entry :
      (key : Text) (es : List (Entry R))
      → elem key (pending es) ≡ false
      → pending (pop_entry key es) ≡ pending es
  unfolding pop_entry pending elem
  pending-pop_entry key [] h = refl
  pending-pop_entry key (e ∷ es) h = elim (Option-cases e.outcome) [
    | inl unset ↦
        let absent : (eq_text key e.key || elem key (pending es)) ≡ false = ground (arith, unset) in
        let other : eq_text e.key key ≡ false =
          ground (arith, absent, eq_text_iff key e.key, eq_text_iff e.key key) in
        rw (other, unset, pending-pop_entry key es (ground arith))
    | inr (r, closed) ↦
        let absent : elem key (pending es) ≡ false = ground (arith, closed) in
        elim (Bool-cases (eq_text e.key key)) [
          | inl same ↦ rw (same, closed, pending-pop_entry key es absent)
          | inr other ↦ rw (other, closed, pending-pop_entry key es absent)
        ]
  ]

  elem-pop_entry :
      (k key : Text) (es : List (Entry R))
      → elem k (keys es) ≡ false
      → elem k (keys (pop_entry key es)) ≡ false
  unfolding pop_entry keys elem
  elem-pop_entry k key [] h = refl
  elem-pop_entry k key (e ∷ es) h = ground (arith, elem-pop_entry k key es (ground arith))

  IsDistinct-pop_entry :
      (key : Text) (es : List (Entry R))
      → IsDistinct (keys es)
      → IsDistinct (keys (pop_entry key es))
  unfolding pop_entry keys
  IsDistinct-pop_entry key [] h = tt
  IsDistinct-pop_entry key (e ∷ es) h = elim (Bool-cases (eq_text e.key key)) [
    | inl same ↦ rw same (IsDistinct-pop_entry key es h.1)
    | inr other ↦ rw other (elem-pop_entry e.key key es h.0, IsDistinct-pop_entry key es h.1)
  ]

  -- The entries' keys are not pending.
  abbrev IsSettled : List (Entry R) → List (Entry R) → Type 0
  IsSettled es olds = All (λ (e : Entry R). elem e.key (pending es) ≡ false) olds

  IsSettled-path :
      (es fs olds : List (Entry R))
      → pending es ≡ pending fs
      → IsSettled fs olds
      → IsSettled es olds
  IsSettled-path es fs [] same h = tt
  IsSettled-path es fs (old ∷ olds) same h = (rw same h.0, IsSettled-path es fs olds same h.1)

  pop_entries-settled :
      (olds es : List (Entry R))
      → IsSettled es olds
      → IsDistinct (keys es)
      → (pending (pop_entries olds es) ≡ pending es) × IsDistinct (keys (pop_entries olds es))
  unfolding pop_entries
  pop_entries-settled [] es h distinct = (refl, distinct)
  pop_entries-settled (old ∷ olds) es h distinct =
      let same = pending-pop_entry old.key es h.0 in
      let (rest, kept) =
        pop_entries-settled olds (pop_entry old.key es)
          (IsSettled-path (pop_entry old.key es) es olds same h.1)
          (IsDistinct-pop_entry old.key es distinct) in
      (rest ∙ same, kept)

  IsSettled-cons :
      (e : Entry R) (es olds : List (Entry R))
      → IsSettled es olds
      → All (λ (f : Entry R). eq_text f.key e.key ≡ false) olds
      → IsSettled (e ∷ es) olds
  unfolding pending elem
  IsSettled-cons e es [] h apart = tt
  IsSettled-cons e es (old ∷ olds) h apart =
      (ground (arith, h.0, apart.0), IsSettled-cons e es olds h.1 apart.1)

  done-apart :
      (k : Text) (es : List (Entry R))
      → elem k (keys es) ≡ false
      → All (λ (f : Entry R). eq_text f.key k ≡ false) (done_entries es)
  unfolding done_entries keys elem
  done-apart k [] h = tt
  done-apart k (e ∷ es) h = elim (Option-cases e.outcome) [
    | inl unset ↦ rw unset (done-apart k es (ground arith))
    | inr (r, closed) ↦
        rw closed
          (ground (arith, eq_text_iff k e.key, eq_text_iff e.key k), done-apart k es (ground arith))
  ]

  done_entries-IsSettled :
      (es : List (Entry R)) → IsDistinct (keys es) → IsSettled es (done_entries es)
  unfolding done_entries keys
  done_entries-IsSettled [] h = tt
  done_entries-IsSettled (e ∷ es) h =
      let rest =
        IsSettled-cons e es (done_entries es) (done_entries-IsSettled es h.1)
          (done-apart e.key es h.0) in
      elim (Option-cases e.outcome) [
        | inl unset ↦
            let skips : done_entries es ≡ done_entries (e ∷ es) = rw unset in
            subst (IsSettled (e ∷ es)) skips rest
        | inr (r, closed) ↦
            let keeps : e ∷ done_entries es ≡ done_entries (e ∷ es) =
              unfold done_entries in ground (arith, closed) in
            subst (IsSettled (e ∷ es)) keeps
              (unfold pending in ground (arith, closed, elem-pending e.key es h.0), rest)
      ]

  IsSettled-insert :
      (es : List (Entry R)) (e : Entry R) (olds : List (Entry R))
      → elem e.key (pending es) ≡ false
      → IsSettled es olds
      → IsSettled es (insert_by_age e olds)
  unfolding insert_by_age
  IsSettled-insert es e [] first h = (first, tt)
  IsSettled-insert es e (f ∷ fs) first h = elim (Bool-cases (leb_ℤ e.at f.at)) [
    | inl older ↦ rw older (first, h)
    | inr newer ↦ rw newer (h.0, IsSettled-insert es e fs first h.1)
  ]

  IsSettled-sort : (es olds : List (Entry R)) → IsSettled es olds → IsSettled es (sort_by_age olds)
  unfolding sort_by_age
  IsSettled-sort es [] h = tt
  IsSettled-sort es (old ∷ olds) h =
      IsSettled-insert es old (sort_by_age olds) h.0 (IsSettled-sort es olds h.1)

  IsSettled-oldest :
      (n : ℕ) (es olds : List (Entry R)) → IsSettled es olds → IsSettled es (oldest n olds)
  unfolding oldest
  IsSettled-oldest zero es olds h = tt
  IsSettled-oldest (suc n) es [] h = tt
  IsSettled-oldest (suc n) es (old ∷ olds) h = (h.0, IsSettled-oldest n es olds h.1)

  pub evict-settled :
      (es : List (Entry R))
      → IsDistinct (keys es)
      → (pending (evict es) ≡ pending es) × IsDistinct (keys (evict es))
  unfolding evict
  evict-settled es distinct = elim (Bool-cases (ltb 2000 (length es))) [
    | inl many ↦ rw many (
        pop_entries-settled (oldest 500 (sort_by_age (done_entries es))) es
          (IsSettled-oldest 500 es _ (IsSettled-sort es _ (done_entries-IsSettled es distinct)))
          distinct)
    | inr few ↦ rw few (refl, distinct)
  ]

  pub set_outcome-settles :
      (key : Text) (result : R) (now : ℤ) (es out : List (Entry R))
      → set_outcome key result now es ≡ some out
      → IsDistinct (keys es)
      → (pending out ≡ remove key (pending es)) × IsDistinct (keys out)
  set_outcome-settles key result now es out sets distinct = (
    pending-set_outcome key result now es out sets distinct,
    subst IsDistinct (sym (keys-set_outcome key result now es out sets)) distinct,
  )
