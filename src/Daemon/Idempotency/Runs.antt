-- ===== src/Daemon/Idempotency/Runs.antt =====
-- Interleavings of requests with keys: a request that owns its key runs outside the lock.
use forge_boss.Base.{
  ℕ, suc, ◌≡◌, refl, sym, ap, ◌∙◌, subst, true, false, eq_text, List, [], ◌∷◌, ◌++◌, none, some,
  arith, Text, elem, Result, ok, err, Option-cases, inl, inr,
}
use forge_boss.Base.Int.{ℤ}
use forge_boss.Daemon.Idempotency.{
  Entry, own, direct, find_entry, add_entry, begin_request, set_outcome, evict, end_request,
}
use forge_boss.Daemon.Idempotency.Facts.{
  IsDistinct, remove, keys, pending, pending-add, elem-append, elem-remove, IsDistinct-add,
  IsDistinct-pending,
}
use forge_boss.Daemon.Idempotency.Evictions.{set_outcome-some, set_outcome-settles, evict-settled}

module _ (E V : Type 0) where
  -- The dictionary, the keys of the requests that run with one, and how many run without
  pub record Running : Type 0 where
    pub entries : List (Entry (Result E V))
    pub active : List Text
    pub unkeyed : ℕ

  pub data Step : Running → Running → Type 0 where
    starts :
        (s : Running) (key digest : Text) (now : ℤ)
        → begin_request key digest s.entries ≡ own
        → Step s (record {
          entries = add_entry key digest now s.entries;
          active = s.active ++ (key ∷ []);
          unkeyed = s.unkeyed;
        })
    starts_directly :
        (s : Running) (key digest : Text)
        → begin_request key digest s.entries ≡ direct
        → Step s (record { entries = s.entries; active = s.active; unkeyed = suc s.unkeyed })
    ends_directly :
        (s : Running) (rest : ℕ)
        → s.unkeyed ≡ suc rest
        → Step s (record { entries = s.entries; active = s.active; unkeyed = rest })
    ends :
        (s : Running) (key : Text) (result : Result E V) (now : ℤ) (out : List (Entry (Result E V)))
        → elem key s.active ≡ true
        → end_request key result now s.entries ≡ some out
        → Step s (record { entries = out; active = remove key s.active; unkeyed = s.unkeyed })

  pub data Reach : Running → Type 0 where
    idle : Reach (record { entries = []; active = []; unkeyed = 0 })
    then : {s t : Running} → Reach s → Step s t → Reach t

  -- The pending entries are those of the requests that run.
  pub record IsConsistent (s : Running) : Type 0 where
    pub active : s.active ≡ pending s.entries
    pub named : elem [] s.active ≡ false
    pub distinct : IsDistinct (keys s.entries)

  begin_request-own :
      (key digest : Text) (entries : List (Entry (Result E V)))
      → begin_request key digest entries ≡ own
      → (find_entry key entries ≡ none) × (eq_text [] key ≡ false)
  unfolding begin_request
  begin_request-own [] digest entries h = cc
  begin_request-own (x ∷ key) digest entries h =
      elim (Option-cases (find_entry (x ∷ key) entries)) [
        | inl absent ↦ (absent, unfold eq_text in refl)
        | inr (old, found) ↦ absurd (ground (arith, found))
      ]

  end_request-settles :
      (key : Text) (result : Result E V) (now : ℤ) (entries out : List (Entry (Result E V)))
      → end_request key result now entries ≡ some out
      → IsDistinct (keys entries)
      → (pending out ≡ remove key (pending entries)) × IsDistinct (keys out)
  unfolding end_request
  end_request-settles key (err e) now entries out h distinct =
      set_outcome-settles key (err e) now entries out h distinct
  end_request-settles key (ok v) now entries out h distinct =
      elim (Option-cases (set_outcome key (ok v) now entries)) [
        | inl failed ↦ absurd (ground (arith, failed))
        | inr (recorded, sets) ↦
            let evicted : evict recorded ≡ out = ground (arith, sets) in
            let (settles, apart) =
              set_outcome-settles key (ok v) now entries recorded sets distinct in
            let (same, kept) = evict-settled recorded apart in
            subst (λ x. (pending x ≡ remove key (pending entries)) × IsDistinct (keys x)) evicted
              (same ∙ settles, kept)
      ]

  Step-IsConsistent : {s t : Running} → Step s t → IsConsistent s → IsConsistent t
  Step-IsConsistent (starts s key digest now begins) h =
      let (absent, some_key) = begin_request-own key digest s.entries begins in
      let alone : elem [] (key ∷ []) ≡ false = unfold elem in ground (arith, some_key) in
      record {
        active = ap (λ ks. ks ++ (key ∷ [])) h.active ∙ sym (pending-add key digest now s.entries);
        named = ground (arith, elem-append [] s.active (key ∷ []), alone, h.named);
        distinct = IsDistinct-add key digest now s.entries absent h.distinct;
      }
  Step-IsConsistent (ends s key result now out active finishes) h =
      let (settles, distinct) =
        end_request-settles key result now s.entries out finishes h.distinct in
      record {
        active = ap (remove key) h.active ∙ sym settles;
        named = elem-remove [] key s.active h.named;
        distinct = distinct;
      }
  Step-IsConsistent (starts_directly s key digest begins) h = record {
    active = h.active;
    named = h.named;
    distinct = h.distinct;
  }
  Step-IsConsistent (ends_directly s rest some_run) h = record {
    active = h.active;
    named = h.named;
    distinct = h.distinct;
  }

  Reach-IsConsistent : {s : Running} → Reach s → IsConsistent s
  Reach-IsConsistent idle = record {
    active = unfold pending in refl;
    named = unfold elem in refl;
    distinct = unfold keys in tt;
  }
  Reach-IsConsistent (then before step) = Step-IsConsistent step (Reach-IsConsistent before)

  end_request-some :
      (key : Text) (result : Result E V) (now : ℤ) (entries : List (Entry (Result E V)))
      → elem key (pending entries) ≡ true
      → (out : List (Entry (Result E V))) × (end_request key result now entries ≡ some out)
  unfolding end_request
  end_request-some key (err e) now entries active = set_outcome-some key (err e) now entries active
  end_request-some key (ok v) now entries active =
      let (recorded, sets) = set_outcome-some key (ok v) now entries active in
      (evict recorded, ground (arith, sets))

  -- In every interleaving of requests, of which those with no key or the empty one run directly, no
  -- two that run have the same key that is not empty, and the outcome of each that runs with such a
  -- key can be recorded, whatever it is and whenever it comes.
  pub Reach-exclusive :
      {s : Running}
      → Reach s
      → IsDistinct s.active
        × (elem [] s.active ≡ false)
        × ((key : Text) (result : Result E V) (now : ℤ)
            → elem key s.active ≡ true
            → (out : List (Entry (Result E V))) × (end_request key result now s.entries ≡ some out))
  Reach-exclusive {s} reached =
      let held = Reach-IsConsistent reached in
      (
        subst IsDistinct (sym held.active) (IsDistinct-pending s.entries held.distinct),
        held.named,
        λ key result now active.
            end_request-some key result now s.entries
              (subst (λ ks. elem key ks ≡ true) held.active active),
      )
