-- ===== src/Daemon/Idempotency/Replays.antt =====
-- What later requests with a key get, once its request has ended.
use forge_boss.Base.{
  suc, ◌≡◌, ◌≢◌, ◌≤◌, refl, sym, ap, ◌∙◌, subst, true, false, List, [], ◌∷◌, none, some, arith,
  Text, eq_text, eq_text_iff, eq_text-false, Result, ok, err, Option-cases, Bool-cases, inl, inr,
  length, ltb,
}
use forge_boss.Base.Int.{ℤ}
use forge_boss.Daemon.Idempotency.{
  Entry, own, wait, replay, conflict, decide, add_entry, find_entry, begin_request, wait_result,
  set_outcome, evict, end_request,
}

module _ {R : Type 0} where
  abbrev settled : Entry R → R → ℤ → Entry R
  settled e result now = record { key = e.key; digest = e.digest; outcome = some result; at = now }

  find-set_outcome :
      (key : Text) (result : R) (now : ℤ) (entries out : List (Entry R)) (e : Entry R)
      → find_entry key entries ≡ some e
      → set_outcome key result now entries ≡ some out
      → (find_entry key out ≡ some (settled e result now)) × (length out ≡ length entries)
  unfolding find_entry set_outcome
  find-set_outcome key result now [] out e found h = cc
  find-set_outcome key result now (f ∷ fs) out e found h = elim (Bool-cases (eq_text f.key key)) [
    | inl same ↦
        let first : f ≡ e = ground (arith, same) in
        let made : settled f result now ∷ fs ≡ out = ground (arith, same) in
        subst (λ x. (find_entry key x ≡ some (settled e result now)) × (length x ≡ length (f ∷ fs)))
          made (rw same (ap (λ x. some (settled x result now)) first), refl)
    | inr other ↦ elim (Option-cases (set_outcome key result now fs)) [
      | inl failed ↦ absurd (ground (arith, other, failed))
      | inr (rest, sets) ↦
          let made : f ∷ rest ≡ out = ground (arith, other, sets) in
          let (later, counts) =
            find-set_outcome key result now fs rest e (ground (arith, other)) sets in
          subst
            (λ x. (find_entry key x ≡ some (settled e result now)) × (length x ≡ length (f ∷ fs)))
            made (rw (other, later), ap suc counts)
    ]
  ]

  begin_request-wait :
      (key digest : Text) (entries : List (Entry R))
      → begin_request key digest entries ≡ wait
      → (e : Entry R) × (find_entry key entries ≡ some e) × (e.digest ≡ digest)
  unfolding begin_request
  begin_request-wait [] digest entries h = cc
  begin_request-wait (x ∷ key) digest entries h =
      elim (Option-cases (find_entry (x ∷ key) entries)) [
        | inl absent ↦ absurd (ground (arith, absent))
        | inr (e, found) ↦ (e, found, ground (arith, found, eq_text_iff e.digest digest))
      ]

  begin_request-pending :
      (key digest : Text) (entries : List (Entry R)) (e : Entry R)
      → begin_request key digest entries ≡ wait
      → find_entry key entries ≡ some e
      → e.outcome ≡ none
  unfolding begin_request
  begin_request-pending [] digest entries e h found = cc
  begin_request-pending (x ∷ key) digest entries e h found = elim (Option-cases e.outcome) [
    | inl unset ↦ unset
    | inr (r, closed) ↦ absurd (ground (arith, found, closed))
  ]

  begin_request-decide :
      (key digest other : Text) (entries later : List (Entry R))
      → begin_request key digest entries ≡ wait
      → begin_request key other later ≡ decide other (find_entry key later)
  unfolding begin_request
  begin_request-decide [] digest other entries later h = cc
  begin_request-decide (x ∷ key) digest other entries later h = refl

  find-add_entry :
      (key k digest : Text) (now : ℤ) (entries : List (Entry R)) (e : Entry R)
      → find_entry key entries ≡ some e
      → find_entry key (add_entry k digest now entries) ≡ some e
  unfolding find_entry
  find-add_entry key k digest now [] e found = cc
  find-add_entry key k digest now (f ∷ fs) e found = elim (Bool-cases (eq_text f.key key)) [
    | inl same ↦ ground (arith, same)
    | inr other ↦ rw (other, find-add_entry key k digest now fs e (ground (arith, other)))
  ]

  find-set_elsewhere :
      (key k : Text) (result : R) (now : ℤ) (entries out : List (Entry R))
      → eq_text k key ≡ false
      → set_outcome k result now entries ≡ some out
      → (find_entry key out ≡ find_entry key entries) × (length out ≡ length entries)
  unfolding find_entry set_outcome
  find-set_elsewhere key k result now [] out apart h = cc
  find-set_elsewhere key k result now (f ∷ fs) out apart h = elim (Bool-cases (eq_text f.key k)) [
    | inl same ↦
        let named : f.key ≡ k = (eq_text_iff f.key k).0 same in
        let other : eq_text f.key key ≡ false =
          subst (λ x. eq_text x key ≡ false) (sym named) apart in
        let made : settled f result now ∷ fs ≡ out = ground (arith, same) in
        subst (λ x. (find_entry key x ≡ find_entry key (f ∷ fs)) × (length x ≡ length (f ∷ fs)))
          made (rw other refl, refl)
    | inr differs ↦ elim (Option-cases (set_outcome k result now fs)) [
      | inl failed ↦ absurd (ground (arith, differs, failed))
      | inr (rest, sets) ↦
          let made : f ∷ rest ≡ out = ground (arith, differs, sets) in
          let (later, counts) = find-set_elsewhere key k result now fs rest apart sets in
          subst (λ x. (find_entry key x ≡ find_entry key (f ∷ fs)) × (length x ≡ length (f ∷ fs)))
            made (rw later refl, ap suc counts)
    ]
  ]

module _ {E V : Type 0} where
  -- An error, or a result that comes when there are at most 2000 entries
  abbrev pub IsKept : Result E V → List (Entry (Result E V)) → Type 0
  IsKept (err e) entries = Unit
  IsKept (ok v) entries = length entries ≤ 2000

  find-end_request :
      (key : Text) (result : Result E V) (now : ℤ) (entries out : List (Entry (Result E V)))
      (e : Entry (Result E V))
      → find_entry key entries ≡ some e
      → IsKept result entries
      → end_request key result now entries ≡ some out
      → find_entry key out ≡ some (settled e result now)
  unfolding end_request
  find-end_request key (err raised) now entries out e found kept h =
      (find-set_outcome key (err raised) now entries out e found h).0
  find-end_request key (ok v) now entries out e found kept h =
      elim (Option-cases (set_outcome key (ok v) now entries)) [
        | inl failed ↦ absurd (ground (arith, failed))
        | inr (recorded, sets) ↦
            let (later, counts) = find-set_outcome key (ok v) now entries recorded e found sets in
            let few : ltb 2000 (length recorded) ≡ false = ground (arith, counts) in
            let same : recorded ≡ out = unfold evict in ground (arith, sets, few) in
            subst (λ x. find_entry key x ≡ some (settled e (ok v) now)) same later
      ]

  find-end_elsewhere :
      (key k : Text) (result : Result E V) (now : ℤ) (entries out : List (Entry (Result E V)))
      → eq_text k key ≡ false
      → IsKept result entries
      → end_request k result now entries ≡ some out
      → find_entry key out ≡ find_entry key entries
  unfolding end_request
  find-end_elsewhere key k (err raised) now entries out apart kept h =
      (find-set_elsewhere key k (err raised) now entries out apart h).0
  find-end_elsewhere key k (ok v) now entries out apart kept h =
      elim (Option-cases (set_outcome k (ok v) now entries)) [
        | inl failed ↦ absurd (ground (arith, failed))
        | inr (recorded, sets) ↦
            let (same_entry, counts) =
              find-set_elsewhere key k (ok v) now entries recorded apart sets in
            let few : ltb 2000 (length recorded) ≡ false = ground (arith, counts) in
            let same : recorded ≡ out = unfold evict in ground (arith, sets, few) in
            subst (λ x. find_entry key x ≡ find_entry key entries) same same_entry
      ]

  -- Requests that begin and own their key, and requests that run and end, each by an error or with at
  -- most 2000 entries
  pub data Later : List (Entry (Result E V)) → List (Entry (Result E V)) → Type 0 where
    no_more : (es : List (Entry (Result E V))) → Later es es
    begun :
        (es fs : List (Entry (Result E V))) (k digest : Text) (now : ℤ)
        → Later es fs
        → begin_request k digest fs ≡ own
        → Later es (add_entry k digest now fs)
    ended :
        (es fs out : List (Entry (Result E V))) (k digest : Text) (result : Result E V) (now : ℤ)
        → Later es fs
        → begin_request k digest fs ≡ wait
        → IsKept result fs
        → end_request k result now fs ≡ some out
        → Later es out

  Later-find :
      (key : Text) (es later : List (Entry (Result E V))) (e : Entry (Result E V))
      (result : Result E V)
      → Later es later
      → find_entry key es ≡ some e
      → e.outcome ≡ some result
      → find_entry key later ≡ some e
  Later-find key es later e result (no_more _) found closed = found
  Later-find key es later e result (begun _ fs k digest now more owns) found closed =
      find-add_entry key k digest now fs e (Later-find key es fs e result more found closed)
  Later-find key es later e result (ended _ fs _ k digest answer now more waits kept ends) found
        closed =
      let before = Later-find key es fs e result more found closed in
      let apart : eq_text k key ≡ false = elim (Bool-cases (eq_text k key)) [
        | inl same ↦
            let names : k ≡ key = (eq_text_iff k key).0 same in
            let unset : e.outcome ≡ none =
              begin_request-pending k digest fs e waits
                (ap (λ x. find_entry x fs) names ∙ before) in
            absurd (ground (arith, unset, closed))
        | inr other ↦ other
      ] in
      find-end_elsewhere key k answer now fs later apart kept ends ∙ before

  -- When a request with a key that is not empty ends, by an error or with at most 2000 entries, then
  -- from then on, while other requests begin and end, each by an error or with at most 2000 entries,
  -- those that wait for it and those that come with the same key and digest get its outcome, without
  -- running, and another digest is a conflict.
  pub end_request-replays :
      (key digest : Text) (result : Result E V) (now : ℤ)
      (entries out later : List (Entry (Result E V)))
      → begin_request key digest entries ≡ wait
      → IsKept result entries
      → end_request key result now entries ≡ some out
      → Later out later
      → (begin_request key digest later ≡ replay result)
        × (wait_result key digest later ≡ ok result)
        × ((other : Text) → digest ≢ other → begin_request key other later ≡ conflict)
  unfolding wait_result
  end_request-replays key digest result now entries out later waits kept h more =
      let (e, found, same) = begin_request-wait key digest entries waits in
      let done = find-end_request key result now entries out e found kept h in
      let held = Later-find key out later (settled e result now) result more done refl in
      let equal : eq_text e.digest digest ≡ true = (eq_text_iff e.digest digest).1 same in
      (
        rw (begin_request-decide key digest digest entries later waits, held, equal),
        rw (held, equal),
        λ other differs. rw (
          begin_request-decide key digest other entries later waits,
          held,
          eq_text-false e.digest other (λ p. differs (sym same ∙ p)),
        ),
      )
