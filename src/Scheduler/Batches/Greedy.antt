-- ===== src/Scheduler/Batches/Greedy.antt =====
-- Why an item waits.
use mathlib.Core.List.{flatten}
use forge_boss.Base.{
  ℕ, zero, suc, ◌+◌, ◌≤◌, ◌≡◌, refl, Bool, true, false, ◌||◌, List, [], ◌∷◌, ◌++◌, Option, none,
  some, arith, length, length-append, leb, if◌then◌else◌, is_empty, any, any-append, All,
  All-append, All-intro, OnSome, OnSome-some,
}
use forge_boss.Casefold.{CaseTable}
use forge_boss.Scheduler.Paths.{WorkItem, conflicts}
use forge_boss.Scheduler.Batches.{
  is_blocked, fill_batch, next_batch, cons_batch, batch_rounds, sort_by_key, smart_parallel_batches,
}

module _ (table : CaseTable) (w : ℕ) where
  -- Why an item was not put into a batch: the batch is full, or holds an item in conflict with it.
  abbrev pub HasReason : List WorkItem → WorkItem → Type 0
  HasReason batch item = (leb w (length batch) || any (λ x. conflicts table item x) batch) ≡ true

  -- Each item has a reason against each batch before its own.
  abbrev pub IsGreedy : List (List WorkItem) → Type 0
  IsGreedy [] = Unit
  IsGreedy (batch ∷ later) = All (HasReason batch) (flatten later) × IsGreedy later

  HasReason-append_one :
      (batch : List WorkItem) (item x : WorkItem)
      → HasReason batch item
      → HasReason (batch ++ (x ∷ [])) item
  HasReason-append_one batch item x h =
      ground (
        arith,
        length-append batch (x ∷ []),
        any-append (λ y. conflicts table item y) batch (x ∷ []),
      )

  -- What was blocked by the batch so far is blocked by the finished one, which is no smaller.
  fill_batch-keeps :
      (item : WorkItem) (batch items : List WorkItem)
      → HasReason batch item
      → HasReason (fill_batch table w batch items).0 item
  unfolding fill_batch
  fill_batch-keeps item batch [] h = h
  fill_batch-keeps item batch (x ∷ items) h =
      go (is_blocked table w batch x) (λ b. fill_batch-keeps item b items)
    where
      go :
          (b : Bool)
          → ((batch' : List WorkItem)
              → HasReason batch' item
              → HasReason (fill_batch table w batch' items).0 item)
          → HasReason (fill_batch table w (if b then batch else batch ++ (x ∷ [])) items).0 item
      go true ih = ih batch h
      go false ih = ih (batch ++ (x ∷ [])) (HasReason-append_one batch item x h)

  fill_batch-reasons :
      (batch items : List WorkItem)
      → let (filled, deferred) = fill_batch table w batch items in All (HasReason filled) deferred
  unfolding fill_batch
  fill_batch-reasons batch [] = tt
  fill_batch-reasons batch (x ∷ items) =
      go (is_blocked table w batch x) refl (λ b. fill_batch-reasons b items)
    where
      go :
          (b : Bool)
          → is_blocked table w batch x ≡ b
          → ((batch' : List WorkItem)
              → All
                  (HasReason (fill_batch table w batch' items).0)
                  (fill_batch table w batch' items).1)
          → let (filled, deferred) =
              fill_batch table w (if b then batch else batch ++ (x ∷ [])) items in
            All (HasReason filled) (if b then x ∷ deferred else deferred)
      go true e ih = (fill_batch-keeps x batch items (unfold is_blocked in e), ih batch)
      go false e ih = ih (batch ++ (x ∷ []))

  length-fill_batch-grows :
      (batch items : List WorkItem) → length batch ≤ length (fill_batch table w batch items).0
  unfolding fill_batch
  length-fill_batch-grows batch [] = omega arith
  length-fill_batch-grows batch (x ∷ items) =
      go (is_blocked table w batch x) (λ b. length-fill_batch-grows b items)
    where
      go :
          (b : Bool)
          → ((batch' : List WorkItem) → length batch' ≤ length (fill_batch table w batch' items).0)
          → length batch
            ≤ length (fill_batch table w (if b then batch else batch ++ (x ∷ [])) items).0
      go true ih = ih batch
      go false ih = omega (arith, ih (batch ++ (x ∷ [])), length-append batch (x ∷ []))

  -- Only with no worker at all is the filled batch empty.
  fill_batch-empty :
      (first : WorkItem) (rest : List WorkItem)
      → is_empty (fill_batch table w [] (first ∷ rest)).0 ≡ true
      → w ≡ 0
  unfolding fill_batch is_blocked
  fill_batch-empty first rest e = ground (arith, length-fill_batch-grows (first ∷ []) rest)

  next_batch-reasons :
      (first : WorkItem) (rest : List WorkItem)
      → let (batch, deferred) = next_batch table w first rest in All (HasReason batch) deferred
  unfolding next_batch
  next_batch-reasons first rest =
      go (is_empty (fill_batch table w [] (first ∷ rest)).0) refl
        (fill_batch-reasons [] (first ∷ rest))
    where
      go :
          (b : Bool)
          → is_empty (fill_batch table w [] (first ∷ rest)).0 ≡ b
          → All
              (HasReason (fill_batch table w [] (first ∷ rest)).0)
              (fill_batch table w [] (first ∷ rest)).1
          → let (batch, deferred) =
              if b then (first ∷ [], rest) else fill_batch table w [] (first ∷ rest) in
            All (HasReason batch) deferred
      go true e h =
          let none : w ≡ 0 = fill_batch-empty first rest e in
          All-intro (HasReason (first ∷ [])) (λ item. ground arith) rest
      go false e h = h

module _ {ℓ} (table : CaseTable) (w : ℕ) (P : WorkItem → Type ℓ) where
  fill_batch-All :
      (batch items : List WorkItem)
      → All P batch
      → All P items
      → let (filled, deferred) = fill_batch table w batch items in All P filled × All P deferred
  unfolding fill_batch
  fill_batch-All batch [] hb hi = (hb, tt)
  fill_batch-All batch (x ∷ items) hb hi =
      go (is_blocked table w batch x) (λ b h. fill_batch-All b items h hi.1)
    where
      go :
          (b : Bool)
          → ((batch' : List WorkItem)
              → All P batch'
              → All P (fill_batch table w batch' items).0
                × All P (fill_batch table w batch' items).1)
          → let (filled, deferred) =
              fill_batch table w (if b then batch else batch ++ (x ∷ [])) items in
            All P filled × All P (if b then x ∷ deferred else deferred)
      go true ih = let (f, d) = ih batch hb in (f, (hi.0, d))
      go false ih = ih (batch ++ (x ∷ [])) (All-append P batch (x ∷ []) hb (hi.0, tt))

  next_batch-All :
      (first : WorkItem) (rest : List WorkItem)
      → All P (first ∷ rest)
      → let (batch, deferred) = next_batch table w first rest in All P batch × All P deferred
  unfolding next_batch
  next_batch-All first rest h =
      go (is_empty (fill_batch table w [] (first ∷ rest)).0) (fill_batch-All [] (first ∷ rest) tt h)
    where
      go :
          (b : Bool)
          → All P (fill_batch table w [] (first ∷ rest)).0
            × All P (fill_batch table w [] (first ∷ rest)).1
          → let (batch, deferred) =
              if b then (first ∷ [], rest) else fill_batch table w [] (first ∷ rest) in
            All P batch × All P deferred
      go true r = ((h.0, tt), h.1)
      go false r = r

  -- The rounds schedule only items that were there.
  batch_rounds-All :
      (fuel : ℕ) (items : List WorkItem)
      → All P items
      → OnSome (λ batches. All P (flatten batches)) (batch_rounds table fuel w items)
  unfolding batch_rounds
  batch_rounds-All zero items h = tt
  batch_rounds-All (suc fuel) [] h = unfold flatten in tt
  batch_rounds-All (suc fuel) (first ∷ rest) h =
      let r : All P (next_batch table w first rest).0 × All P (next_batch table w first rest).1 =
        next_batch-All first rest h in
      go (next_batch table w first rest).0
        (batch_rounds table fuel w (next_batch table w first rest).1) r.0
        (batch_rounds-All fuel (next_batch table w first rest).1 r.1)
    where
      go :
          (batch : List WorkItem) (later : Option (List (List WorkItem)))
          → All P batch
          → OnSome (λ batches. All P (flatten batches)) later
          → OnSome (λ batches. All P (flatten batches)) (cons_batch batch later)
      go batch none hb ih = unfold cons_batch in tt
      go batch (some bs) hb ih = unfold cons_batch flatten in All-append P batch (flatten bs) hb ih

module _ (table : CaseTable) (w : ℕ) where
  batch_rounds-IsGreedy :
      (fuel : ℕ) (items : List WorkItem)
      → OnSome (IsGreedy table w) (batch_rounds table fuel w items)
  unfolding batch_rounds
  batch_rounds-IsGreedy zero items = tt
  batch_rounds-IsGreedy (suc fuel) [] = tt
  batch_rounds-IsGreedy (suc fuel) (first ∷ rest) =
      go (next_batch table w first rest).0
        (batch_rounds table fuel w (next_batch table w first rest).1)
        (batch_rounds-All table w (HasReason table w (next_batch table w first rest).0) fuel
          (next_batch table w first rest).1 (next_batch-reasons table w first rest))
        (batch_rounds-IsGreedy fuel (next_batch table w first rest).1)
    where
      go :
          (batch : List WorkItem) (later : Option (List (List WorkItem)))
          → OnSome (λ batches. All (HasReason table w batch) (flatten batches)) later
          → OnSome (IsGreedy table w) later
          → OnSome (IsGreedy table w) (cons_batch batch later)
      go batch none h ih = unfold cons_batch in tt
      go batch (some bs) h ih = unfold cons_batch in (h, ih)

  -- An item comes after a batch only if that batch is full or holds an item in conflict with it.
  pub smart_parallel_batches-IsGreedy :
      (items : List WorkItem) (batches : List (List WorkItem))
      → smart_parallel_batches table items w ≡ some batches
      → IsGreedy table w batches
  unfolding smart_parallel_batches
  smart_parallel_batches-IsGreedy items batches e =
      OnSome-some (IsGreedy table w) _ batches
        (batch_rounds-IsGreedy (length items + 1) (sort_by_key items)) e
