-- ===== src/Scheduler/Batches/Partition.antt =====
-- The items of the batches, and the end of the rounds.
use mathlib.Core.List.{Perm, perm_middle, flatten, append_assoc}
use mathlib.Core.List.Perm
use forge_boss.Base.{
  ℕ, zero, suc, ◌+◌, ◌<◌, ◌≤◌, ◌≡◌, refl, ap, ◌∙◌, subst, Bool, true, false, List, [], ◌∷◌, ◌++◌,
  Option, none, some, arith, length, length-append, if◌then◌else◌, is_empty,
}
use forge_boss.Casefold.{CaseTable}
use forge_boss.Scheduler.Paths.{WorkItem}
use forge_boss.Scheduler.Batches.{
  leb_key, insert_by_key, sort_by_key, is_blocked, fill_batch, next_batch, cons_batch, batch_rounds,
  smart_parallel_batches,
}

insert_by_key-perm : (x : WorkItem) (xs : List WorkItem) → Perm (insert_by_key x xs) (x ∷ xs)
unfolding insert_by_key
insert_by_key-perm x [] = Perm.refl (x ∷ [])
insert_by_key-perm x (y ∷ ys) = go (leb_key x y) (insert_by_key-perm x ys)
  where
    go :
        (b : Bool)
        → Perm (insert_by_key x ys) (x ∷ ys)
        → Perm (if b then x ∷ y ∷ ys else y ∷ insert_by_key x ys) (x ∷ y ∷ ys)
    go true ih = Perm.refl (x ∷ y ∷ ys)
    go false ih = Perm.trans (Perm.cons y ih) (Perm.swap x y ys)

sort_by_key-perm : (xs : List WorkItem) → Perm (sort_by_key xs) xs
unfolding sort_by_key
sort_by_key-perm [] = Perm.refl []
sort_by_key-perm (x ∷ xs) =
    Perm.trans (insert_by_key-perm x (sort_by_key xs)) (Perm.cons x (sort_by_key-perm xs))

length-insert_by_key :
    (x : WorkItem) (xs : List WorkItem) → length (insert_by_key x xs) ≡ suc (length xs)
unfolding insert_by_key
length-insert_by_key x [] = refl
length-insert_by_key x (y ∷ ys) = ground (arith, length-insert_by_key x ys)

length-sort_by_key : (xs : List WorkItem) → length (sort_by_key xs) ≡ length xs
unfolding sort_by_key
length-sort_by_key [] = refl
length-sort_by_key (x ∷ xs) =
    length-insert_by_key x (sort_by_key xs) ∙ ap suc (length-sort_by_key xs)

module _ (table : CaseTable) (w : ℕ) where
  -- The batch and what is deferred are the items of the round.
  fill_batch-perm :
      (batch items : List WorkItem)
      → Perm
          ((fill_batch table w batch items).0 ++ (fill_batch table w batch items).1)
          (batch ++ items)
  unfolding fill_batch
  fill_batch-perm batch [] = Perm.refl (batch ++ [])
  fill_batch-perm batch (item ∷ items) =
      go (is_blocked table w batch item) (λ batch'. fill_batch-perm batch' items)
    where
      go :
          (b : Bool)
          → ((batch' : List WorkItem)
              → Perm
                  ((fill_batch table w batch' items).0 ++ (fill_batch table w batch' items).1)
                  (batch' ++ items))
          → let (filled, deferred) =
              fill_batch table w (if b then batch else batch ++ (item ∷ [])) items in
            Perm (filled ++ (if b then item ∷ deferred else deferred)) (batch ++ (item ∷ items))
      go true ih =
          Perm.trans
            (perm_middle (fill_batch table w batch items).0 (fill_batch table w batch items).1)
            (Perm.trans (Perm.cons item (ih batch)) (Perm.symm (perm_middle batch items)))
      go false ih =
          subst
            (Perm (
              (fill_batch table w (batch ++ (item ∷ [])) items).0
              ++ (fill_batch table w (batch ++ (item ∷ [])) items).1))
            (append_assoc batch (item ∷ []) items) (ih (batch ++ (item ∷ [])))

  length-fill_batch :
      (batch items : List WorkItem)
      → let (filled, deferred) = fill_batch table w batch items in
        length filled + length deferred ≡ length batch + length items
  unfolding fill_batch
  length-fill_batch batch [] = omega arith
  length-fill_batch batch (item ∷ items) =
      go (is_blocked table w batch item) (λ batch'. length-fill_batch batch' items)
    where
      go :
          (b : Bool)
          → ((batch' : List WorkItem)
              → length (fill_batch table w batch' items).0
                  + length (fill_batch table w batch' items).1
                ≡ length batch' + length items)
          → let (filled, deferred) =
              fill_batch table w (if b then batch else batch ++ (item ∷ [])) items in
            length filled + length (if b then item ∷ deferred else deferred)
            ≡ length batch + suc (length items)
      go true ih = omega (arith, ih batch)
      go false ih = omega (arith, ih (batch ++ (item ∷ [])), length-append batch (item ∷ []))

  next_batch-perm :
      (first : WorkItem) (rest : List WorkItem)
      → let (batch, deferred) = next_batch table w first rest in
        Perm (batch ++ deferred) (first ∷ rest)
  unfolding next_batch
  next_batch-perm first rest =
      go (is_empty (fill_batch table w [] (first ∷ rest)).0) (fill_batch-perm [] (first ∷ rest))
    where
      go :
          (b : Bool)
          → Perm
              ((fill_batch table w [] (first ∷ rest)).0 ++ (fill_batch table w [] (first ∷ rest)).1)
              (first ∷ rest)
          → Perm
              ((if b then (first ∷ [], rest) else fill_batch table w [] (first ∷ rest)).0
                ++ (if b then (first ∷ [], rest) else fill_batch table w [] (first ∷ rest)).1)
              (first ∷ rest)
      go true p = Perm.refl (first ∷ rest)
      go false p = p

  -- Each round schedules something, so fewer items are left.
  next_batch-shrinks :
      (first : WorkItem) (rest : List WorkItem)
      → length (next_batch table w first rest).1 ≤ length rest
  unfolding next_batch
  next_batch-shrinks first rest = ground (arith, length-fill_batch [] (first ∷ rest))

  -- The outcome of the rounds: batches that together hold the items.
  abbrev Schedules : List WorkItem → Option (List (List WorkItem)) → Type 0
  Schedules items none = ⊥
  Schedules items (some batches) = Perm (flatten batches) items

  cons_batch-Schedules :
      (items batch deferred : List WorkItem) (later : Option (List (List WorkItem)))
      → Perm (batch ++ deferred) items
      → Schedules deferred later
      → Schedules items (cons_batch batch later)
  unfolding cons_batch flatten
  cons_batch-Schedules items batch deferred none p h = h
  cons_batch-Schedules items batch deferred (some later) p h =
      Perm.trans (Perm.append_left batch h) p

  batch_rounds-Schedules :
      (fuel : ℕ) (items : List WorkItem)
      → length items < fuel
      → Schedules items (batch_rounds table fuel w items)
  unfolding batch_rounds
  batch_rounds-Schedules zero items h = elim h [ ]
  batch_rounds-Schedules (suc fuel) [] h = unfold flatten in Perm.refl []
  batch_rounds-Schedules (suc fuel) (first ∷ rest) h =
      let (batch, deferred) = next_batch table w first rest in
      cons_batch-Schedules (first ∷ rest) batch deferred (batch_rounds table fuel w deferred)
        (next_batch-perm first rest)
        (batch_rounds-Schedules fuel deferred (omega (arith, next_batch-shrinks first rest)))

  Schedules-some :
      (items : List WorkItem) (r : Option (List (List WorkItem)))
      → Schedules items r
      → (batches : List (List WorkItem)) × (r ≡ some batches) × Perm (flatten batches) items
  Schedules-some items none h = absurd h
  Schedules-some items (some batches) h = (batches, refl, h)

  -- The scheduler ends on all items and any number of workers, and its batches hold every item
  -- exactly once.
  pub smart_parallel_batches-perm :
      (items : List WorkItem)
      → (batches : List (List WorkItem)) × (smart_parallel_batches table items w ≡ some batches)
        × Perm (flatten batches) items
  unfolding smart_parallel_batches
  smart_parallel_batches-perm items =
      let (batches, e, p) =
        Schedules-some (sort_by_key items) (smart_parallel_batches table items w) (
          batch_rounds-Schedules (length items + 1) (sort_by_key items)
            (omega (arith, length-sort_by_key items))) in
      (batches, e, Perm.trans p (sort_by_key-perm items))
