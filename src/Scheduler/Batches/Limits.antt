-- ===== src/Scheduler/Batches/Limits.antt =====
-- The size of a batch, and the conflicts in it.
use forge_boss.Base.{
  ℕ, zero, suc, ◌+◌, ◌≤◌, ◌≡◌, refl, ◌∙◌, ◌⊎◌, inl, inr, Bool, true, false, List, [], ◌∷◌, ◌++◌,
  Option, none, some, arith, length, length-append, if◌then◌else◌, is_empty, any, All, All-append,
  OnSome, OnSome-some,
}
use forge_boss.Casefold.{CaseTable}
use forge_boss.Scheduler.Paths.{WorkItem, conflicts}
use forge_boss.Scheduler.Paths.Overlap.{conflicts_comm}
use forge_boss.Scheduler.Batches.{
  is_blocked, fill_batch, next_batch, cons_batch, batch_rounds, sort_by_key, smart_parallel_batches,
}

module _ (table : CaseTable) where
  -- No two items of the list conflict.
  abbrev pub Apart : List WorkItem → Type 0
  Apart [] = Unit
  Apart (x ∷ xs) = All (λ y. conflicts table x y ≡ false) xs × Apart xs

  Apart-append_one :
      (batch : List WorkItem) (item : WorkItem)
      → Apart batch
      → any (λ x. conflicts table item x) batch ≡ false
      → Apart (batch ++ (item ∷ []))
  Apart-append_one [] item h e = (tt, tt)
  Apart-append_one (x ∷ xs) item h e = (
    All-append (λ y. conflicts table x y ≡ false) xs (item ∷ []) h.0
        (conflicts_comm table x item ∙ ground arith, tt),
    Apart-append_one xs item h.1 (ground arith),
  )

  module _ (w : ℕ) where
    -- A batch within its limits: not empty, at most `w` items or a single one, none in conflict.
    abbrev pub WithinLimits : List WorkItem → Type 0
    WithinLimits batch =
        (is_empty batch ≡ false) × ((length batch ≤ w) ⊎ (length batch ≡ 1)) × Apart batch

    fill_batch-limits :
        (batch items : List WorkItem)
        → length batch ≤ w
        → Apart batch
        → (length (fill_batch table w batch items).0 ≤ w) × Apart (fill_batch table w batch items).0
    unfolding fill_batch
    fill_batch-limits batch [] h a = (h, a)
    fill_batch-limits batch (item ∷ items) h a =
        go (is_blocked table w batch item) refl (λ b. fill_batch-limits b items)
      where
        go :
            (b : Bool)
            → is_blocked table w batch item ≡ b
            → ((batch' : List WorkItem)
                → length batch' ≤ w
                → Apart batch'
                → (length (fill_batch table w batch' items).0 ≤ w)
                  × Apart (fill_batch table w batch' items).0)
            → let filled =
                (fill_batch table w (if b then batch else batch ++ (item ∷ [])) items).0 in
              (length filled ≤ w) × Apart filled
        go true e ih = ih batch h a
        go false e ih =
            ih (batch ++ (item ∷ []))
              (unfold is_blocked in ground (arith, length-append batch (item ∷ [])))
              (Apart-append_one batch item a (unfold is_blocked in ground arith))

    next_batch-limits :
        (first : WorkItem) (rest : List WorkItem) → WithinLimits (next_batch table w first rest).0
    unfolding next_batch
    next_batch-limits first rest =
        go (is_empty (fill_batch table w [] (first ∷ rest)).0) refl
          (fill_batch-limits [] (first ∷ rest) (omega arith) tt)
      where
        go :
            (b : Bool)
            → is_empty (fill_batch table w [] (first ∷ rest)).0 ≡ b
            → (length (fill_batch table w [] (first ∷ rest)).0 ≤ w)
              × Apart (fill_batch table w [] (first ∷ rest)).0
            → WithinLimits
                (if b then (first ∷ [], rest) else fill_batch table w [] (first ∷ rest)).0
        go true e h = (refl, inr refl, (tt, tt))
        go false e h = (e, inl h.0, h.1)

    batch_rounds-limits :
        (fuel : ℕ) (items : List WorkItem)
        → OnSome (All WithinLimits) (batch_rounds table fuel w items)
    unfolding batch_rounds cons_batch
    batch_rounds-limits zero items = tt
    batch_rounds-limits (suc fuel) [] = tt
    batch_rounds-limits (suc fuel) (first ∷ rest) =
        let (batch, deferred) = next_batch table w first rest in
        go batch (batch_rounds table fuel w deferred) (next_batch-limits first rest)
          (batch_rounds-limits fuel deferred)
      where
        go :
            (batch : List WorkItem) (later : Option (List (List WorkItem)))
            → WithinLimits batch
            → OnSome (All WithinLimits) later
            → OnSome (All WithinLimits) (cons_batch batch later)
        go batch none h ih = tt
        go batch (some bs) h ih = (h, ih)

    -- Every batch holds an item, no two items of it conflict, and it has at most the number of
    -- workers, or a single item.
    pub smart_parallel_batches-limits :
        (items : List WorkItem) (batches : List (List WorkItem))
        → smart_parallel_batches table items w ≡ some batches
        → All WithinLimits batches
    unfolding smart_parallel_batches
    smart_parallel_batches-limits items batches e =
        OnSome-some (All WithinLimits) _ batches
          (batch_rounds-limits (length items + 1) (sort_by_key items)) e
