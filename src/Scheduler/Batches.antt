-- ===== src/Scheduler/Batches.antt =====
-- `smart_parallel_batches` of forgeboss/control/scheduler.py. Costs are whole multiples of a unit.
-- `sorted` is stable insertion by the key; `max_workers` of 0 stands for all values below 1.
pub mod Partition
pub mod Limits
pub mod Greedy
use forge_boss.Base.{
  ℕ, zero, suc, ◌+◌, Bool, true, false, ◌||◌, ◌&&◌, List, [], ◌∷◌, ◌++◌, Option, none, some, length,
  ltb, leb, ◌==◌, if◌then◌else◌, any, is_empty, Text,
}
use forge_boss.Casefold.{CaseTable}
use forge_boss.Scheduler.Paths.{WorkItem, conflicts}

-- `s <= t`, by code points
unfoldable pub leb_text : Text → Text → Bool
leb_text [] t = true
leb_text (c ∷ s) [] = false
leb_text (c ∷ s) (d ∷ t) = ltb c d || (c == d && leb_text s t)

-- The order of the keys `(priority, estimated_cost, task_id)`
unfoldable pub leb_key : WorkItem → WorkItem → Bool
unfolding leb_text
leb_key a b =
    ltb a.priority b.priority
    || (a.priority == b.priority
        && (ltb a.estimated_cost b.estimated_cost
            || (a.estimated_cost == b.estimated_cost && leb_text a.task_id b.task_id)))

-- Before the first element that is not smaller, so equal keys keep their order.
unfoldable pub insert_by_key : WorkItem → List WorkItem → List WorkItem
unfolding leb_key
insert_by_key item [] = item ∷ []
insert_by_key item (x ∷ xs) = if leb_key item x then item ∷ x ∷ xs else x ∷ insert_by_key item xs

unfoldable pub sort_by_key : List WorkItem → List WorkItem
unfolding insert_by_key
sort_by_key [] = []
sort_by_key (x ∷ xs) = insert_by_key x (sort_by_key xs)

unfoldable pub cons_batch :
    List WorkItem → Option (List (List WorkItem)) → Option (List (List WorkItem))
cons_batch batch none = none
cons_batch batch (some later) = some (batch ∷ later)

module _ (table : CaseTable) where
  -- The test that defers an item.
  unfoldable pub is_blocked : ℕ → List WorkItem → WorkItem → Bool
  unfolding conflicts
  is_blocked max_workers batch item =
      leb max_workers (length batch) || any (λ x. conflicts table item x) batch

  -- The inner loop: the batch and the deferred items after `remaining`.
  unfoldable pub fill_batch : ℕ → List WorkItem → List WorkItem → List WorkItem × List WorkItem
  unfolding is_blocked
  fill_batch max_workers batch [] = (batch, [])
  fill_batch max_workers batch (item ∷ remaining) =
      let blocked = is_blocked max_workers batch item in
      let (filled, deferred) =
        fill_batch max_workers (if blocked then batch else batch ++ (item ∷ [])) remaining in
      (filled, if blocked then item ∷ deferred else deferred)

  -- The batch of one round; an empty one is replaced by the first item alone.
  unfoldable pub next_batch : ℕ → WorkItem → List WorkItem → List WorkItem × List WorkItem
  unfolding fill_batch
  next_batch max_workers first rest =
      let (batch, deferred) = fill_batch max_workers [] (first ∷ rest) in
      if is_empty batch then (first ∷ [], rest) else (batch, deferred)

  -- The outer `while`; `none` means that the fuel ran out.
  unfoldable pub batch_rounds : ℕ → ℕ → List WorkItem → Option (List (List WorkItem))
  unfolding next_batch cons_batch
  batch_rounds zero max_workers remaining = none
  batch_rounds (suc fuel) max_workers [] = some []
  batch_rounds (suc fuel) max_workers (first ∷ rest) =
      let (batch, deferred) = next_batch max_workers first rest in
      cons_batch batch (batch_rounds fuel max_workers deferred)

  unfoldable pub smart_parallel_batches : List WorkItem → ℕ → Option (List (List WorkItem))
  unfolding batch_rounds sort_by_key
  smart_parallel_batches items max_workers =
      batch_rounds (length items + 1) max_workers (sort_by_key items)
