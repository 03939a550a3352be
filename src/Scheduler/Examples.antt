-- ===== src/Scheduler/Examples.antt =====
-- Paths and batches on concrete data, and the theorems at them.
use mathlib.Core.List.{Perm, flatten}
use forge_boss.Base.{ℕ, ◌≡◌, refl, true, false, ◌&&◌, List, [], ◌∷◌, some, All, Text, codes}
use forge_boss.Casefold.{ascii}
use forge_boss.Scheduler.Paths.{WorkItem, canonical_path, conflicts}
use forge_boss.Scheduler.Paths.Canonical.{canonical_path_idem}
use forge_boss.Scheduler.Paths.Overlap.{writes, conflicts_sound, conflicts_complete}
use forge_boss.Scheduler.Batches.{smart_parallel_batches}
use forge_boss.Scheduler.Batches.Partition.{smart_parallel_batches-perm}
use forge_boss.Scheduler.Batches.Limits.{WithinLimits, smart_parallel_batches-limits}
use forge_boss.Scheduler.Batches.Greedy.{IsGreedy, smart_parallel_batches-IsGreedy}

messy : canonical_path ascii (codes "\\Src/./lib \\..\\A.B. /..x") ≡ codes "src/a.b/..x"
unfolding ascii canonical_path
messy = refl

above_root : canonical_path ascii (codes "../a/../../b...") ≡ codes "../../b"
unfolding ascii canonical_path
above_root = refl

canonical_path_idem_example :
    canonical_path ascii (canonical_path ascii (codes "../A/..\\b. "))
    ≡ canonical_path ascii (codes "../A/..\\b. ")
canonical_path_idem_example = canonical_path_idem ascii (codes "../A/..\\b. ")

abbrev item : Text → ℕ → List Text → List Text → WorkItem
item id priority files roots = record {
  task_id = id;
  family = codes "f";
  files = files;
  write_roots = roots;
  estimated_cost = 0;
  priority = priority;
}

abbrev a : WorkItem
a = item (codes "a") 2 (codes "src/x.py" ∷ []) []

abbrev b : WorkItem
b = item (codes "b") 1 [] (codes "SRC/" ∷ [])

abbrev c : WorkItem
c = item (codes "c") 3 (codes "docs/y.md" ∷ []) (codes "tests" ∷ [])

a-b_conflict : conflicts ascii a b ≡ true
unfolding ascii conflicts
a-b_conflict = refl

a-c_apart : conflicts ascii a c ≡ false
unfolding ascii conflicts
a-c_apart = refl

conflicts_sound_example :
    (writes ascii a (codes "src/x.py") && writes ascii c (codes "src/x.py")) ≡ false
conflicts_sound_example = conflicts_sound ascii a c a-c_apart (codes "src/x.py")

conflicts_complete_example :
    (path : Text) × (writes ascii a path ≡ true) × (writes ascii b path ≡ true)
conflicts_complete_example = conflicts_complete ascii a b a-b_conflict

-- By priority b comes first; a must wait for it, and c need not.
batches_run : smart_parallel_batches ascii (a ∷ b ∷ c ∷ []) 4 ≡ some ((b ∷ c ∷ []) ∷ (a ∷ []) ∷ [])
unfolding ascii smart_parallel_batches
batches_run = refl

-- With no worker at all the items run one by one.
batches_alone : smart_parallel_batches ascii (a ∷ c ∷ []) 0 ≡ some ((a ∷ []) ∷ (c ∷ []) ∷ [])
unfolding ascii smart_parallel_batches
batches_alone = refl

smart_parallel_batches-perm_example :
    (batches : List (List WorkItem)) × (smart_parallel_batches ascii (a ∷ b ∷ c ∷ []) 4
      ≡ some batches)
    × Perm (flatten batches) (a ∷ b ∷ c ∷ [])
smart_parallel_batches-perm_example = smart_parallel_batches-perm ascii 4 (a ∷ b ∷ c ∷ [])

smart_parallel_batches-limits_example : All (WithinLimits ascii 4) ((b ∷ c ∷ []) ∷ (a ∷ []) ∷ [])
smart_parallel_batches-limits_example =
    smart_parallel_batches-limits ascii 4 (a ∷ b ∷ c ∷ []) ((b ∷ c ∷ []) ∷ (a ∷ []) ∷ [])
      batches_run

smart_parallel_batches-IsGreedy_example : IsGreedy ascii 4 ((b ∷ c ∷ []) ∷ (a ∷ []) ∷ [])
smart_parallel_batches-IsGreedy_example =
    smart_parallel_batches-IsGreedy ascii 4 (a ∷ b ∷ c ∷ []) ((b ∷ c ∷ []) ∷ (a ∷ []) ∷ [])
      batches_run
