-- ===== src/Store/Tasks/Facts.antt =====
-- What a successful `create_task` has found, and the database that it leaves.
use forge_boss.Base.{ℕ, ◌≡◌, [], ◌∷◌, ◌++◌, Option, none, arith, Text, ok}
use forge_boss.Base.Int.{pos}
use forge_boss.Value.{Fields, finite}
use forge_boss.Runtime.{Runtime}
use forge_boss.Store.Tables.{Task, Store, find_task, add_event}
use forge_boss.Store.Tasks.{create_task}

module _ (rt : Runtime) (task_id purpose : Text) (branch : Option Text) (t : Fields) (now : ℕ)
    (s : Store) (task : Task) (s' : Store)
    (created : create_task rt task_id purpose branch t now s ≡ ok (task, s')) where
  pub create_task_writes :
      (s'.tasks ≡ s.tasks ++ (task ∷ []))
      × (s'.leases ≡ s.leases)
      × (s'.runs ≡ s.runs)
      × (find_task task_id s.tasks ≡ none)
      × (task.task_id ≡ task_id)
      × (task.budget_spent ≡ finite (pos 0))
  unfolding create_task add_event
  create_task_writes = ground arith
