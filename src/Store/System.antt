-- ===== src/Store/System.antt =====
-- The database under a clock: any sequence of committed transactions, at times that do not decrease.
-- A transaction that raises commits nothing, and is no step.
pub mod Isolation
pub mod Epochs
pub mod Exclusive
pub mod Fencing
pub mod Funding
use forge_boss.Base.{ℕ, ◌≡◌, ◌≤◌, Option, Text, ok}
use forge_boss.Value.{Value, Fields}
use forge_boss.Runtime.{Runtime}
use forge_boss.Store.Tables.{Task, Lease, Store}
use forge_boss.Store.Tasks.{create_task}
use forge_boss.Store.Claims.{claim_workspace}
use forge_boss.Store.Writers.{heartbeat, release}

pub record System : Type 0 where
  pub clock : ℕ
  pub store : Store

pub data Step (rt : Runtime) : System → System → Type 0 where
  wait : (x : System) (n : ℕ) → x.clock ≤ n → Step rt x (record x { clock = n })
  create :
      (x : System) (task_id purpose : Text) (branch : Option Text) (t : Fields) (task : Task)
      (s : Store)
      → create_task rt task_id purpose branch t x.clock x.store ≡ ok (task, s)
      → Step rt x (record x { store = s })
  claim :
      (x : System) (task_id run_id path root : Text) (branch : Option Text) (head : Text)
      (seconds : Value) (runtime_id : Option Text) (budget : Value) (l : Lease) (s : Store)
      → claim_workspace rt task_id run_id path root branch head seconds runtime_id budget x.clock
          x.store
        ≡ ok (l, s)
      → Step rt x (record x { store = s })
  beat :
      (x : System) (task_id run_id : Text) (epoch : ℕ) (seconds : Value)
      (head expected : Option Text) (r : Option Lease) (s : Store)
      → heartbeat rt task_id run_id epoch seconds head expected x.clock x.store ≡ ok (r, s)
      → Step rt x (record x { store = s })
  give_up :
      (x : System) (task_id run_id : Text) (epoch : ℕ) (head : Option Text) (outcome : Text)
      (expected : Option Text) (s : Store)
      → release task_id run_id epoch head outcome expected x.clock x.store ≡ ok s
      → Step rt x (record x { store = s })

pub data Reach (rt : Runtime) (x : System) : System → Type 0 where
  here : Reach rt x x
  next : {y z : System} → Reach rt x y → Step rt y z → Reach rt x z
