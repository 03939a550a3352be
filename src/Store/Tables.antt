-- ===== src/Store/Tables.antt =====
-- The rows of the database and the statements that read and write them. A table is the list of its
-- rows in the order of insertion; times and amounts are in ticks.
use forge_boss.Base.{
  ℕ, suc, ◌+◌, Bool, List, [], ◌∷◌, ◌++◌, Option, none, some, ltb, if◌then◌else◌, Text, eq_text,
}
use forge_boss.Value.{Value, Float}

-- The governance columns of a task, all NULL without a mode
pub record Governance : Type 0 where
  pub mode : Option Text
  pub work_kind : Option Text
  pub subsystem : Option Text
  pub reuse_review_sha256 : Option Text
  pub reuse_review_receipt_sha256 : Option Text
  pub small_repair_exemption_sha256 : Option Text

-- A row of `tasks`. `allowed_paths` is what the JSON text of the column decodes to.
pub record Task : Type 0 where
  pub task_id : Text
  pub repository : Value
  pub purpose : Text
  pub base_sha : Text
  pub branch : Option Text
  pub status : Text
  pub revision : ℕ
  pub current_step : Option Text
  pub assigned_runtime : Option Text
  pub allowed_paths : Value
  pub required_tests : Value
  pub budget_allocated : Float
  pub budget_spent : Float
  pub result_head : Option Text
  pub governance : Governance
  pub created_at : ℕ
  pub updated_at : ℕ

-- A row of `task_runs`
pub record Run : Type 0 where
  pub run_id : Text
  pub task_id : Text
  pub attempt : ℕ
  pub owner_epoch : ℕ
  pub runtime_id : Option Text
  pub status : Text
  pub started_at : ℕ
  pub finished_at : Option ℕ

-- A row of `workspace_leases`
pub record Lease : Type 0 where
  pub task_id : Text
  pub worktree_path : Text
  pub branch : Option Text
  pub owner_run_id : Text
  pub owner_epoch : ℕ
  pub claimed_at : ℕ
  pub heartbeat_at : ℕ
  pub expires_at : ℕ
  pub released_at : Option ℕ
  pub current_head : Text
  pub budget_reserved : ℕ

-- The event types with their payloads
pub data EventBody : Type 0 where
  task_created : Governance → EventBody
  workspace_claimed : ℕ → Text → Text → ℕ → EventBody
  workspace_heartbeat : ℕ → Text → EventBody
  workspace_released : ℕ → Text → Text → EventBody

-- A row of `task_events`
pub record Event : Type 0 where
  pub seq : ℕ
  pub task_id : Text
  pub run_id : Option Text
  pub body : EventBody
  pub state_version : ℕ
  pub created_at : ℕ

pub record Store : Type 0 where
  pub tasks : List Task
  pub runs : List Run
  pub leases : List Lease
  pub events : List Event
  -- the last key that AUTOINCREMENT gave out
  pub last_seq : ℕ

abbrev pub empty_store : Store
empty_store = record { tasks = []; runs = []; leases = []; events = []; last_seq = 0 }

-- SELECT * FROM tasks WHERE task_id=?
unfoldable pub find_task : Text → List Task → Option Task
find_task id [] = none
find_task id (t ∷ ts) = if eq_text t.task_id id then some t else find_task id ts

-- SELECT * FROM workspace_leases WHERE task_id=?
unfoldable pub find_lease : Text → List Lease → Option Lease
find_lease id [] = none
find_lease id (l ∷ ls) = if eq_text l.task_id id then some l else find_lease id ls

-- SELECT * FROM task_runs WHERE run_id=?
unfoldable pub find_run : Text → List Run → Option Run
find_run id [] = none
find_run id (r ∷ rs) = if eq_text r.run_id id then some r else find_run id rs

-- UPDATE … SET … WHERE …: the new table, and the number of rows that changed
module _ {A : Type 0} (test : A → Bool) (change : A → A) where
  unfoldable pub update_rows : List A → List A
  update_rows [] = []
  update_rows (x ∷ xs) = (if test x then change x else x) ∷ update_rows xs

module _ {A : Type 0} (test : A → Bool) where
  unfoldable pub row_count : List A → ℕ
  row_count [] = 0
  row_count (x ∷ xs) = if test x then suc (row_count xs) else row_count xs

-- INSERT INTO workspace_leases … ON CONFLICT(task_id) DO UPDATE SET …
unfoldable pub put_lease : Lease → List Lease → List Lease
put_lease l [] = l ∷ []
put_lease l (k ∷ ks) = if eq_text k.task_id l.task_id then l ∷ ks else k ∷ put_lease l ks

-- COALESCE(MAX(attempt),0)+1 over the runs of a task
unfoldable pub max_attempt : Text → List Run → ℕ
max_attempt id [] = 0
max_attempt id (r ∷ rs) =
    let rest = max_attempt id rs in
    if eq_text r.task_id id then (if ltb rest r.attempt then r.attempt else rest) else rest

-- COALESCE(MAX(state_version),0) over the events
unfoldable pub max_version : List Event → ℕ
max_version [] = 0
max_version (e ∷ es) =
    let rest = max_version es in if ltb rest e.state_version then e.state_version else rest

-- `_event_locked`
unfoldable pub add_event : EventBody → Text → Option Text → ℕ → Store → Store
unfolding max_version
add_event body task_id run_id now s = record s {
  events =
      s.events
      ++ (record {
        seq = s.last_seq + 1;
        task_id = task_id;
        run_id = run_id;
        body = body;
        state_version = max_version s.events + 1;
        created_at = now;
      }
          ∷ []);
  last_seq = s.last_seq + 1;
}
