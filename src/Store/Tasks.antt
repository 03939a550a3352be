-- ===== src/Store/Tasks.antt =====
-- `create_task` of `ControlStore` in forgeboss/control/store.py. Each writing method is one
-- BEGIN IMMEDIATE … COMMIT, and an exception rolls it back: it returns the new database, or the
-- exception and no database. `now` is `time.time()`.
pub mod Facts
use forge_boss.Base.{
  ℕ, [], ◌∷◌, ◌++◌, Option, none, Text, codes, Result, ok, err, raise_if, from_option, ◌>>=◌, ◌>>◌,
}
use forge_boss.Value.{Float, finite, nan, arr, int, nil, Fields, get, get_or, to_float}
use forge_boss.Base.Int.{pos}
use forge_boss.Runtime.{Runtime}
use forge_boss.Store.Errors.{StoreError, budget_not_numeric, integrity_error}
use forge_boss.Store.Identity.{repository_identity, git_object_id}
use forge_boss.Store.Scopes.{scope_authorities}
use forge_boss.Store.Governance.{governance_fields, is_some}
use forge_boss.Store.Tables.{Task, task_created, Store, find_task, add_event}

abbrev pub status_queued : Text
status_queued = codes "queued"

abbrev pub status_running : Text
status_running = codes "running"

-- A REAL NOT NULL column: SQLite keeps NaN as NULL.
unfoldable pub real_not_null : Float → Result StoreError Float
real_not_null nan = err integrity_error
real_not_null f = ok f

module _ (rt : Runtime) where
  -- The task's identity, purpose and branch are texts; the other entries of `t` may be any values.
  unfoldable pub create_task :
      Text → Text → Option Text → Fields → ℕ → Store → Result StoreError (Task × Store)
  create_task task_id purpose branch t now s = do
    scope_authorities rt (get_or (arr nil) "allowedPaths" t)
    repository_identity rt.table (get "repository" t)
    base_sha ← git_object_id (get "baseSha" t)
    governance ← governance_fields t
    budget ←
        from_option budget_not_numeric
          (to_float rt.parse_float (get_or (int (pos 0)) "budgetUsd" t))
    allocated ← real_not_null budget
    raise_if (is_some (find_task task_id s.tasks)) integrity_error
    let task : Task = record {
      task_id = task_id;
      repository = get "repository" t;
      purpose = purpose;
      base_sha = base_sha;
      branch = branch;
      status = status_queued;
      revision = 1;
      current_step = none;
      assigned_runtime = none;
      allowed_paths = get_or (arr nil) "allowedPaths" t;
      required_tests = get_or (arr nil) "requiredTests" t;
      budget_allocated = allocated;
      budget_spent = finite (pos 0);
      result_head = none;
      governance = governance;
      created_at = now;
      updated_at = now;
    }
    ok (
      task,
      add_event (task_created governance) task_id none now
          (record s { tasks = s.tasks ++ (task ∷ []) }),
    )
