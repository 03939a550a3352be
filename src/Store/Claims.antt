-- ===== src/Store/Claims.antt =====
-- `claim_workspace` of `ControlStore` in forgeboss/control/store.py.
pub mod Facts
pub mod Separation
use forge_boss.Base.{
  ℕ, ◌+◌, Bool, false, not, ◌&&◌, ◌||◌, List, [], ◌∷◌, ◌++◌, Option, none, some, ltb, ◌==◌,
  if◌then◌else◌, is_empty, Text, codes, eq_text, Result, ok, raise_if, from_option, ◌>>=◌, ◌>>◌,
}
use forge_boss.Value.{finite, Value, str}
use forge_boss.Base.Int.{pos}
use forge_boss.Runtime.{Runtime}
use forge_boss.Store.Errors.{
  StoreError, worktree_collision, writable_scope_collision, budget_state_invalid,
  worktree_path_required, worktree_path_denied, worktree_path_escapes, task_not_found,
  lease_already_active, claim_head_mismatch, task_changed, integrity_error,
}
use forge_boss.Store.Identity.{
  repository_identity, physical_worktree_identity, git_object_id, is_device_path,
}
use forge_boss.Store.Scopes.{scope_list, scope_overlap}
use forge_boss.Store.Budget.{validated_budget_request, ttl}
use forge_boss.Store.Governance.{is_some}
use forge_boss.Store.Tables.{
  Task, Run, Lease, workspace_claimed, Store, find_task, find_lease, find_run, update_rows,
  row_count, put_lease, max_attempt, add_event,
}
use forge_boss.Store.Tasks.{status_running}

-- `released_at IS NULL AND expires_at>now`
unfoldable pub is_live : ℕ → Lease → Bool
is_live now l = not (is_some l.released_at) && ltb now l.expires_at

abbrev pub run_row : Text → Text → ℕ → ℕ → Option Text → ℕ → Run
run_row run_id task_id attempt owner_epoch runtime_id now = record {
  run_id = run_id;
  task_id = task_id;
  attempt = attempt;
  owner_epoch = owner_epoch;
  runtime_id = runtime_id;
  status = status_running;
  started_at = now;
  finished_at = none;
}

-- `next_epoch`, and the head that the claim must present: of the lease, else of the task
unfoldable pub next_epoch : Option Lease → ℕ
next_epoch none = 1
next_epoch (some l) = l.owner_epoch + 1

unfoldable pub expected_head : Task → Option Lease → Text
expected_head t (some l) = l.current_head
expected_head t none = elim t.result_head [
  | none ↦ t.base_sha
  | some h ↦ if is_empty h then t.base_sha else h
]

unfoldable pub lease_is_live : ℕ → Option Lease → Bool
unfolding is_live
lease_is_live now none = false
lease_is_live now (some l) = is_live now l

module _ (rt : Runtime) where
  unfoldable pub canonical_worktree_path : Text → Text → Result StoreError Text
  unfolding is_device_path
  canonical_worktree_path raw root = do
    raise_if (is_empty raw) worktree_path_required
    raise_if (not (rt.is_absolute raw)) worktree_path_denied
    raise_if (is_device_path raw) worktree_path_denied
    raise_if (not (rt.is_within (rt.resolve root) (rt.resolve raw))) worktree_path_escapes
    ok (rt.resolve raw)

  -- The end of the loop's body, for a row of the same repository
  unfoldable pub check_scope : Text → List Text → Task → Result StoreError (Unit {0})
  check_scope base_id scope t = git_object_id (str t.base_sha) >>= λ other_base.
      if not (eq_text other_base base_id)
      then ok tt
      else (scope_list rt.table t.allowed_paths >>= λ other_scope.
          raise_if (scope_overlap scope other_scope) writable_scope_collision)

  -- One row of the loop of `_live_cross_task_conflicts_locked`: the lease of another task.
  unfoldable pub check_row :
      Text → Text → Text → List Text → Lease → Task → Result StoreError (Unit {0})
  check_row worktree_id repository_id base_id scope l t = do
    other_worktree ← physical_worktree_identity rt.table l.worktree_path
    raise_if (eq_text other_worktree worktree_id) worktree_collision
    other_repository ← repository_identity rt.table t.repository
    if not (eq_text other_repository repository_id) then ok tt else check_scope base_id scope t

  -- The rows are the live leases of other tasks, joined with those tasks.
  unfoldable pub check_rows :
      Text
      → Text
      → Text
      → List Text
      → Text
      → ℕ
      → List Task
      → List Lease
      → Result StoreError (Unit {0})
  check_rows worktree_id repository_id base_id scope task_id now tasks [] = ok tt
  check_rows worktree_id repository_id base_id scope task_id now tasks (l ∷ ls) =
      let rest = check_rows worktree_id repository_id base_id scope task_id now tasks ls in
      if eq_text l.task_id task_id || not (is_live now l)
      then rest
      else elim (find_task l.task_id tasks) [
        | none ↦ rest
        | some t ↦ check_row worktree_id repository_id base_id scope l t >>= λ _. rest
      ]

  unfoldable pub live_cross_task_conflicts :
      Text → Value → Text → Text → List Text → ℕ → Store → Result StoreError (Unit {0})
  live_cross_task_conflicts task_id repository base_sha worktree scope now s = do
    worktree_id ← physical_worktree_identity rt.table worktree
    repository_id ← repository_identity rt.table repository
    base_id ← git_object_id (str base_sha)
    check_rows worktree_id repository_id base_id scope task_id now s.tasks s.leases

  -- The body of `claim_workspace` after the path and the lifetime are checked.
  unfoldable pub claim_rows :
      Text
      → Text
      → Text
      → Option Text
      → Text
      → ℕ
      → Option Text
      → Value
      → ℕ
      → Task
      → Store
      → Result StoreError (Lease × Store)
  claim_rows task_id run_id worktree branch current_head lifetime runtime_id budget now task s = do
    scope ← scope_list rt.table task.allowed_paths
    let row = find_lease task_id s.leases
    let epoch = next_epoch row
    raise_if (lease_is_live now row) lease_already_active
    raise_if
        (not (is_empty (expected_head task row))
          && not (eq_text current_head (expected_head task row)))
        claim_head_mismatch
    live_cross_task_conflicts task_id task.repository task.base_sha worktree scope now s
    spending ← validated_budget_request rt task budget
    let named : Task → Bool = λ (t : Task). eq_text t.task_id task_id && t.revision == task.revision
    let spent : List Task =
        update_rows named (λ (t : Task). record t { budget_spent = finite (pos spending.1) })
          s.tasks
    raise_if (not (row_count named s.tasks == 1)) budget_state_invalid
    let lease : Lease = record {
      task_id = task_id;
      worktree_path = worktree;
      branch = branch;
      owner_run_id = run_id;
      owner_epoch = epoch;
      claimed_at = now;
      heartbeat_at = now;
      expires_at = now + lifetime;
      released_at = none;
      current_head = current_head;
      budget_reserved = spending.0;
    }
    raise_if (is_some (find_run run_id s.runs)) integrity_error
    let claimed : List Task =
        update_rows named
          (λ (t : Task). record t {
            status = status_running;
            revision = t.revision + 1;
            current_step = some (codes "workspace-claimed");
            assigned_runtime = runtime_id;
            updated_at = now;
          })
          spent
    raise_if (not (row_count named spent == 1)) task_changed
    ok (
      lease,
      add_event (workspace_claimed epoch worktree current_head spending.0) task_id (some run_id) now
          (record s {
            tasks = claimed;
            runs =
                s.runs
                ++ (run_row run_id task_id (max_attempt task_id s.runs + 1) epoch runtime_id now
                    ∷ []);
            leases = put_lease lease s.leases;
          }),
    )

  unfoldable pub claim_workspace :
      Text
      → Text
      → Text
      → Text
      → Option Text
      → Text
      → Value
      → Option Text
      → Value
      → ℕ
      → Store
      → Result StoreError (Lease × Store)
  claim_workspace task_id run_id path root branch current_head ttl_seconds runtime_id budget now s =
      do
        worktree ← canonical_worktree_path path root
        lifetime ← ttl rt ttl_seconds
        task ← from_option task_not_found (find_task task_id s.tasks)
        claim_rows task_id run_id worktree branch current_head lifetime runtime_id budget now task s
