-- ===== src/Store/Claims/Facts.antt =====
-- What a successful claim has found, and the database that it leaves.
use forge_boss.Base.{
  ℕ, ◌+◌, ◌<◌, ◌≡◌, Bool, false, ◌&&◌, ◌==◌, List, Option, none, some, arith, Text, codes, eq_text,
  ok, from_option, >>=-eq-ok,
}
use forge_boss.Base.Int.{pos}
use forge_boss.Value.{Float, finite, Value, bool, to_float}
use forge_boss.Runtime.{Runtime}
use forge_boss.Store.Errors.{ttl_not_positive}
use forge_boss.Store.Scopes.{scope_list}
use forge_boss.Store.Budget.{validated_budget_request, ttl, positive_ticks}
use forge_boss.Store.Tables.{
  Task, Lease, Store, find_task, find_lease, update_rows, put_lease, add_event,
}
use forge_boss.Store.Tasks.{status_running}
use forge_boss.Store.Claims.{
  canonical_worktree_path, live_cross_task_conflicts, next_epoch, lease_is_live, claim_rows,
  claim_workspace,
}

module _ (rt : Runtime) (task_id run_id : Text) (branch : Option Text) (current_head : Text)
    (runtime_id : Option Text) (budget : Value) (now : ℕ) where
  module _ (worktree : Text) (lifetime : ℕ) (task : Task) (s : Store) (l : Lease) (s' : Store)
      (claimed : claim_rows rt task_id run_id worktree branch current_head lifetime runtime_id
          budget now task s
        ≡ ok (l, s')) where
    pub claim_scope :
        (scope : List Text) × (scope_list rt.table task.allowed_paths ≡ ok scope)
        × (live_cross_task_conflicts rt task_id task.repository task.base_sha worktree scope now s
            ≡ ok tt)
    unfolding claim_rows
    claim_scope = ground arith

    pub claim_vacant : lease_is_live now (find_lease task_id s.leases) ≡ false
    unfolding claim_rows
    claim_vacant = ground arith

    pub claim_lease :
        (l.task_id ≡ task_id)
        × (l.worktree_path ≡ worktree)
        × (l.owner_run_id ≡ run_id)
        × (l.owner_epoch ≡ next_epoch (find_lease task_id s.leases))
        × (l.released_at ≡ none)
        × (l.expires_at ≡ now + lifetime)
        × (l.current_head ≡ current_head)
    unfolding claim_rows
    claim_lease = ground arith

    -- The new database: the lease is put, and of the tasks the authority is untouched.
    pub claim_leases : s'.leases ≡ put_lease l s.leases
    unfolding claim_rows add_event
    claim_leases = ground arith

    abbrev pub named : Task → Bool
    named t = eq_text t.task_id task_id && t.revision == task.revision

    pub claim_tasks :
        (spending : ℕ × ℕ) × (validated_budget_request rt task budget ≡ ok spending)
        × (l.budget_reserved ≡ spending.0)
        × (s'.tasks
            ≡ update_rows named
                (λ (t : Task). record t {
                  status = status_running;
                  revision = t.revision + 1;
                  current_step = some (codes "workspace-claimed");
                  assigned_runtime = runtime_id;
                  updated_at = now;
                })
                (update_rows named
                  (λ (t : Task). record t { budget_spent = finite (pos spending.1) })
                  s.tasks))
    unfolding claim_rows add_event
    claim_tasks = ground arith

  -- The checks of a claim before its transaction reads the lease.
  pub claim_workspace_starts :
      (path root : Text) (seconds : Value) (s : Store) (l : Lease) (s' : Store)
      → claim_workspace rt task_id run_id path root branch current_head seconds runtime_id budget
          now s
        ≡ ok (l, s')
      → (worktree : Text) × (lifetime : ℕ) × (task : Task) × (canonical_worktree_path rt path root
          ≡ ok worktree)
        × (ttl rt seconds ≡ ok lifetime)
        × (find_task task_id s.tasks ≡ some task)
        × (claim_rows rt task_id run_id worktree branch current_head lifetime runtime_id budget now
              task s
            ≡ ok (l, s'))
  unfolding claim_workspace
  claim_workspace_starts path root seconds s l s' h = ground arith

positive_ticks-pos : (f : Float) (n : ℕ) → positive_ticks f ≡ ok n → 0 < n
unfolding positive_ticks
positive_ticks-pos (finite (pos m)) n h = ground arith
positive_ticks-pos _ n h = cc

-- An accepted lifetime is positive.
pub ttl-pos : (rt : Runtime) (seconds : Value) (n : ℕ) → ttl rt seconds ≡ ok n → 0 < n
unfolding ttl
ttl-pos rt (bool b) n h = cc
ttl-pos rt v n h =
    let (f, _, e) =
      >>=-eq-ok (from_option ttl_not_positive (to_float rt.parse_float v)) positive_ticks h in
    positive_ticks-pos f n e
