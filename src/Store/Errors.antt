-- ===== src/Store/Errors.antt =====
-- The exceptions that forgeboss/control/store.py raises, one constructor for each message.
pub data StoreError : Type 0 where
  -- `WorkspaceCollisionError`, by its code
  repository_state_invalid base_sha_invalid scope_state_invalid : StoreError
  worktree_collision writable_scope_collision : StoreError
  -- `BudgetReservationError`, by its code
  budget_state_invalid budget_invalid budget_exceeded : StoreError
  -- `ValueError` of the path, the lifetime and the governance record
  worktree_identity_empty worktree_path_required worktree_path_denied worktree_path_escapes :
      StoreError
  ttl_not_positive : StoreError
  governance_without_mode governance_mode_unsupported work_kind_invalid subsystem_required :
      StoreError
  digest_invalid small_repair_evidence_invalid substantial_evidence_invalid : StoreError
  budget_not_numeric : StoreError
  -- `KeyError`, `RuntimeError`, `PermissionError`
  task_not_found lease_already_active claim_head_mismatch : StoreError
  writer_lease_mismatch writer_lease_expired writer_head_mismatch : StoreError
  lost_during_heartbeat lost_during_release run_lost task_lost task_changed : StoreError
  -- `sqlite3.IntegrityError`: a primary key is taken, or a column may not be null
  integrity_error : StoreError
