-- ===== src/Launch/Terms.antt =====
-- The constants, errors and records of forgeboss/control/governed_launch.py.
use forge_boss.Base.{ℕ, String, List, [], ◌∷◌, Option, Bool, Text, codes}
use forge_boss.Base.Int.{ℤ}
use forge_boss.Value.{Value}

abbrev pub launch_kind : Text
launch_kind = codes "forgeboss-governed-launch"

abbrev pub max_launch_ttl_seconds : ℕ
max_launch_ttl_seconds = 600

abbrev pub required_fields : List String
required_fields =
    "schema" ∷ "kind" ∷ "taskId" ∷ "repository" ∷ "baseSha" ∷ "runId" ∷ "worktreePath" ∷ "runtimeId"
    ∷ "runnerRelpath" ∷ "runnerSha256" ∷ "allowedPaths" ∷ "allowedTools" ∷ "provider" ∷ "model"
    ∷ "budgetUsd" ∷ "issuedAt" ∷ "expiresAt" ∷ "nonce" ∷ "signature" ∷ []

-- The messages of `GovernedLaunchAttestationError`, and three exceptions of Python that pass
-- through: `unicode_error` for a text that UTF-8 cannot encode, `digest_not_ascii` for the
-- `TypeError` of `hmac.compare_digest`, and `runner_unreadable` for what `read_text` raises
pub data LaunchError : Type 0 where
  runtime_not_approved : LaunchError
  runner_is_symlink : LaunchError
  runner_missing : LaunchError
  runner_moved : LaunchError
  runner_not_file : LaunchError
  runner_unreadable : LaunchError
  runner_not_reviewed : LaunchError
  paths_not_array : LaunchError
  path_invalid : LaunchError
  path_aliases : LaunchError
  tools_not_array : LaunchError
  tool_invalid : LaunchError
  tool_duplicates : LaunchError
  budget_not_numeric : LaunchError
  budget_not_finite : LaunchError
  secret_invalid : LaunchError
  ttl_out_of_range : LaunchError
  not_an_object : LaunchError
  fields_not_canonical : LaunchError
  unsupported : LaunchError
  signature_invalid : LaunchError
  signature_mismatch : LaunchError
  times_invalid : LaunchError
  in_the_future : LaunchError
  expired : LaunchError
  ttl_invalid : LaunchError
  binding_mismatch : String → LaunchError
  nonce_invalid : LaunchError
  unicode_error : LaunchError
  digest_not_ascii : LaunchError

pub record Runner : Type 0 where
  pub path : Text
  pub sha256 : Text

-- The keyword arguments that issuing and verifying share. Those that the source annotates as `str`
-- are texts, `provider` and `model` are texts or `None`, the others any JSON values.
pub record Launch : Type 0 where
  pub root : Text
  pub task_id : Text
  pub repository : Text
  pub base_sha : Text
  pub run_id : Text
  pub worktree_path : Text
  pub runtime_id : Text
  pub allowed_paths : Value
  pub allowed_tools : Value
  pub provider : Option Text
  pub model : Option Text
  pub budget_usd : Value

-- What an attestation binds; the budget in ticks
pub record Bound : Type 0 where
  pub task_id : Text
  pub repository : Text
  pub base_sha : Text
  pub run_id : Text
  pub worktree_path : Text
  pub runtime_id : Text
  pub runner_relpath : Text
  pub runner_sha256 : Text
  pub allowed_paths : List Text
  pub allowed_tools : List Text
  pub provider : Option Text
  pub model : Option Text
  pub budget_usd : ℕ

-- What the code takes from the host: paths, the file of the runner, and the text of a time
pub record Host : Type 0 where
  -- `Path(a) / b`, `path.absolute()`
  pub below : Text → Text → Text
  pub absolute : Text → Text
  pub is_symlink : Text → Bool
  -- `path.resolve(strict=True)`, with `none` for `FileNotFoundError`
  pub resolve_strict : Text → Option Text
  pub is_file : Text → Bool
  -- `path.read_text(encoding="utf-8")`, with `none` for what it raises
  pub read_text : Text → Option Text
  -- `str(now)`
  pub show_time : ℤ → Text
