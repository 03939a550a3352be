-- ===== src/Policy/SmallRepair/Terms.antt =====
-- The errors, constants and records of forgeboss/policy/small_repair_authority.py.
use forge_boss.Base.{ℕ, ◌*◌, List, [], ◌∷◌, String, Text, codes}
use forge_boss.Base.Int.{ℤ}

-- The messages of `SmallRepairAuthorityError`, and the two exceptions that pass through: a text
-- that UTF-8 cannot encode, and an integer that no float holds
pub data RepairError : Type 0 where
  not_a_string : String → RepairError
  text_required : String → RepairError
  control_characters : String → RepairError
  repository_not_owner_name : RepairError
  base_not_object_id : RepairError
  objective_not_string : RepairError
  objective_required : RepairError
  objective_nul : RepairError
  objective_too_large : RepairError
  paths_not_relative : RepairError
  path_traversal : RepairError
  path_is_root : RepairError
  paths_not_array : RepairError
  paths_empty : RepairError
  secret_too_short : RepairError
  not_numeric : String → RepairError
  not_finite : String → RepairError
  ttl_not_integer : RepairError
  ttl_out_of_range : RepairError
  token_not_object : RepairError
  fields_mismatch : RepairError
  unsupported_schema : RepairError
  unexpected_type : RepairError
  objective_not_hex : RepairError
  ttl_invalid : RepairError
  not_yet_valid : RepairError
  expired : RepairError
  signature_invalid : RepairError
  signature_mismatch : RepairError
  binding_mismatch : RepairError
  unicode_error : RepairError
  overflow_error : RepairError

abbrev pub max_ttl_seconds : ℕ
max_ttl_seconds = 60 * 60

abbrev pub token_type : Text
token_type = codes "small-repair-exemption"

abbrev pub token_keys : List String
token_keys =
    "schema" ∷ "type" ∷ "taskId" ∷ "repository" ∷ "baseSha" ∷ "objectiveSha256" ∷ "allowedPaths"
    ∷ "issuedAt" ∷ "expiresAt" ∷ "signature" ∷ []

pub record VerifiedExemption : Type 0 where
  pub task_id : Text
  pub repository : Text
  pub base_sha : Text
  pub objective_sha256 : Text
  pub allowed_paths : List Text
  pub issued_at : ℤ
  pub expires_at : ℤ

-- The task that a token is bound to
pub record Binding : Type 0 where
  pub task_id : Text
  pub repository : Text
  pub base_sha : Text
  pub objective_sha256 : Text
  pub allowed_paths : List Text
