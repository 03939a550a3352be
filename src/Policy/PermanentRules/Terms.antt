-- ===== src/Policy/PermanentRules/Terms.antt =====
-- The contract that forgeboss/policy/permanent_rules.py expects, its errors and its records.
use forge_boss.Base.{ℕ, suc, zero, ◌+◌, ◌/◌, ◌%◌, String, List, [], ◌∷◌, Text, codes}

-- `PermanentRulesError`, one constructor for each message, and `not_encodable`, the `ValueError` of
-- `_canonical_bytes`
pub data RulesError : Type 0 where
  not_a_string : Text → RulesError
  text_required : Text → RulesError
  control_characters : Text → RulesError
  not_an_array : Text → RulesError
  duplicate_values : Text → RulesError
  digest_not_string : RulesError
  digest_not_hex : RulesError
  duplicate_key : String → RulesError
  constant_forbidden : Text → RulesError
  file_missing : RulesError
  file_unreadable : RulesError
  not_json : RulesError
  root_not_object : RulesError
  top_level_mismatch : RulesError
  not_encodable : RulesError
  digest_mismatch : RulesError
  unsupported_schema : RulesError
  unexpected_ruleset_id : RulesError
  unsupported_version : RulesError
  unexpected_status : RulesError
  unexpected_scopes : RulesError
  unexpected_precedence : RulesError
  rules_not_array : RulesError
  rule_not_object : RulesError
  rule_fields_mismatch : RulesError
  duplicate_rule_id : Text → RulesError
  rules_mismatch : RulesError
  records_mismatch : RulesError
  rule_unavailable : Text → RulesError

abbrev pub expected_ruleset_id : Text
expected_ruleset_id = codes "FORGEBOSS_PERMANENT_PRODUCT_RULES"

abbrev pub expected_ruleset_version : Text
expected_ruleset_version = codes "1.1.0"

abbrev pub expected_status : Text
expected_status = codes "PERMANENT_PRODUCT_CONTRACT"

abbrev pub expected_scopes : List Text
expected_scopes = codes "forgeboss" ∷ codes "projects_built_by_forgeboss" ∷ []

abbrev pub expected_precedence : List Text
expected_precedence =
    codes "runtime_authority"
    ∷ codes "permanent_rules"
    ∷ codes "project_authority"
    ∷ codes "project_decisions"
    ∷ codes "worker_contracts"
    ∷ codes "model_or_tool_output"
    ∷ []

-- The identifiers from `n` on, with three digits
unfoldable pub numbered_ids : ℕ → ℕ → List Text
numbered_ids zero n = []
numbered_ids (suc count) n =
    (b'F'
      ∷ b'B'
      ∷ b'-'
      ∷ b'P'
      ∷ b'E'
      ∷ b'R'
      ∷ b'M'
      ∷ b'-'
      ∷ (b'0' + n / 100 % 10)
      ∷ (b'0' + n / 10 % 10)
      ∷ (b'0' + n % 10)
      ∷ [])
    ∷ numbered_ids count (n + 1)

unfoldable pub expected_rule_ids : List Text
unfolding numbered_ids
expected_rule_ids = numbered_ids 48 1

abbrev pub expected_structured_records : List Text
expected_structured_records =
    codes "PROJECT_IDEA"
    ∷ codes "REQUIREMENTS"
    ∷ codes "UPSTREAM_REUSE_REVIEW"
    ∷ codes "ARCHITECTURE"
    ∷ codes "AUTHORITY_MODEL"
    ∷ codes "SAFETY_RULES"
    ∷ codes "TEST_MATRIX"
    ∷ codes "DECISIONS"
    ∷ codes "COMPONENT_REGISTRY"
    ∷ codes "WORKER_REGISTRY"
    ∷ codes "ACTIVE_RUNS"
    ∷ codes "EVIDENCE_MANIFEST"
    ∷ codes "KNOWN_ISSUES"
    ∷ codes "STATUS"
    ∷ codes "RELEASE_PROOF"
    ∷ codes "DATA_POLICY"
    ∷ codes "NETWORK_POLICY"
    ∷ codes "BACKUP_MANIFEST"
    ∷ codes "AUDIT_TRAIL"
    ∷ codes "COMPATIBILITY_MATRIX"
    ∷ []

abbrev pub expected_top_level_keys : List String
expected_top_level_keys =
    "schema" ∷ "ruleset_id" ∷ "ruleset_version" ∷ "status" ∷ "applies_to" ∷ "precedence" ∷ "rules"
    ∷ "required_structured_records" ∷ "note" ∷ []

abbrev pub expected_rule_keys : List String
expected_rule_keys = "id" ∷ "name" ∷ "law" ∷ []

abbrev pub pinned_canonical_sha256 : Text
pinned_canonical_sha256 = codes "ca18162a9a284d01ee3fe6c30839912f34de61c2ef2cc408bc8eec5e2ee0eebd"

pub record Rule : Type 0 where
  pub id : Text
  pub name : Text
  pub law : Text

pub record PermanentRuleset : Type 0 where
  pub ruleset_id : Text
  pub ruleset_version : Text
  pub status : Text
  pub applies_to : List Text
  pub precedence : List Text
  -- The mapping from identifiers to rules, in the order of the document
  pub rules : List Rule
  pub required_structured_records : List Text
  pub note : Text
  pub sha256 : Text
  pub canonical_sha256 : Text
  pub source_path : Text
