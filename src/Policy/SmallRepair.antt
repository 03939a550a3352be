-- ===== src/Policy/SmallRepair.antt =====
-- Signed exemptions of small repairs: forgeboss/policy/small_repair_authority.py. The arguments of
-- `issue` and `verify` may be any JSON values, `null` for `None`; the secret is the list of its
-- bytes, and `clock` is `time.time()`.
mod Terms
mod Inputs
pub mod Bindings
pub mod Soundness
pub mod RoundTrip
pub mod Examples
unfoldable pub use Terms.*
unfoldable pub use Inputs.*
use forge_boss.Base.{
  ℕ, ◌+◌, ◌*◌, ◌==◌, Bool, true, false, not, ◌&&◌, ◌||◌, List, [], ◌∷◌, ◌++◌, Option, none, some,
  String, if◌then◌else◌, ltb, leb, any, all, map, length, is_empty, Text, codes, eq_text,
  same_texts, starts_with, elem, replace_char, split, strip, is_control, Result, ok, err, raise_if,
  or_raise, from_option, ◌>>=◌, ◌>>◌,
}
use forge_boss.Base.Int.{ℤ, pos, negsuc, ◌+ℤ◌, ◌-ℤ◌, ltb_ℤ, leb_ℤ}
use forge_boss.Casefold.{to_lower}
use forge_boss.Value.{
  tick, Float, finite, Value, null, bool, int, float, str, arr, obj, Items, Fields, end, field, get,
  to_list, of_texts, append_field, without, float_of_int,
}
use forge_boss.Runtime.{Runtime}
use forge_boss.Scheduler.Paths.{canonical_path}
use forge_boss.Scheduler.Batches.{leb_text}
use forge_boss.Store.Identity.{repository_identity, git_object_id}
use forge_boss.Store.Governance.{is_sha256, is_text}
use forge_boss.Envelope.{utf8, signature_prefix, digest_of}
use forge_boss.Policy.Signed.{check_signed, check_within}
use forge_boss.Policy.ReuseReview.{strict_keys, keys_within, is_one, evaluate_build_readiness}

unfoldable pub token_objective : Value → Result RepairError Text
token_objective value = do
  raw ← required_text "token.objectiveSha256" value
  raise_if (not (is_sha256 (map to_lower raw))) objective_not_hex
  ok (map to_lower raw)

-- `not mismatches`
unfoldable pub bindings_agree : Binding → Binding → Bool
unfolding same_texts
bindings_agree token expected =
    eq_text token.task_id expected.task_id
    && eq_text token.repository expected.repository
    && eq_text token.base_sha expected.base_sha
    && eq_text token.objective_sha256 expected.objective_sha256
    && same_texts token.allowed_paths expected.allowed_paths

module _ (rt : Runtime) where
  abbrev pub token_body : Binding → ℤ → ℤ → Fields
  token_body b issued expires = field "schema" (int (pos 1)) (
      field "type" (str token_type) (
        field "taskId" (str b.task_id) (
          field "repository" (str b.repository) (
            field "baseSha" (str b.base_sha) (
              field "objectiveSha256" (str b.objective_sha256) (
                field "allowedPaths" (arr (of_texts b.allowed_paths)) (
                  field "issuedAt" (float (finite issued))
                    (field "expiresAt" (float (finite expires)) end))))))))

  unfoldable pub issue_small_repair_exemption :
      Value → Value → Value → Value → Value → List ℕ → Value → Value → ℤ → Result RepairError Fields
  issue_small_repair_exemption task_id repository base_sha objective paths secret ttl now clock = do
    key ← secret_bytes secret
    seconds ← lifetime ttl
    issued ← instant clock now
    bound ← binding rt task_id repository base_sha objective paths
    let body = token_body bound issued (rt.add_float issued (pos (seconds * tick)))
    digest ← from_option unicode_error (digest_of rt key body)
    ok (append_field body "signature" (str (signature_prefix ++ digest)))

  -- The entries that the token binds itself to
  unfoldable pub token_binding : Fields → Result RepairError Binding
  token_binding token = do
    task ← required_text "token.taskId" (get "taskId" token)
    repo ← repository_of rt (get "repository" token)
    base ← base_sha_of (get "baseSha" token)
    sha256 ← token_objective (get "objectiveSha256" token)
    allowed ← allowed_paths rt (get "allowedPaths" token)
    ok (record {
      task_id = task;
      repository = repo;
      base_sha = base;
      objective_sha256 = sha256;
      allowed_paths = allowed;
    })

  unfoldable pub verify_token :
      Value
      → Value
      → Value
      → Value
      → Value
      → List ℕ
      → Value
      → ℤ
      → Fields
      → Result RepairError VerifiedExemption
  verify_token task_id repository base_sha objective paths key now clock token = do
    or_raise fields_mismatch (strict_keys token_keys "token" token)
    raise_if (not (is_one (get "schema" token))) unsupported_schema
    raise_if (not (is_text token_type (get "type" token))) unexpected_type
    expected ← binding rt task_id repository base_sha objective paths
    found ← token_binding token
    issued ← timestamp "issuedAt" (get "issuedAt" token)
    expires ← timestamp "expiresAt" (get "expiresAt" token)
    current ← instant clock now
    check_within max_ttl_seconds ttl_invalid not_yet_valid expired issued expires current
    check_signed signature_invalid unicode_error signature_mismatch rt key token
    raise_if (not (bindings_agree found expected)) binding_mismatch
    ok (record {
      task_id = found.task_id;
      repository = found.repository;
      base_sha = found.base_sha;
      objective_sha256 = found.objective_sha256;
      allowed_paths = found.allowed_paths;
      issued_at = issued;
      expires_at = expires;
    })

  unfoldable pub verify_small_repair_exemption :
      Value
      → Value
      → Value
      → Value
      → Value
      → Value
      → List ℕ
      → Value
      → ℤ
      → Result RepairError VerifiedExemption
  verify_small_repair_exemption (obj token) task_id repository base_sha objective paths secret now
        clock =
      do
        key ← secret_bytes secret
        verify_token task_id repository base_sha objective paths key now clock token
  verify_small_repair_exemption _ task_id repository base_sha objective paths secret now clock = do
    key ← secret_bytes secret
    err token_not_object

  unfoldable pub classify_work_kind :
      Value → Value → Value → Value → Value → List ℕ → Value → Value → ℤ → Result RepairError Text
  classify_work_kind task_id repository base_sha objective paths secret null now clock =
      ok (codes "substantial-subsystem")
  classify_work_kind task_id repository base_sha objective paths secret exemption now clock = do
    verify_small_repair_exemption exemption task_id repository base_sha objective paths secret now
        clock
    ok (codes "small-repair")
