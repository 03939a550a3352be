-- ===== src/Policy/Receipt.antt =====
-- Signed receipts of reviews: forgeboss/policy/reuse_review_authority.py. The arguments may be any
-- JSON values, `null` for `None`; `clock` is `time.time()`.
mod Terms
pub mod Soundness
pub mod RoundTrip
pub mod Readiness
mod Examples
unfoldable pub use Terms.*
use forge_boss.Base.{
  ℕ, ◌*◌, Bool, true, false, not, ◌&&◌, List, [], ◌∷◌, ◌++◌, Option, none, some, String,
  if◌then◌else◌, ltb, leb, map, Text, codes, eq_text, Result, ok, err, raise_if, or_raise,
  from_option, ◌>>=◌, ◌>>◌,
}
use forge_boss.Base.Int.{ℤ, pos, negsuc, ◌+ℤ◌}
use forge_boss.Casefold.{to_lower}
use forge_boss.Value.{
  tick, finite, Value, null, int, float, str, arr, obj, Fields, end, field, get, of_texts,
  append_field,
}
use forge_boss.Runtime.{Runtime}
use forge_boss.Store.Governance.{is_sha256, is_text}
use forge_boss.Envelope.{canonical, signature_prefix, digest_of}
use forge_boss.Policy.Signed.{check_signed, check_within}
use forge_boss.Policy.ReuseReview.{
  ReviewError, review_required, review_invalid, receipt_required, BuildReadiness, ReuseReview,
  strict_keys, is_one, clean_text, validate_reuse_review,
}
use forge_boss.Policy.SmallRepair.{
  RepairError, Binding, unicode_error, overflow_error, required_text, repository_of, base_sha_of,
  objective_sha256, allowed_paths, binding, bindings_agree, secret_bytes, timestamp, instant,
  classify_work_kind,
}

-- The guards on `ttl_seconds`, which give the lifetime in seconds
unfoldable pub receipt_lifetime : Value → Result ReceiptError ℕ
receipt_lifetime (int (pos n)) =
    if ltb 0 n && leb n max_receipt_ttl_seconds then ok n else err ttl_out_of_range
receipt_lifetime (int (negsuc n)) = err ttl_out_of_range
receipt_lifetime _ = err ttl_not_integer

-- `_text(value, label).lower()`
unfoldable pub lower_text : String → Value → Result RepairError Text
lower_text label value = do raw ← required_text label value; ok (map to_lower raw)

-- `not mismatches`
unfoldable pub claims_agree : Claim → Claim → Bool
claims_agree receipt expected =
    bindings_agree receipt.task expected.task
    && eq_text receipt.subsystem expected.subsystem
    && eq_text receipt.review_sha256 expected.review_sha256

-- `validate_reuse_review(reuse_review, expected_subsystem=_text(subsystem, "subsystem"))`; the
-- `_text` of both modules has the same messages.
unfoldable pub parse_review : Value → Value → Result ReviewError ReuseReview
parse_review subsystem review = do
  clean ← clean_text "subsystem" false subsystem
  validate_reuse_review (some (str clean)) review

module _ (rt : Runtime) where
  -- `except Exception` covers an invalid review and one that UTF-8 cannot encode.
  unfoldable pub review_digest : Value → Value → Result ReceiptError Text
  review_digest (obj review) subsystem = do
    clean ← of_input (required_text "subsystem" subsystem)
    or_raise not_signable (validate_reuse_review (some (str clean)) (obj review))
    encoded ← from_option not_signable (canonical rt (obj review))
    ok (rt.sha256_hex encoded)
  review_digest _ subsystem = do
    of_input (required_text "subsystem" subsystem)
    err review_not_object

  abbrev pub receipt_body : Claim → ℤ → ℤ → Fields
  receipt_body c issued expires = field "schema" (int (pos 1)) (
      field "type" (str receipt_type) (
        field "taskId" (str c.task.task_id) (
          field "repository" (str c.task.repository) (
            field "baseSha" (str c.task.base_sha) (
              field "objectiveSha256" (str c.task.objective_sha256) (
                field "allowedPaths" (arr (of_texts c.task.allowed_paths)) (
                  field "subsystem" (str c.subsystem) (
                    field "reviewSha256" (str c.review_sha256) (
                      field "issuedAt" (float (finite issued))
                        (field "expiresAt" (float (finite expires)) end))))))))))

  unfoldable pub issue_reuse_review_receipt :
      Value
      → Value
      → Value
      → Value
      → Value
      → Value
      → Value
      → List ℕ
      → Value
      → Value
      → ℤ
      → Result ReceiptError Fields
  issue_reuse_review_receipt task_id repository base_sha objective paths subsystem review secret ttl
        now clock =
      do
        key ← of_input (secret_bytes secret)
        seconds ← receipt_lifetime ttl
        issued ← of_input (instant clock now)
        clean ← of_input (required_text "subsystem" subsystem)
        review_sha256 ← review_digest review (str clean)
        bound ← of_input (binding rt task_id repository base_sha objective paths)
        let claim : Claim = record {
          task = bound;
          subsystem = clean;
          review_sha256 = review_sha256;
        }
        let body = receipt_body claim issued (rt.add_float issued (pos (seconds * tick)))
        digest ← from_option (input unicode_error) (digest_of rt key body)
        ok (append_field body "signature" (str (signature_prefix ++ digest)))

  -- What the arguments say
  unfoldable pub expected_claim :
      Value → Value → Value → Value → Value → Value → Value → Result ReceiptError Claim
  expected_claim task_id repository base_sha objective paths subsystem review = do
    bound ← of_input (binding rt task_id repository base_sha objective paths)
    clean ← of_input (required_text "subsystem" subsystem)
    review_sha256 ← review_digest review (str clean)
    ok (record { task = bound; subsystem = clean; review_sha256 = review_sha256 })

  -- What the receipt says
  unfoldable pub receipt_claim : Fields → Result ReceiptError Claim
  receipt_claim receipt = do
    task ← of_input (required_text "receipt.taskId" (get "taskId" receipt))
    repo ← of_input (repository_of rt (get "repository" receipt))
    base ← of_input (base_sha_of (get "baseSha" receipt))
    objective ← of_input (lower_text "receipt.objectiveSha256" (get "objectiveSha256" receipt))
    allowed ← of_input (allowed_paths rt (get "allowedPaths" receipt))
    subsystem ← of_input (required_text "receipt.subsystem" (get "subsystem" receipt))
    review ← of_input (lower_text "receipt.reviewSha256" (get "reviewSha256" receipt))
    raise_if (not (is_sha256 objective)) objective_not_hex
    raise_if (not (is_sha256 review)) review_not_hex
    ok (record {
      task = record {
        task_id = task;
        repository = repo;
        base_sha = base;
        objective_sha256 = objective;
        allowed_paths = allowed;
      };
      subsystem = subsystem;
      review_sha256 = review;
    })

  unfoldable pub verify_receipt :
      Value
      → Value
      → Value
      → Value
      → Value
      → Value
      → Value
      → List ℕ
      → Value
      → ℤ
      → Fields
      → Result ReceiptError VerifiedReceipt
  verify_receipt task_id repository base_sha objective paths subsystem review key now clock
        receipt =
      do
        or_raise fields_mismatch (strict_keys receipt_keys "receipt" receipt)
        raise_if (not (is_one (get "schema" receipt))) unsupported_schema
        raise_if (not (is_text receipt_type (get "type" receipt))) unexpected_type
        expected ← expected_claim task_id repository base_sha objective paths subsystem review
        found ← receipt_claim receipt
        issued ← of_input (timestamp "issuedAt" (get "issuedAt" receipt))
        expires ← of_input (timestamp "expiresAt" (get "expiresAt" receipt))
        current ← of_input (instant clock now)
        check_within max_receipt_ttl_seconds ttl_invalid not_yet_valid expired issued expires
            current
        check_signed signature_invalid (input unicode_error) signature_mismatch rt key receipt
        raise_if (not (claims_agree found expected)) binding_mismatch
        ok (record { claim = found; issued_at = issued; expires_at = expires })

  unfoldable pub verify_reuse_review_receipt :
      Value
      → Value
      → Value
      → Value
      → Value
      → Value
      → Value
      → Value
      → List ℕ
      → Value
      → ℤ
      → Result ReceiptError VerifiedReceipt
  verify_reuse_review_receipt (obj receipt) task_id repository base_sha objective paths subsystem
        review secret now clock =
      do
        key ← of_input (secret_bytes secret)
        verify_receipt task_id repository base_sha objective paths subsystem review key now clock
            receipt
  verify_reuse_review_receipt _ task_id repository base_sha objective paths subsystem review secret
        now clock =
      do key ← of_input (secret_bytes secret); err receipt_not_object

  -- The end of `evaluate_authorized_reuse_readiness`, for a review that is accepted
  unfoldable pub receipted :
      Value
      → Value
      → Value
      → Value
      → Value
      → Value
      → Value
      → Value
      → List ℕ
      → Value
      → ℤ
      → ReuseReview
      → Result ReceiptError BuildReadiness
  receipted null task_id repository base_sha objective paths subsystem review secret now clock
        parsed =
      ok (blocked receipt_required)
  receipted receipt task_id repository base_sha objective paths subsystem review secret now clock
        parsed =
      do
        verify_reuse_review_receipt receipt task_id repository base_sha objective paths subsystem
            review secret now clock
        ok (ready_with parsed)

  unfoldable pub authorized_review :
      Value
      → Value
      → Value
      → Value
      → Value
      → Value
      → Value
      → Value
      → List ℕ
      → Value
      → ℤ
      → Result ReceiptError BuildReadiness
  authorized_review null task_id repository base_sha objective paths subsystem receipt secret now
        clock =
      ok (blocked review_required)
  authorized_review review task_id repository base_sha objective paths subsystem receipt secret now
        clock =
      elim (parse_review subsystem review) [
        | err e ↦ ok (blocked (review_invalid e))
        | ok parsed ↦
            receipted receipt task_id repository base_sha objective paths subsystem review secret
              now clock parsed
      ]

  unfoldable pub evaluate_authorized_reuse_readiness :
      Value
      → Value
      → Value
      → Value
      → Value
      → List ℕ
      → Value
      → Value
      → Value
      → Value
      → Value
      → ℤ
      → Result ReceiptError BuildReadiness
  evaluate_authorized_reuse_readiness task_id repository base_sha objective paths secret exemption
        subsystem review receipt now clock =
      do
        kind ← of_exemption (
            classify_work_kind rt task_id repository base_sha objective paths secret exemption now
              clock)
        if eq_text kind (codes "small-repair")
            then ok exempt
            else authorized_review review task_id repository base_sha objective paths subsystem
                receipt secret now clock
