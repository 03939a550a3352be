-- ===== src/Policy/Receipt/Examples.antt =====
-- A receipt on concrete data, and the theorems at it.
use forge_boss.Base.{
  ◌*◌, ◌≡◌, refl, ◌⊎◌, ◌++◌, arith, codes, ok, eq_text, elem, strip, lstrip, rstrip, split,
  replace_char, starts_with,
}
use forge_boss.Base.Int.{pos, ◌+ℤ◌, ◌-ℤ◌}
use forge_boss.Value.{
  tick, null, int, str, arr, obj, Fields, of_texts, to_list, get, has, without, append_field,
}
use forge_boss.Runtime.Plain.{plain, plain_digest}
use forge_boss.Store.Governance.{is_sha256}
use forge_boss.Store.Identity.{repository_identity, git_object_id, is_object_id}
use forge_boss.Scheduler.Paths.{canonical_path}
use forge_boss.Envelope.{digest_of, canonical, utf8, signature_prefix}
use forge_boss.Policy.ReuseReview.{
  strict_keys, keys_within, clean_text, has_duplicate, clean_texts, searches, is_selected,
  check_selected, check_candidate, read_candidate, candidate, read_candidates, candidate_list,
  selected_of, check_subsystem, check_decision, validate_fields, validate_reuse_review,
}
use forge_boss.Policy.Signed.{drop_prefix, supplied_digest, check_signed, check_within}
use forge_boss.Policy.Signed.Samples.{plain_digest-is_sha256, secret}
use forge_boss.Policy.SmallRepair.{
  secret_bytes, instant, timestamp, required_text, base_sha_of, repository_of, objective_sha256,
  allowed_path, allowed_paths, path_set, insert_once, starts_with_drive, binding, bindings_agree,
  classify_work_kind,
}
use forge_boss.Policy.SmallRepair.Examples.{fix}
use forge_boss.Policy.Examples.{fields, accepted}
use forge_boss.Policy.Receipt.{
  Claim, VerifiedReceipt, ready_with, receipt_body, receipt_lifetime, lower_text, claims_agree,
  parse_review, review_digest, issue_reuse_review_receipt, expected_claim, receipt_claim,
  verify_receipt, verify_reuse_review_receipt, receipted, authorized_review,
  evaluate_authorized_reuse_readiness,
}
use forge_boss.Policy.Receipt.Soundness.{IsReceipted, verify_reuse_review_receipt-IsReceipted}
use forge_boss.Policy.Receipt.RoundTrip.{verify-issue_receipt}
use forge_boss.Policy.Receipt.Readiness.{
  IsExempted, IsApproved, IsStopped, evaluate_authorized_reuse_readiness-answers,
}

abbrev review : Fields
review = fields (codes "permissive")

abbrev claim : Claim
claim = record {
  task = fix;
  subsystem = codes "storage";
  review_sha256 = plain_digest (codes "{}");
}

abbrev receipt : Fields
receipt =
    append_field (receipt_body plain claim (pos (100 * tick)) (pos (1000 * tick))) "signature"
      (str (signature_prefix ++ plain_digest (secret ++ codes "{}")))

-- The operations that the tests run
opened : Unit {0}
unfolding plain repository_identity git_object_id is_object_id canonical_path utf8 canonical
    digest_of strict_keys keys_within secret_bytes instant timestamp required_text base_sha_of
    repository_of objective_sha256 allowed_path allowed_paths path_set insert_once starts_with_drive
    binding check_within check_signed supplied_digest drop_prefix bindings_agree eq_text elem strip
    lstrip rstrip split replace_char starts_with get has without append_field of_texts to_list
    is_sha256 ◌+ℤ◌ ◌-ℤ◌ validate_reuse_review validate_fields check_decision check_subsystem
    selected_of candidate_list read_candidates candidate read_candidate check_candidate
    check_selected is_selected searches clean_texts has_duplicate clean_text receipt_lifetime
    lower_text claims_agree parse_review review_digest issue_reuse_review_receipt expected_claim
    receipt_claim verify_receipt verify_reuse_review_receipt receipted authorized_review
    evaluate_authorized_reuse_readiness classify_work_kind
opened = tt

claim_is_normal :
    expected_claim plain
      (str fix.task_id)
      (str fix.repository)
      (str fix.base_sha)
      (str (codes "fix it"))
      (arr (of_texts fix.allowed_paths))
      (str (codes "storage"))
      (obj review)
    ≡ ok claim
unfolding opened
claim_is_normal = refl

abbrev verified : VerifiedReceipt
verified = record {
  claim = claim;
  issued_at = pos (100 * tick);
  expires_at = pos (100 * tick) +ℤ pos (900 * tick);
}

issued_runs :
    issue_reuse_review_receipt plain
      (str fix.task_id)
      (str fix.repository)
      (str fix.base_sha)
      (str (codes "fix it"))
      (arr (of_texts fix.allowed_paths))
      (str (codes "storage"))
      (obj review)
      secret
      (int (pos 900))
      null
      (pos (100 * tick))
    ≡ ok receipt
unfolding opened
issued_runs = refl

verify-issue_receipt_example :
    verify_reuse_review_receipt plain
      (obj receipt)
      (str fix.task_id)
      (str fix.repository)
      (str fix.base_sha)
      (str (codes "fix it"))
      (arr (of_texts fix.allowed_paths))
      (str (codes "storage"))
      (obj review)
      secret
      null
      (pos (80 * tick))
    ≡ ok verified
unfolding opened
verify-issue_receipt_example =
    verify-issue_receipt plain (λ d. plain_digest-is_sha256 d)
      (λ k d. plain_digest-is_sha256 (k ++ d)) claim (codes "fix it") review claim_is_normal secret
      (int (pos 900)) null (pos (100 * tick)) (pos (100 * tick)) 900 receipt refl refl
      (ground arith) (record { above = ground arith; below = ground arith }) issued_runs
      (pos (80 * tick)) (ground arith) (ground arith)

verify_reuse_review_receipt-IsReceipted_example :
    IsReceipted plain
      (str fix.task_id)
      (str fix.repository)
      (str fix.base_sha)
      (str (codes "fix it"))
      (arr (of_texts fix.allowed_paths))
      (str (codes "storage"))
      (obj review)
      secret
      null
      (pos (80 * tick))
      receipt
      verified
verify_reuse_review_receipt-IsReceipted_example =
    verify_reuse_review_receipt-IsReceipted plain (str fix.task_id) (str fix.repository)
      (str fix.base_sha) (str (codes "fix it")) (arr (of_texts fix.allowed_paths))
      (str (codes "storage")) (obj review) secret null (pos (80 * tick)) receipt verified
      verify-issue_receipt_example

approved :
    evaluate_authorized_reuse_readiness plain
      (str fix.task_id)
      (str fix.repository)
      (str fix.base_sha)
      (str (codes "fix it"))
      (arr (of_texts fix.allowed_paths))
      secret
      null
      (str (codes "storage"))
      (obj review)
      (obj receipt)
      null
      (pos (80 * tick))
    ≡ ok (ready_with accepted)
unfolding opened
approved = refl

evaluate_authorized_reuse_readiness-answers_example :
    IsExempted plain
      (str fix.task_id)
      (str fix.repository)
      (str fix.base_sha)
      (str (codes "fix it"))
      (arr (of_texts fix.allowed_paths))
      secret
      null
      (str (codes "storage"))
      (obj review)
      (obj receipt)
      null
      (pos (80 * tick))
      (ready_with accepted)
    ⊎ (IsApproved plain
          (str fix.task_id)
          (str fix.repository)
          (str fix.base_sha)
          (str (codes "fix it"))
          (arr (of_texts fix.allowed_paths))
          secret
          null
          (str (codes "storage"))
          (obj review)
          (obj receipt)
          null
          (pos (80 * tick))
          (ready_with accepted)
        ⊎ IsStopped plain
            (str fix.task_id)
            (str fix.repository)
            (str fix.base_sha)
            (str (codes "fix it"))
            (arr (of_texts fix.allowed_paths))
            secret
            null
            (str (codes "storage"))
            (obj review)
            (obj receipt)
            null
            (pos (80 * tick))
            (ready_with accepted))
evaluate_authorized_reuse_readiness-answers_example =
    evaluate_authorized_reuse_readiness-answers plain (str fix.task_id) (str fix.repository)
      (str fix.base_sha) (str (codes "fix it")) (arr (of_texts fix.allowed_paths)) secret null
      (str (codes "storage")) (obj review) (obj receipt) null (pos (80 * tick))
      (ready_with accepted) approved
