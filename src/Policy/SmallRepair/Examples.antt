-- ===== src/Policy/SmallRepair/Examples.antt =====
-- An exemption on concrete data, and the theorems at it.
use forge_boss.Base.{
  ◌*◌, ◌≡◌, refl, [], ◌∷◌, ◌++◌, arith, codes, ok, err, eq_text, elem, strip, lstrip, rstrip, split,
  replace_char, starts_with,
}
use forge_boss.Base.Int.{pos, ◌+ℤ◌, ◌-ℤ◌}
use forge_boss.Value.{
  tick, null, int, str, arr, obj, Fields, of_texts, to_list, get, has, without, append_field,
}
use forge_boss.Runtime.Plain.{plain, plain_digest}
use forge_boss.Policy.Signed.Samples.{plain_digest-is_sha256, secret, base}
use forge_boss.Store.Governance.{is_sha256}
use forge_boss.Store.Identity.{repository_identity, git_object_id, is_object_id}
use forge_boss.Scheduler.Paths.{canonical_path}
use forge_boss.Envelope.{digest_of, canonical, utf8, signature_prefix}
use forge_boss.Policy.ReuseReview.{strict_keys, keys_within}
use forge_boss.Policy.Signed.{drop_prefix, supplied_digest, check_signed, check_within}
use forge_boss.Policy.SmallRepair.{
  Binding, token_body, secret_bytes, lifetime, instant, timestamp, required_text, base_sha_of,
  repository_of, objective_sha256, allowed_path, allowed_paths, path_set, insert_once,
  starts_with_drive, binding, token_objective, token_binding, bindings_agree,
  issue_small_repair_exemption, verify_token, verify_small_repair_exemption, path_traversal,
}
use forge_boss.Policy.SmallRepair.Soundness.{IsGranted, verify_small_repair_exemption-IsGranted}
use forge_boss.Policy.SmallRepair.RoundTrip.{granted, verify-issue}

abbrev pub fix : Binding
fix = record {
  task_id = codes "T-1";
  repository = codes "owner/name";
  base_sha = base;
  objective_sha256 = plain_digest (codes "fix it");
  allowed_paths = codes "src/a" ∷ [];
}

-- The operations that the tests run
opened : Unit {0}
unfolding plain repository_identity git_object_id is_object_id canonical_path utf8 canonical
    digest_of strict_keys keys_within secret_bytes lifetime instant timestamp required_text
    base_sha_of repository_of objective_sha256 allowed_path allowed_paths path_set insert_once
    starts_with_drive binding token_objective token_binding check_within check_signed
    supplied_digest drop_prefix bindings_agree issue_small_repair_exemption verify_token
    verify_small_repair_exemption eq_text elem strip lstrip rstrip split replace_char starts_with
    get has without append_field of_texts to_list is_sha256 ◌+ℤ◌ ◌-ℤ◌
opened = tt

fix_is_normal :
    binding plain
      (str fix.task_id)
      (str fix.repository)
      (str fix.base_sha)
      (str (codes "fix it"))
      (arr (of_texts fix.allowed_paths))
    ≡ ok fix
unfolding opened
fix_is_normal = refl

-- A blank after the dots hides a step to the parent from the test for it, not from the canonical
-- path.
blank_hides_traversal : allowed_path plain (str (codes ".. /x")) ≡ ok (codes "../x")
unfolding opened
blank_hides_traversal = refl

traversal_refused : allowed_path plain (str (codes "../x")) ≡ err path_traversal
unfolding opened
traversal_refused = refl

abbrev token : Fields
token =
    append_field (token_body plain fix (pos (100 * tick)) (pos (1000 * tick))) "signature"
      (str (signature_prefix ++ plain_digest (secret ++ codes "{}")))

issued_runs :
    issue_small_repair_exemption plain
      (str fix.task_id)
      (str fix.repository)
      (str fix.base_sha)
      (str (codes "fix it"))
      (arr (of_texts fix.allowed_paths))
      secret
      (int (pos 900))
      null
      (pos (100 * tick))
    ≡ ok token
unfolding opened
issued_runs = refl

verify-issue_example :
    verify_small_repair_exemption plain
      (obj token)
      (str fix.task_id)
      (str fix.repository)
      (str fix.base_sha)
      (str (codes "fix it"))
      (arr (of_texts fix.allowed_paths))
      secret
      null
      (pos (80 * tick))
    ≡ ok (granted fix (pos (100 * tick)) (pos (100 * tick) +ℤ pos (900 * tick)))
unfolding opened
verify-issue_example =
    verify-issue plain (λ d. plain_digest-is_sha256 d) (λ k d. plain_digest-is_sha256 (k ++ d)) fix
      (codes "fix it") fix_is_normal secret (int (pos 900)) null (pos (100 * tick))
      (pos (100 * tick)) 900 token refl refl (ground arith)
      (record { above = ground arith; below = ground arith }) issued_runs (pos (80 * tick))
      (ground arith) (ground arith)

verify_small_repair_exemption-IsGranted_example :
    IsGranted plain
      (str fix.task_id)
      (str fix.repository)
      (str fix.base_sha)
      (str (codes "fix it"))
      (arr (of_texts fix.allowed_paths))
      secret
      null
      (pos (80 * tick))
      token
      (granted fix (pos (100 * tick)) (pos (100 * tick) +ℤ pos (900 * tick)))
verify_small_repair_exemption-IsGranted_example =
    verify_small_repair_exemption-IsGranted plain (str fix.task_id) (str fix.repository)
      (str fix.base_sha) (str (codes "fix it")) (arr (of_texts fix.allowed_paths)) secret null
      (pos (80 * tick)) token
      (granted fix (pos (100 * tick)) (pos (100 * tick) +ℤ pos (900 * tick))) verify-issue_example
