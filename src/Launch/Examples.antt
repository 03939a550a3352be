-- ===== src/Launch/Examples.antt =====
-- A launch on concrete data, and the theorems at it.
use forge_boss.Base.{
  ◌*◌, ◌≡◌, refl, true, false, List, [], ◌∷◌, ◌++◌, none, some, arith, Text, codes, eq_text, elem,
  split, strip, lstrip, rstrip, replace_char, starts_with, ok, err,
}
use forge_boss.Base.Int.{pos, ◌+ℤ◌, ◌-ℤ◌}
use forge_boss.Casefold.{casefold}
use forge_boss.Value.{
  tick, int, str, arr, obj, Items, nil, Fields, get, has, without, append_field, of_texts, to_list,
  to_float, float_of_int,
}
use forge_boss.Runtime.{Runtime}
use forge_boss.Runtime.Plain.{plain, plain_digest}
use forge_boss.Store.Governance.{is_sha256}
use forge_boss.Envelope.{utf8, canonical, digest_of, signature_prefix}
use forge_boss.Policy.ReuseReview.{strict_keys, keys_within}
use forge_boss.Policy.Signed.{drop_prefix}
use forge_boss.Policy.Signed.Samples.{plain_digest-is_sha256, secret, base}
use forge_boss.Launch.{
  path_aliases, runtime_not_approved, Runner, Launch, Bound, Host, launch_body, runtime_runner,
  drop_returns, unix_lines, no_symlinks, runner_path, runner_identity, collect_paths,
  normalise_paths, collect_tools, normalise_tools, finite_amount, finite_budget, launch_binding,
  take_text, equals_amount, items_equal, equals_texts, equals_option, check_binding, check_nonce,
  check_times, signed_digest, finite_time, nonce_of, issue_governed_launch_attestation,
  verify_fields, verify_governed_launch_attestation,
}
use forge_boss.Launch.Soundness.{IsAttested, verify_governed_launch_attestation-IsAttested}
use forge_boss.Launch.Arguments.{
  IsUnaliased, IsReviewed, slashed, normalise_paths-IsUnaliased, runner_identity-IsReviewed,
}
use forge_boss.Launch.RoundTrip.{verify-issue_attestation}

abbrev reviewed_digest : Text
reviewed_digest = codes "6d79947ae7ca21cd424295a62a3dbce41b25be62414c587d2c364d8dabb438b7"

-- A runtime in which every text has the digest of the reviewed runner
abbrev fixed : Runtime
fixed = record {
  table = plain.table;
  loads = λ t. none;
  dumps = λ v. codes "{}";
  parse_float = λ t. none;
  parse_decimal = λ t. none;
  add_float = λ a b. a +ℤ b;
  is_absolute = λ t. true;
  resolve = λ t. t;
  is_within = λ root t. true;
  sha256_hex = λ data_bytes. reviewed_digest;
  hmac_hex = λ key message. plain_digest (key ++ message);
}

abbrev disk : Host
disk = record {
  below = λ a b. a ++ (b'/' ∷ b);
  absolute = λ p. p;
  is_symlink = λ p. false;
  resolve_strict = λ p. some p;
  is_file = λ p. true;
  read_text = λ p. some (codes "run");
  show_time = λ z. codes "1.0";
}

abbrev launch : Launch
launch = record {
  root = codes "/r";
  task_id = codes "T-1";
  repository = codes "owner/name";
  base_sha = base;
  run_id = codes "R-1";
  worktree_path = codes "/w";
  runtime_id = codes "mini-swe";
  allowed_paths = arr (of_texts (codes "src" ∷ []));
  allowed_tools = arr nil;
  provider = none;
  model = some (codes "m");
  budget_usd = int (pos 2);
}

abbrev runner : Runner
runner = record { path = codes "forgeboss/executors/mini_swe_runner.py"; sha256 = reviewed_digest }

abbrev bound : Bound
bound = record {
  task_id = codes "T-1";
  repository = codes "owner/name";
  base_sha = base;
  run_id = codes "R-1";
  worktree_path = codes "/w";
  runtime_id = codes "mini-swe";
  runner_relpath = runner.path;
  runner_sha256 = reviewed_digest;
  allowed_paths = codes "src" ∷ [];
  allowed_tools = [];
  provider = none;
  model = some (codes "m");
  budget_usd = 2 * tick;
}

abbrev body : Fields
body =
    launch_body bound (pos (100 * tick)) (pos (220 * tick))
      (codes "6d79947ae7ca21cd424295a62a3dbce4")

abbrev signed : Fields
signed =
    append_field body "signature" (str (signature_prefix ++ plain_digest (secret ++ codes "{}")))

-- The operations that the tests run
opened : Unit {0}
unfolding plain eq_text elem split strip lstrip rstrip replace_char starts_with ◌+ℤ◌ ◌-ℤ◌ casefold
    get has without append_field of_texts to_list to_float float_of_int utf8 canonical digest_of
    strict_keys keys_within drop_prefix runtime_runner drop_returns unix_lines no_symlinks
    runner_path runner_identity collect_paths normalise_paths collect_tools normalise_tools
    finite_amount finite_budget launch_binding take_text equals_amount items_equal equals_texts
    equals_option check_binding check_nonce check_times signed_digest finite_time nonce_of
    issue_governed_launch_attestation verify_fields verify_governed_launch_attestation is_sha256
opened = tt

issued_runs :
    issue_governed_launch_attestation fixed disk secret launch
      (pos 120)
      none
      none
      (pos (100 * tick))
    ≡ ok signed
unfolding opened
issued_runs = refl

accepted :
    verify_governed_launch_attestation fixed disk secret launch none (pos (95 * tick)) (obj signed)
    ≡ ok body
unfolding opened
accepted = refl

aliases_refused :
    normalise_paths fixed disk (arr (of_texts (codes "src\\a" ∷ codes "SRC/A" ∷ [])))
    ≡ err path_aliases
unfolding opened
aliases_refused = refl

unknown_runtime : runner_identity fixed disk (codes "/r") (codes "other") ≡ err runtime_not_approved
unfolding opened
unknown_runtime = refl

verify-issue_attestation_example :
    (out : Fields) × (verify_governed_launch_attestation fixed disk secret launch none
        (pos (95 * tick))
        (obj signed)
      ≡ ok out)
    × (out ≡ without "signature" signed)
unfolding opened
verify-issue_attestation_example =
    verify-issue_attestation fixed disk (λ d. refl) (λ k d. plain_digest-is_sha256 (k ++ d)) secret
      launch (pos 120) none none (pos (100 * tick)) signed tt (ground arith)
      (record { above = ground arith; below = ground arith }) issued_runs (pos (95 * tick))
      (ground arith) (ground arith)

verify_governed_launch_attestation-IsAttested_example :
    (att : Fields) × (obj signed ≡ obj att)
    × IsAttested fixed disk secret launch (pos (95 * tick)) att
    × (body ≡ without "signature" att)
verify_governed_launch_attestation-IsAttested_example =
    verify_governed_launch_attestation-IsAttested fixed disk secret launch none (pos (95 * tick))
      (obj signed) body accepted

paths_run :
    normalise_paths fixed disk (arr (of_texts (codes "src\\a" ∷ codes "lib" ∷ [])))
    ≡ ok (codes "src/a" ∷ codes "lib" ∷ [])
unfolding opened
paths_run = refl

normalise_paths-IsUnaliased_example :
    IsUnaliased fixed disk (codes "src/a" ∷ codes "lib" ∷ [])
    × ((items : Items) × (texts : List Text) × (arr (of_texts (codes "src\\a" ∷ codes "lib" ∷ []))
          ≡ arr items)
        × (to_list items ≡ to_list (of_texts texts))
        × (codes "src/a" ∷ codes "lib" ∷ [] ≡ slashed fixed disk texts))
normalise_paths-IsUnaliased_example =
    normalise_paths-IsUnaliased fixed disk (arr (of_texts (codes "src\\a" ∷ codes "lib" ∷ [])))
      (codes "src/a" ∷ codes "lib" ∷ []) paths_run

runner_runs : runner_identity fixed disk (codes "/r") (codes "mini-swe") ≡ ok runner
unfolding opened
runner_runs = refl

runner_identity-IsReviewed_example : IsReviewed fixed disk (codes "/r") (codes "mini-swe") runner
runner_identity-IsReviewed_example =
    runner_identity-IsReviewed fixed disk (codes "/r") (codes "mini-swe") runner runner_runs
