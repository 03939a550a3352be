-- ===== src/Launch/Soundness.antt =====
-- What an attestation that is accepted claims.
use forge_boss.Base.{
  ℕ, ◌*◌, ◌≤◌, ◌≡◌, refl, sym, ap, ◌∙◌, true, not, ◌||◌, List, [], ◌∷◌, ◌++◌, Option, none, some,
  arith, Text, eq_text, eq_text_iff, starts_with, length, all, ltb, ok, raise_if, or_raise,
  from_option, from_option-eq-ok, >>=-eq-ok,
}
use forge_boss.Base.Int.{ℤ, pos, ◌≤ℤ◌, ◌<ℤ◌, ◌-ℤ◌, ◌+ℤ◌}
use forge_boss.Value.{
  tick, Value, null, obj, str, arr, Items, nil, cons, Fields, get, without, of_texts, to_float,
}
use forge_boss.Runtime.{Runtime}
use forge_boss.Store.Governance.{is_text}
use forge_boss.Envelope.{digest_of, signature_prefix}
use forge_boss.Policy.ReuseReview.{strict_keys}
use forge_boss.Policy.Signed.{drop_prefix}
use forge_boss.Policy.Signed.Laws.{IsSigned, drop_prefix-append}
use forge_boss.Launch.{
  fields_not_canonical, unsupported, secret_invalid, signature_invalid, unicode_error,
  digest_not_ascii, signature_mismatch, Launch, Bound, Host, required_fields, launch_kind, or_null,
  equals_amount, items_equal, equals_texts, equals_option, check_binding, check_nonce, check_times,
  signed_digest, finite_time, at_time, launch_binding, verify_fields,
  verify_governed_launch_attestation,
}

is_text_eq : (t : Text) (v : Value) → is_text t v ≡ true → v ≡ str t
is_text_eq t (str s) h = ground (arith, eq_text_iff s t, eq_text_iff t s)
is_text_eq t _ h = cc

items_equal_eq :
    (ts : List Text) (items : Items) → items_equal ts items ≡ true → items ≡ of_texts ts
unfolding items_equal of_texts
items_equal_eq [] nil h = refl
items_equal_eq (t ∷ ts) (cons (str s) items) h =
    let first : s ≡ t = ground (arith, eq_text_iff s t) in
    let rest : items ≡ of_texts ts = items_equal_eq ts items (ground arith) in cc
items_equal_eq _ _ h = cc

equals_texts_eq : (ts : List Text) (v : Value) → equals_texts ts v ≡ true → v ≡ arr (of_texts ts)
unfolding equals_texts
equals_texts_eq ts (arr items) h = ap arr (items_equal_eq ts items h)
equals_texts_eq ts _ h = cc

equals_option_eq : (o : Option Text) (v : Value) → equals_option o v ≡ true → v ≡ or_null o
unfolding equals_option
equals_option_eq none null h = refl
equals_option_eq (some t) (str s) h = ground (arith, eq_text_iff s t, eq_text_iff t s)
equals_option_eq _ _ h = cc

-- The attestation names what is bound.
pub record IsClaim (b : Bound) (att : Fields) : Type 0 where
  pub task_id : get "taskId" att ≡ str b.task_id
  pub repository : get "repository" att ≡ str b.repository
  pub base_sha : get "baseSha" att ≡ str b.base_sha
  pub run_id : get "runId" att ≡ str b.run_id
  pub worktree_path : get "worktreePath" att ≡ str b.worktree_path
  pub runtime_id : get "runtimeId" att ≡ str b.runtime_id
  pub runner_relpath : get "runnerRelpath" att ≡ str b.runner_relpath
  pub runner_sha256 : get "runnerSha256" att ≡ str b.runner_sha256
  pub allowed_paths : get "allowedPaths" att ≡ arr (of_texts b.allowed_paths)
  pub allowed_tools : get "allowedTools" att ≡ arr (of_texts b.allowed_tools)
  pub provider : get "provider" att ≡ or_null b.provider
  pub model : get "model" att ≡ or_null b.model
  pub budget_usd : equals_amount b.budget_usd (get "budgetUsd" att) ≡ true

check_binding-IsClaim : (b : Bound) (att : Fields) → check_binding b att ≡ ok tt → IsClaim b att
unfolding check_binding
check_binding-IsClaim b att h = record {
  task_id = is_text_eq _ _ (ground arith);
  repository = is_text_eq _ _ (ground arith);
  base_sha = is_text_eq _ _ (ground arith);
  run_id = is_text_eq _ _ (ground arith);
  worktree_path = is_text_eq _ _ (ground arith);
  runtime_id = is_text_eq _ _ (ground arith);
  runner_relpath = is_text_eq _ _ (ground arith);
  runner_sha256 = is_text_eq _ _ (ground arith);
  allowed_paths = equals_texts_eq _ _ (ground arith);
  allowed_tools = equals_texts_eq _ _ (ground arith);
  provider = equals_option_eq _ _ (ground arith);
  model = equals_option_eq _ _ (ground arith);
  budget_usd = ground arith;
}

signed_digest-prefix :
    (v : Value) (d : Text) → signed_digest v ≡ some d → v ≡ str (signature_prefix ++ d)
unfolding signed_digest
signed_digest-prefix (str s) d h =
    let starts : starts_with s signature_prefix ≡ true = ground arith in
    let rest : drop_prefix signature_prefix s ≡ d = ground arith in
    ap str (drop_prefix-append signature_prefix s starts ∙ ap (λ t. signature_prefix ++ t) rest)
signed_digest-prefix _ d h = cc

abbrev IsFresh : Value → Type 0
IsFresh v = (nonce : Text) × (v ≡ str nonce) × (16 ≤ length nonce)

check_nonce-IsFresh : (v : Value) → check_nonce v ≡ ok tt → IsFresh v
unfolding check_nonce
check_nonce-IsFresh (str nonce) h = (nonce, refl, ground arith)
check_nonce-IsFresh _ h = cc

-- The time is within a lifetime of at most 10 minutes, or up to 5 seconds before it.
pub record IsCurrent (issued expires now : ℤ) : Type 0 where
  pub begun : issued ≤ℤ (now +ℤ pos (5 * tick))
  pub unexpired : now <ℤ expires
  pub lasts : issued <ℤ expires
  pub short : (expires -ℤ issued) ≤ℤ pos (600 * tick)

check_times-IsCurrent :
    (issued expires now : ℤ) → check_times issued expires now ≡ ok tt → IsCurrent issued expires now
unfolding check_times
check_times-IsCurrent issued expires now h = record {
  begun = ground arith;
  unexpired = ground arith;
  lasts = ground arith;
  short = ground arith;
}

module _ (rt : Runtime) (host : Host) where
  pub record IsAttested (secret : List ℕ) (l : Launch) (now : ℤ) (att : Fields) : Type 0 where
    pub signed : IsSigned rt secret att
    pub strong : 32 ≤ length secret
    pub bound : Bound
    pub binding : launch_binding rt host l ≡ ok bound
    pub claims : IsClaim bound att
    pub issued : ℤ
    pub issued_at : finite_time (to_float rt.parse_float (get "issuedAt" att)) ≡ ok issued
    pub expires : ℤ
    pub expires_at : finite_time (to_float rt.parse_float (get "expiresAt" att)) ≡ ok expires
    pub current : IsCurrent issued expires now
    pub fresh : IsFresh (get "nonce" att)

  verify_fields-IsAttested :
      (secret : List ℕ) (l : Launch) (now : Option ℤ) (clock : ℤ) (att out : Fields)
      → verify_fields rt host secret l now clock att ≡ ok out
      → IsAttested secret l (at_time now clock) att × (out ≡ without "signature" att)
  unfolding verify_fields
  verify_fields-IsAttested secret l now clock att out h =
      let (_, fields, a) =
        >>=-eq-ok
          (or_raise fields_not_canonical (strict_keys required_fields "launch attestation" att)) _
          h in
      let (_, supported, b) =
        >>=-eq-ok
          (raise_if
            (not (equals_amount tick (get "schema" att))
              || not (is_text launch_kind (get "kind" att)))
            unsupported)
          _ a in
      let (_, strong, c) = >>=-eq-ok (raise_if (ltb (length secret) 32) secret_invalid) _ b in
      let (supplied, read, d) =
        >>=-eq-ok (from_option signature_invalid (signed_digest (get "signature" att))) _ c in
      let (wanted, digests, e) =
        >>=-eq-ok (from_option unicode_error (digest_of rt secret (without "signature" att))) _ d in
      let (_, plain, f) =
        >>=-eq-ok (raise_if (not (all (λ x. ltb x 128) supplied)) digest_not_ascii) _ e in
      let (_, same, g) =
        >>=-eq-ok (raise_if (not (eq_text supplied wanted)) signature_mismatch) _ f in
      let (issued, issued_at, i) =
        >>=-eq-ok (finite_time (to_float rt.parse_float (get "issuedAt" att))) _ g in
      let (expires, expires_at, j) =
        >>=-eq-ok (finite_time (to_float rt.parse_float (get "expiresAt" att))) _ i in
      let (_, current, k) = >>=-eq-ok (check_times issued expires (at_time now clock)) _ j in
      let (bound, binding, m) = >>=-eq-ok (launch_binding rt host l) _ k in
      let (_, claims, n) = >>=-eq-ok (check_binding bound att) _ m in
      let (_, fresh, last) = >>=-eq-ok (check_nonce (get "nonce" att)) _ n in
      let equal : wanted ≡ supplied = sym ((eq_text_iff supplied wanted).0 (ground arith)) in
      (
        record {
          signed = (
            supplied,
            signed_digest-prefix _ supplied (from_option-eq-ok signature_invalid _ read),
            from_option-eq-ok unicode_error _ digests ∙ ap some equal,
          );
          strong = ground arith;
          bound = bound;
          binding = binding;
          claims = check_binding-IsClaim bound att claims;
          issued = issued;
          issued_at = issued_at;
          expires = expires;
          expires_at = expires_at;
          current = check_times-IsCurrent issued expires (at_time now clock) current;
          fresh = check_nonce-IsFresh (get "nonce" att) fresh;
        },
        ground arith,
      )

  -- An attestation that is accepted is signed under the secret, of at least 32 bytes, names the task,
  -- the run, the reviewed runner, the paths, tools, provider, model and budget of this launch, is
  -- within its lifetime of at most 10 minutes, or up to 5 seconds before it, and has a nonce of at
  -- least 16 characters; what is returned is the attestation without its signature.
  pub verify_governed_launch_attestation-IsAttested :
      (secret : List ℕ) (l : Launch) (now : Option ℤ) (clock : ℤ) (attestation : Value)
      (out : Fields)
      → verify_governed_launch_attestation rt host secret l now clock attestation ≡ ok out
      → (att : Fields) × (attestation ≡ obj att)
        × IsAttested secret l (at_time now clock) att
        × (out ≡ without "signature" att)
  unfolding verify_governed_launch_attestation
  verify_governed_launch_attestation-IsAttested secret l now clock (obj att) out h =
      let (attested, same) = verify_fields-IsAttested secret l now clock att out h in
      (att, refl, attested, same)
  verify_governed_launch_attestation-IsAttested secret l now clock _ out h = cc
