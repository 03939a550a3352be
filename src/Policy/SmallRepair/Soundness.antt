-- ===== src/Policy/SmallRepair/Soundness.antt =====
-- What an accepted exemption is bound to.
use forge_boss.Base.{ℕ, ◌≡◌, ◌≤◌, sym, ap, ◌∙◌, true, List, arith, ok, length, ok_unless_err}
use forge_boss.Base.Int.{ℤ}
use forge_boss.Value.{Value, obj, Fields, get}
use forge_boss.Runtime.{Runtime}
use forge_boss.Policy.Signed.{check_signed, check_within}
use forge_boss.Policy.Signed.Laws.{IsSigned, IsTimely, check_signed-IsSigned, check_within-IsTimely}
use forge_boss.Policy.SmallRepair.Bindings.{bindings_agree_eq}
use forge_boss.Policy.SmallRepair.{
  unicode_error, VerifiedExemption, Binding, max_ttl_seconds, secret_bytes, instant, timestamp,
  bindings_agree, binding, token_binding, signature_invalid, signature_mismatch, ttl_invalid,
  not_yet_valid, expired, verify_token, verify_small_repair_exemption,
}

abbrev pub binding_of : VerifiedExemption → Binding
binding_of v = record {
  task_id = v.task_id;
  repository = v.repository;
  base_sha = v.base_sha;
  objective_sha256 = v.objective_sha256;
  allowed_paths = v.allowed_paths;
}

module _ (rt : Runtime) (task_id repository base_sha objective paths : Value) where
  -- The task of the arguments, the times of the token, and the signature
  pub record IsGranted (secret : List ℕ) (now : Value) (clock : ℤ) (token : Fields)
      (v : VerifiedExemption) : Type 0 where
    pub signed : IsSigned rt secret token
    pub strong : 32 ≤ length secret
    pub bound : binding rt task_id repository base_sha objective paths ≡ ok (binding_of v)
    pub claimed : token_binding rt token ≡ ok (binding_of v)
    pub issued : timestamp "issuedAt" (get "issuedAt" token) ≡ ok v.issued_at
    pub expires : timestamp "expiresAt" (get "expiresAt" token) ≡ ok v.expires_at
    pub timely :
        (current : ℤ) × (instant clock now ≡ ok current)
        × IsTimely max_ttl_seconds v.issued_at v.expires_at current

  verify_token-IsGranted :
      (secret : List ℕ) (now : Value) (clock : ℤ) (token : Fields) (v : VerifiedExemption)
      → 32 ≤ length secret
      → verify_token rt task_id repository base_sha objective paths secret now clock token ≡ ok v
      → IsGranted secret now clock token v
  unfolding verify_token
  verify_token-IsGranted secret now clock token v strong h =
      let (expected, wanted) : (e : Binding) × (binding rt task_id repository base_sha objective
              paths
            ≡ ok e) =
        ground arith in
      let (current, instants) = ok_unless_err (instant clock now) (λ e raised. ground arith) in
      let found : token_binding rt token ≡ ok (binding_of v) = ground arith in
      let issued : timestamp "issuedAt" (get "issuedAt" token) ≡ ok v.issued_at = ground arith in
      let expires : timestamp "expiresAt" (get "expiresAt" token) ≡ ok v.expires_at =
        ground arith in
      let window : check_within max_ttl_seconds ttl_invalid not_yet_valid expired v.issued_at
            v.expires_at current
          ≡ ok tt =
        ground arith in
      let signature : check_signed signature_invalid unicode_error signature_mismatch rt secret
            token
          ≡ ok tt =
        ground arith in
      let agree : bindings_agree (binding_of v) expected ≡ true = ground arith in
      record {
        signed =
            check_signed-IsSigned signature_invalid unicode_error signature_mismatch rt secret token
              signature;
        strong = strong;
        bound = wanted ∙ ap ok (sym (bindings_agree_eq (binding_of v) expected agree));
        claimed = found;
        issued = issued;
        expires = expires;
        timely = (
          current,
          instants,
          check_within-IsTimely max_ttl_seconds ttl_invalid not_yet_valid expired v.issued_at
              v.expires_at current window,
        );
      }

  -- An exemption that is accepted is signed under the secret, of at least 32 bytes, claims the task
  -- that the arguments describe, and is asked for within its lifetime of at most an hour, or up to
  -- 30 seconds before it.
  pub verify_small_repair_exemption-IsGranted :
      (secret : List ℕ) (now : Value) (clock : ℤ) (token : Fields) (v : VerifiedExemption)
      → verify_small_repair_exemption rt
          (obj token)
          task_id
          repository
          base_sha
          objective
          paths
          secret
          now
          clock
        ≡ ok v
      → IsGranted secret now clock token v
  unfolding verify_small_repair_exemption secret_bytes
  verify_small_repair_exemption-IsGranted secret now clock token v h =
      verify_token-IsGranted secret now clock token v (ground arith) (ground arith)
