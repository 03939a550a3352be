-- ===== src/Policy/SmallRepair/RoundTrip.antt =====
-- Issued exemptions, and their acceptance.
use forge_boss.Base.{
  ℕ, ◌*◌, ◌<◌, ◌≡◌, refl, subst, true, List, ◌++◌, some, arith, Text, eq_text, ok, from_option,
  from_option-eq-ok, ◌>>=◌, >>=-eq-ok,
}
use forge_boss.Base.Int.{ℤ, pos, ◌≤ℤ◌, ◌<ℤ◌, ◌-ℤ◌, ◌+ℤ◌}
use forge_boss.Value.{
  tick, Value, null, obj, arr, str, Fields, get, has, without, append_field, of_texts,
}
use forge_boss.Runtime.{Runtime}
use forge_boss.Store.Governance.{is_sha256}
use forge_boss.Envelope.{signature_prefix, digest_of}
use forge_boss.Policy.ReuseReview.{strict_keys, keys_within}
use forge_boss.Policy.Signed.{check_signed, check_within}
use forge_boss.Policy.Signed.Laws.{
  check_signed_of_digest, check_within_of_timely, near_lifetime, IsNear, digest_of-is_sha256,
}
use forge_boss.Policy.SmallRepair.Bindings.{
  binding_entries, required_text_relabel, token_objective-digest, bindings_agree_refl,
  objective-is_sha256,
}
use forge_boss.Policy.SmallRepair.{
  signature_invalid, signature_mismatch, ttl_invalid, not_yet_valid, expired, unicode_error,
  VerifiedExemption, Binding, max_ttl_seconds, token_keys, token_body, secret_bytes, instant,
  timestamp, lifetime, binding, token_binding, verify_token, issue_small_repair_exemption,
  verify_small_repair_exemption,
}

abbrev pub granted : Binding → ℤ → ℤ → VerifiedExemption
granted b issued expires = record {
  task_id = b.task_id;
  repository = b.repository;
  base_sha = b.base_sha;
  objective_sha256 = b.objective_sha256;
  allowed_paths = b.allowed_paths;
  issued_at = issued;
  expires_at = expires;
}

module _ (rt : Runtime)
    (hashes : (data_bytes : List ℕ) → is_sha256 (rt.sha256_hex data_bytes) ≡ true)
    (digests : (key data_bytes : List ℕ) → is_sha256 (rt.hmac_hex key data_bytes) ≡ true) where
  module _ (b : Binding) (objective : Text)
      (normal : binding rt
          (str b.task_id)
          (str b.repository)
          (str b.base_sha)
          (str objective)
          (arr (of_texts b.allowed_paths))
        ≡ ok b) where
    token_binding_of_body :
        (issued expires : ℤ) (signature : Value)
        → token_binding rt (append_field (token_body rt b issued expires) "signature" signature)
          ≡ ok b
    unfolding token_binding get append_field
    token_binding_of_body issued expires signature =
        let (task, repo, base, hash, allowed) = binding_entries rt b objective normal in
        rw (
          required_text_relabel "taskId" "token.taskId" (str b.task_id) b.task_id task,
          repo,
          base,
          token_objective-digest b.objective_sha256
              (objective-is_sha256 rt hashes (str objective) b.objective_sha256 hash),
          allowed,
        )

    abbrev signed_token : ℤ → ℤ → Text → Fields
    signed_token issued expires digest =
        append_field (token_body rt b issued expires) "signature" (str (signature_prefix ++ digest))

    check_signature-signed :
        (key : List ℕ) (issued expires : ℤ) (digest : Text)
        → digest_of rt key (token_body rt b issued expires) ≡ some digest
        → check_signed signature_invalid unicode_error signature_mismatch rt key
            (signed_token issued expires digest)
          ≡ ok tt
    unfolding get append_field without
    check_signature-signed key issued expires digest e =
        check_signed_of_digest signature_invalid unicode_error signature_mismatch rt key
          (signed_token issued expires digest) digest refl e
          (digest_of-is_sha256 rt digests key (token_body rt b issued expires) digest e)

    keys-signed :
        (issued expires : ℤ) (digest : Text)
        → strict_keys token_keys "token" (signed_token issued expires digest) ≡ ok tt
    unfolding strict_keys keys_within has append_field
    keys-signed issued expires digest = refl

    verify_token-signed :
        (key : List ℕ) (issued expires later : ℤ) (digest : Text)
        → digest_of rt key (token_body rt b issued expires) ≡ some digest
        → check_within max_ttl_seconds ttl_invalid not_yet_valid expired issued expires later
          ≡ ok tt
        → verify_token rt
            (str b.task_id)
            (str b.repository)
            (str b.base_sha)
            (str objective)
            (arr (of_texts b.allowed_paths))
            key
            null
            later
            (signed_token issued expires digest)
          ≡ ok (granted b issued expires)
    unfolding verify_token get append_field timestamp instant eq_text
    verify_token-signed key issued expires later digest e window = rw (
      keys-signed issued expires digest,
      normal,
      token_binding_of_body issued expires (str (signature_prefix ++ digest)),
      window,
      check_signature-signed key issued expires digest e,
      bindings_agree_refl b,
    )

    -- With digests of 64 lower-case hexadecimal digits, an exemption that is issued for a task in
    -- normal form, with a lifetime below the longest one and an expiry that rounding moves by less
    -- than a second, is accepted for that task from 30 seconds before it was issued until its expiry.
    pub verify-issue :
        (secret : List ℕ) (ttl now : Value) (clock issued : ℤ) (seconds : ℕ) (token : Fields)
        → instant clock now ≡ ok issued
        → lifetime ttl ≡ ok seconds
        → seconds < max_ttl_seconds
        → IsNear (issued +ℤ pos (seconds * tick)) (rt.add_float issued (pos (seconds * tick)))
        → issue_small_repair_exemption rt
            (str b.task_id)
            (str b.repository)
            (str b.base_sha)
            (str objective)
            (arr (of_texts b.allowed_paths))
            secret
            ttl
            now
            clock
          ≡ ok token
        → (later : ℤ) → (issued -ℤ pos (30 * tick)) ≤ℤ later
        → later <ℤ (rt.add_float issued (pos (seconds * tick)))
        → verify_small_repair_exemption rt
            (obj token)
            (str b.task_id)
            (str b.repository)
            (str b.base_sha)
            (str objective)
            (arr (of_texts b.allowed_paths))
            secret
            null
            later
          ≡ ok (granted b issued (rt.add_float issued (pos (seconds * tick))))
    unfolding issue_small_repair_exemption verify_small_repair_exemption
    verify-issue secret ttl now clock issued seconds token starts lasts within near h later begun
          unexpired =
        let expires : ℤ = rt.add_float issued (pos (seconds * tick)) in
        let body : Fields = token_body rt b issued expires in
        let (key, strong) : (x : List ℕ) × (secret_bytes secret ≡ ok x) = ground arith in
        let same_key : key ≡ secret = unfold secret_bytes in ground arith in
        let written : (from_option unicode_error (digest_of rt secret body) >>= λ digest.
        ok (append_field body "signature" (str (signature_prefix ++ digest))))
            ≡ ok token =
          ground arith in
        let (digest, signed, made) =
          >>=-eq-ok (from_option unicode_error (digest_of rt secret body)) _ written in
        let positive : 0 < seconds = unfold lifetime in ground arith in
        let times = near_lifetime max_ttl_seconds seconds issued expires positive within near in
        let window =
          check_within_of_timely max_ttl_seconds ttl_invalid not_yet_valid expired issued expires
            later
            (record { lasts = times.0; short = times.1; begun = begun; unexpired = unexpired }) in
        let digests_body : digest_of rt secret body ≡ some digest =
          from_option-eq-ok unicode_error (digest_of rt secret body) signed in
        let accepted = verify_token-signed secret issued expires later digest digests_body window in
        let same : signed_token issued expires digest ≡ token = cc in
        subst
          (λ tok.
            verify_small_repair_exemption rt (obj tok) (str b.task_id) (str b.repository)
              (str b.base_sha) (str objective) (arr (of_texts b.allowed_paths)) secret null later
            ≡ ok (granted b issued expires))
          same (rw (strong, same_key, accepted))
