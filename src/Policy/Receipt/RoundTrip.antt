-- ===== src/Policy/Receipt/RoundTrip.antt =====
-- Issued receipts, and their acceptance.
use forge_boss.Base.{
  ℕ, ◌*◌, ◌<◌, ◌≡◌, refl, subst, true, List, [], ◌∷◌, ◌++◌, some, arith, Text, String, eq_text,
  eq_text_refl, ok, all, from_option, from_option-eq-ok, ◌>>=◌, >>=-eq-ok,
}
use forge_boss.Base.Int.{ℤ, pos, ◌≤ℤ◌, ◌<ℤ◌, ◌-ℤ◌, ◌+ℤ◌}
use forge_boss.Value.{
  tick, Value, null, obj, arr, str, Fields, get, has, without, append_field, of_texts,
}
use forge_boss.Runtime.{Runtime}
use forge_boss.Store.Identity.{is_lower_hex}
use forge_boss.Store.Governance.{is_sha256}
use forge_boss.Envelope.{canonical, signature_prefix, digest_of}
use forge_boss.Policy.ReuseReview.{strict_keys, keys_within}
use forge_boss.Policy.Signed.{check_signed, check_within}
use forge_boss.Policy.Signed.Laws.{
  strip_hex, no_control, to_lower_hex, check_signed_of_digest, check_within_of_timely,
  digest_of-is_sha256, near_lifetime, IsNear,
}
use forge_boss.Policy.SmallRepair.{
  unicode_error, secret_bytes, timestamp, instant, binding, required_text,
}
use forge_boss.Policy.SmallRepair.Bindings.{
  binding_entries, required_text_relabel, bindings_agree_refl, objective-is_sha256,
}
use forge_boss.Policy.Receipt.{
  input, Claim, max_receipt_ttl_seconds, receipt_keys, receipt_lifetime, lower_text, claims_agree,
  review_digest, receipt_body, issue_reuse_review_receipt, expected_claim, receipt_claim,
  verify_receipt, verify_reuse_review_receipt, ttl_invalid, not_yet_valid, expired,
  signature_invalid, signature_mismatch,
}

lower_text-digest :
    (label : String) (s : Text) → is_sha256 s ≡ true → lower_text label (str s) ≡ ok s
unfolding lower_text required_text
lower_text-digest label [] h = absurd (unfold is_sha256 in cc)
lower_text-digest label (c ∷ s) h =
    let hex : all is_lower_hex (c ∷ s) ≡ true = unfold is_sha256 in ground arith in
    rw (strip_hex (c ∷ s) hex, no_control (c ∷ s) hex, to_lower_hex (c ∷ s) hex)

claims_agree_refl : (c : Claim) → claims_agree c c ≡ true
unfolding claims_agree
claims_agree_refl c =
    rw (bindings_agree_refl c.task, eq_text_refl c.subsystem, eq_text_refl c.review_sha256)

module _ (rt : Runtime)
    (hashes : (data_bytes : List ℕ) → is_sha256 (rt.sha256_hex data_bytes) ≡ true)
    (digests : (key data_bytes : List ℕ) → is_sha256 (rt.hmac_hex key data_bytes) ≡ true) where
  review_digest-is_sha256 :
      (review : Fields) (subsystem : Value) (d : Text)
      → review_digest rt (obj review) subsystem ≡ ok d
      → is_sha256 d ≡ true
  unfolding review_digest
  review_digest-is_sha256 review subsystem d h =
      let (encoded, read) : (x : List ℕ) × (canonical rt (obj review) ≡ some x) = ground arith in
      let same : rt.sha256_hex encoded ≡ d = ground arith in
      subst (λ x. is_sha256 x ≡ true) same (hashes encoded)

  module _ (c : Claim) (objective : Text) (review : Fields)
      (normal : expected_claim rt
          (str c.task.task_id)
          (str c.task.repository)
          (str c.task.base_sha)
          (str objective)
          (arr (of_texts c.task.allowed_paths))
          (str c.subsystem)
          (obj review)
        ≡ ok c) where
    bound :
        binding rt
          (str c.task.task_id)
          (str c.task.repository)
          (str c.task.base_sha)
          (str objective)
          (arr (of_texts c.task.allowed_paths))
        ≡ ok c.task
    unfolding expected_claim
    bound = ground arith

    named : required_text "subsystem" (str c.subsystem) ≡ ok c.subsystem
    unfolding expected_claim
    named = ground arith

    hashed : review_digest rt (obj review) (str c.subsystem) ≡ ok c.review_sha256
    unfolding expected_claim
    hashed = ground (arith, named)

    receipt_claim_of_body :
        (issued expires : ℤ) (signature : Value)
        → receipt_claim rt (append_field (receipt_body rt c issued expires) "signature" signature)
          ≡ ok c
    unfolding receipt_claim get append_field
    receipt_claim_of_body issued expires signature =
        let (task, repo, base, hash, allowed) = binding_entries rt c.task objective bound in
        let objective_hex =
          objective-is_sha256 rt hashes (str objective) c.task.objective_sha256 hash in
        let review_hex = review_digest-is_sha256 review (str c.subsystem) c.review_sha256 hashed in
        rw (
          required_text_relabel "taskId" "receipt.taskId" (str c.task.task_id) c.task.task_id task,
          repo,
          base,
          lower_text-digest "receipt.objectiveSha256" c.task.objective_sha256 objective_hex,
          allowed,
          required_text_relabel "subsystem" "receipt.subsystem" (str c.subsystem) c.subsystem named,
          lower_text-digest "receipt.reviewSha256" c.review_sha256 review_hex,
          objective_hex,
          review_hex,
        )

    abbrev signed_receipt : ℤ → ℤ → Text → Fields
    signed_receipt issued expires digest =
        append_field (receipt_body rt c issued expires) "signature"
          (str (signature_prefix ++ digest))

    keys-signed :
        (issued expires : ℤ) (digest : Text)
        → strict_keys receipt_keys "receipt" (signed_receipt issued expires digest) ≡ ok tt
    unfolding strict_keys keys_within has append_field
    keys-signed issued expires digest = refl

    check_signed-receipt :
        (key : List ℕ) (issued expires : ℤ) (digest : Text)
        → digest_of rt key (receipt_body rt c issued expires) ≡ some digest
        → check_signed signature_invalid
            (input unicode_error)
            signature_mismatch
            rt
            key
            (signed_receipt issued expires digest)
          ≡ ok tt
    unfolding get append_field without
    check_signed-receipt key issued expires digest e =
        check_signed_of_digest signature_invalid (input unicode_error) signature_mismatch rt key
          (signed_receipt issued expires digest) digest refl e
          (digest_of-is_sha256 rt digests key (receipt_body rt c issued expires) digest e)

    verify_receipt-signed :
        (key : List ℕ) (issued expires later : ℤ) (digest : Text)
        → digest_of rt key (receipt_body rt c issued expires) ≡ some digest
        → check_within max_receipt_ttl_seconds ttl_invalid not_yet_valid expired issued expires
            later
          ≡ ok tt
        → verify_receipt rt
            (str c.task.task_id)
            (str c.task.repository)
            (str c.task.base_sha)
            (str objective)
            (arr (of_texts c.task.allowed_paths))
            (str c.subsystem)
            (obj review)
            key
            null
            later
            (signed_receipt issued expires digest)
          ≡ ok (record { claim = c; issued_at = issued; expires_at = expires })
    unfolding verify_receipt get append_field timestamp instant eq_text
    verify_receipt-signed key issued expires later digest e window = rw (
      keys-signed issued expires digest,
      normal,
      receipt_claim_of_body issued expires (str (signature_prefix ++ digest)),
      window,
      check_signed-receipt key issued expires digest e,
      claims_agree_refl c,
    )

    -- With digests of 64 lower-case hexadecimal digits, a receipt that is issued for a task, a
    -- subsystem and a review in normal form, with a lifetime below the longest one and an expiry
    -- that rounding moves by less than a second, is accepted for them from 30 seconds before it was
    -- issued until its expiry.
    pub verify-issue_receipt :
        (secret : List ℕ) (ttl now : Value) (clock issued : ℤ) (seconds : ℕ) (receipt : Fields)
        → instant clock now ≡ ok issued
        → receipt_lifetime ttl ≡ ok seconds
        → seconds < max_receipt_ttl_seconds
        → IsNear (issued +ℤ pos (seconds * tick)) (rt.add_float issued (pos (seconds * tick)))
        → issue_reuse_review_receipt rt
            (str c.task.task_id)
            (str c.task.repository)
            (str c.task.base_sha)
            (str objective)
            (arr (of_texts c.task.allowed_paths))
            (str c.subsystem)
            (obj review)
            secret
            ttl
            now
            clock
          ≡ ok receipt
        → (later : ℤ) → (issued -ℤ pos (30 * tick)) ≤ℤ later
        → later <ℤ (rt.add_float issued (pos (seconds * tick)))
        → verify_reuse_review_receipt rt
            (obj receipt)
            (str c.task.task_id)
            (str c.task.repository)
            (str c.task.base_sha)
            (str objective)
            (arr (of_texts c.task.allowed_paths))
            (str c.subsystem)
            (obj review)
            secret
            null
            later
          ≡ ok (record {
            claim = c;
            issued_at = issued;
            expires_at = rt.add_float issued (pos (seconds * tick));
          })
    unfolding issue_reuse_review_receipt verify_reuse_review_receipt
    verify-issue_receipt secret ttl now clock issued seconds receipt starts lasts within near h
          later begun unexpired =
        let expires : ℤ = rt.add_float issued (pos (seconds * tick)) in
        let body : Fields = receipt_body rt c issued expires in
        let (key, strong) : (x : List ℕ) × (secret_bytes secret ≡ ok x) = ground arith in
        let same_key : key ≡ secret = unfold secret_bytes in ground arith in
        let written : (from_option (input unicode_error) (digest_of rt secret body) >>= λ digest.
        ok (append_field body "signature" (str (signature_prefix ++ digest))))
            ≡ ok receipt =
          ground (arith, bound, named, hashed) in
        let (digest, signed, made) =
          >>=-eq-ok (from_option (input unicode_error) (digest_of rt secret body)) _ written in
        let positive : 0 < seconds = unfold receipt_lifetime in ground arith in
        let times =
          near_lifetime max_receipt_ttl_seconds seconds issued expires positive within near in
        let window =
          check_within_of_timely max_receipt_ttl_seconds ttl_invalid not_yet_valid expired issued
            expires later
            (record { lasts = times.0; short = times.1; begun = begun; unexpired = unexpired }) in
        let digests_body : digest_of rt secret body ≡ some digest =
          from_option-eq-ok (input unicode_error) (digest_of rt secret body) signed in
        let accepted =
          verify_receipt-signed secret issued expires later digest digests_body window in
        let same : signed_receipt issued expires digest ≡ receipt = cc in
        subst
          (λ x.
            verify_reuse_review_receipt rt (obj x) (str c.task.task_id) (str c.task.repository)
              (str c.task.base_sha) (str objective) (arr (of_texts c.task.allowed_paths))
              (str c.subsystem) (obj review) secret null later
            ≡ ok (record { claim = c; issued_at = issued; expires_at = expires }))
          same (rw (strong, same_key, accepted))
