-- ===== src/Launch/RoundTrip.antt =====
-- Attestations that are issued, and their acceptance.
use forge_boss.Base.{
  ℕ, ◌*◌, ◌≤◌, ◌≡◌, refl, ap, subst, true, false, ◌||◌, List, [], ◌∷◌, ◌++◌, Option, none, some,
  zero, suc, arith, Text, eq_text, eq_text_refl, starts_with, length, ltb, ok, raise_if,
  from_option, from_option-eq-ok, >>=-eq-ok, ◌==◌,
}
use forge_boss.Base.Int.{ℤ, pos, negsuc, ◌≤ℤ◌, ◌<ℤ◌, ◌-ℤ◌, ◌+ℤ◌, ltb_ℤ, leb_ℤ}
use forge_boss.Value.{
  tick, obj, str, arr, Fields, get, has, append_field, without, of_texts, to_float,
}
use forge_boss.Runtime.{Runtime}
use forge_boss.Store.Governance.{is_sha256}
use forge_boss.Envelope.{utf8, digest_of, signature_prefix}
use forge_boss.Policy.ReuseReview.{strict_keys, keys_within}
use forge_boss.Policy.Signed.{drop_prefix}
use forge_boss.Policy.Signed.Laws.{is_ascii_hex, digest_of-is_sha256, near_lifetime, IsNear}
use forge_boss.Launch.{
  secret_invalid, unicode_error, ttl_out_of_range, Launch, Bound, Host, take_text,
  max_launch_ttl_seconds, or_null, equals_amount, items_equal, equals_texts, equals_option,
  check_binding, check_nonce, launch_body, seconds, nonce_of, check_times, signed_digest,
  finite_time, at_time, launch_binding, verify_fields, issue_governed_launch_attestation,
  verify_governed_launch_attestation,
}

equals_texts_refl : (ts : List Text) → equals_texts ts (arr (of_texts ts)) ≡ true
unfolding equals_texts items_equal of_texts
equals_texts_refl [] = refl
equals_texts_refl (t ∷ ts) = rw (eq_text_refl t, equals_texts_refl ts)

equals_option-or_null : (o : Option Text) → equals_option o (or_null o) ≡ true
unfolding equals_option
equals_option-or_null none = refl
equals_option-or_null (some t) = eq_text_refl t

equals_amount_refl : (n : ℕ) → (n == n) ≡ true
equals_amount_refl n = ground arith

abbrev attestation : Bound → ℤ → ℤ → Text → Text → Fields
attestation b issued expires nonce digest =
    append_field (launch_body b issued expires nonce) "signature" (str (signature_prefix ++ digest))

check_binding_of_body :
    (b : Bound) (issued expires : ℤ) (nonce digest : Text)
    → check_binding b (attestation b issued expires nonce digest) ≡ ok tt
unfolding check_binding get append_field equals_amount
check_binding_of_body b issued expires nonce digest = rw (
  eq_text_refl b.task_id,
  eq_text_refl b.repository,
  eq_text_refl b.base_sha,
  eq_text_refl b.run_id,
  eq_text_refl b.worktree_path,
  eq_text_refl b.runtime_id,
  eq_text_refl b.runner_relpath,
  eq_text_refl b.runner_sha256,
  equals_texts_refl b.allowed_paths,
  equals_texts_refl b.allowed_tools,
  equals_option-or_null b.provider,
  equals_option-or_null b.model,
  equals_amount_refl b.budget_usd,
)

check_times_of_ttl :
    (issued expires now : ℤ)
    → issued <ℤ expires
    → (expires -ℤ issued) ≤ℤ pos (600 * tick)
    → issued ≤ℤ (now +ℤ pos (5 * tick))
    → now <ℤ expires
    → check_times issued expires now ≡ ok tt
unfolding check_times
check_times_of_ttl issued expires now lasts short begun unexpired = ground arith

length-take_text : (n : ℕ) (s : Text) → n ≤ length s → length (take_text n s) ≡ n
unfolding take_text
length-take_text zero s h = refl
length-take_text (suc n) [] h = absurd (ground arith)
length-take_text (suc n) (c ∷ s) h = ap suc (length-take_text n s (ground arith))

-- No nonce, or one of at least 16 characters
abbrev pub IsLongNonce : Option Text → Type 0
IsLongNonce none = Unit
IsLongNonce (some s) = 16 ≤ length s

module _ (rt : Runtime) (host : Host)
    (hashes : (data_bytes : List ℕ) → is_sha256 (rt.sha256_hex data_bytes) ≡ true)
    (digests : (key data_bytes : List ℕ) → is_sha256 (rt.hmac_hex key data_bytes) ≡ true) where
  verify_fields-issued :
      (secret : List ℕ) (l : Launch) (b : Bound) (issued expires clock : ℤ) (now : Option ℤ)
      (nonce digest : Text)
      → ltb (length secret) 32 ≡ false
      → launch_binding rt host l ≡ ok b
      → digest_of rt secret (launch_body b issued expires nonce) ≡ some digest
      → check_times issued expires (at_time now clock) ≡ ok tt
      → ltb (length nonce) 16 ≡ false
      → verify_fields rt host secret l now clock (attestation b issued expires nonce digest)
        ≡ ok (launch_body b issued expires nonce)
  unfolding verify_fields strict_keys keys_within has get append_field without equals_amount eq_text
      to_float finite_time signed_digest starts_with drop_prefix check_nonce
  verify_fields-issued secret l b issued expires clock now nonce digest strong bound signed current
        long =
      let hex =
        digest_of-is_sha256 rt digests secret (launch_body b issued expires nonce) digest signed in
      rw (
        strong,
        signed,
        is_ascii_hex digest (unfold is_sha256 in ground (arith, hex)),
        eq_text_refl digest,
        current,
        bound,
        check_binding_of_body b issued expires nonce digest,
        long,
      )

  length-nonce_of :
      (l : Launch) (issued : ℤ) (given : Option Text) (fresh : Text)
      → IsLongNonce given
      → nonce_of rt host l issued given ≡ ok fresh
      → ltb (length fresh) 16 ≡ false
  unfolding nonce_of
  length-nonce_of l issued (some (c ∷ s)) fresh long h =
      let same : c ∷ s ≡ fresh = ground arith in
      subst (λ x. ltb (length x) 16 ≡ false) same (ground arith)
  length-nonce_of l issued (some []) fresh long h = absurd (ground arith)
  length-nonce_of l issued none fresh long h =
      let (encoded, read, last) = >>=-eq-ok (from_option unicode_error (utf8 _)) _ h in
      let same : take_text 32 (rt.sha256_hex encoded) ≡ fresh = ground arith in
      let full : length (rt.sha256_hex encoded) ≡ 64 =
        unfold is_sha256 in ground (arith, hashes encoded) in
      let counts = length-take_text 32 (rt.sha256_hex encoded) (ground arith) in
      subst (λ x. ltb (length x) 16 ≡ false) same (ground arith)

  -- With digests of 64 lower-case hexadecimal digits, an attestation that is issued for a launch,
  -- with no nonce of its own or one of at least 16 characters, a lifetime below the longest one and
  -- an expiry that rounding moves by less than a second, is accepted for that launch from 5 seconds
  -- before it was issued until its expiry.
  pub verify-issue_attestation :
      (secret : List ℕ) (l : Launch) (ttl : ℤ) (now : Option ℤ) (given : Option Text) (clock : ℤ)
      (att : Fields)
      → IsLongNonce given
      → ttl <ℤ pos max_launch_ttl_seconds
      → IsNear (at_time now clock +ℤ seconds ttl) (rt.add_float (at_time now clock) (seconds ttl))
      → issue_governed_launch_attestation rt host secret l ttl now given clock ≡ ok att
      → (later : ℤ) → at_time now clock ≤ℤ (later +ℤ pos (5 * tick))
      → later <ℤ rt.add_float (at_time now clock) (seconds ttl)
      → (out : Fields) × (verify_governed_launch_attestation rt host secret l none later (obj att)
          ≡ ok out)
        × (out ≡ without "signature" att)
  unfolding issue_governed_launch_attestation verify_governed_launch_attestation
  verify-issue_attestation secret l (negsuc n) now given clock att long within near h later begun
        unexpired =
      absurd (ground arith)
  verify-issue_attestation secret l (pos n) now given clock att long within near h later begun
        unexpired =
      let issued : ℤ = at_time now clock in
      let expires : ℤ = rt.add_float issued (seconds (pos n)) in
      let (_, strong, a) = >>=-eq-ok (raise_if (ltb (length secret) 32) secret_invalid) _ h in
      let (_, ranged, b) =
        >>=-eq-ok
          (raise_if (leb_ℤ (pos n) (pos 0) || ltb_ℤ (pos max_launch_ttl_seconds) (pos n))
            ttl_out_of_range)
          _ a in
      let (bound, binds, c) = >>=-eq-ok (launch_binding rt host l) _ b in
      let (fresh, named, d) = >>=-eq-ok (nonce_of rt host l issued given) _ c in
      let (digest, signed, last) =
        >>=-eq-ok
          (from_option unicode_error (digest_of rt secret (launch_body bound issued expires fresh)))
          _ d in
      let same : attestation bound issued expires fresh digest ≡ att = ground arith in
      let (lasts, short) =
        near_lifetime max_launch_ttl_seconds n issued expires (ground arith) (ground arith) near in
      let current = check_times_of_ttl issued expires later lasts short begun unexpired in
      let accepted : verify_fields rt host secret l none later
            (attestation bound issued expires fresh digest)
          ≡ ok (launch_body bound issued expires fresh) =
        verify_fields-issued secret l bound issued expires later none fresh digest (ground arith)
          binds (from_option-eq-ok unicode_error _ signed) current
          (length-nonce_of l issued given fresh long named) in
      let body : Fields = launch_body bound issued expires fresh in
      subst
        (λ x.
          (out : Fields) × (verify_fields rt host secret l none later x ≡ ok out)
          × (out ≡ without "signature" x))
        same (body, accepted, unfold without append_field in refl)
