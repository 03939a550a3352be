-- ===== src/Envelope/Verify/Laws.antt =====
-- Envelopes that are accepted, and those that the daemon signs.
use forge_boss.Base.{
  Option-cases, inl, inr, ℕ, ◌≡◌, refl, ap, ◌∙◌, subst, true, false, not, List, [], ◌∷◌, ◌++◌,
  Option, some, arith, String, Text, eq_text_iff, eq_text_refl, starts_with, all, All, ltb, ok,
  raise_if, from_option, from_option-eq-ok, >>=-eq-ok,
}
use forge_boss.Base.Int.{ℤ, pos}
use forge_boss.Value.{Float, Value, obj, str, Fields, get, has, without, to_float}
use forge_boss.Value.Signing.{
  replace, get-replace, get-replace_elsewhere, has-replace, has-replace_elsewhere,
  keys_within-replace, without-replace,
}
use forge_boss.Runtime.{Runtime}
use forge_boss.Runtime.Conversions.{Conversions, to_int, text_of}
use forge_boss.Envelope.{canonical, digest_of, signature_prefix, sign_envelope}
use forge_boss.Policy.ReuseReview.{keys_within}
use forge_boss.Policy.Signed.{drop_prefix}
use forge_boss.Policy.Signed.Laws.{drop_prefix-append}
use forge_boss.Envelope.Verify.Entries.{IsLater, is_past-IsLater, IsAmong, has-IsAmong, all-has}
use forge_boss.Envelope.Verify.{
  not_a_number, unicode_error, envelope_keys, required_keys, is_past, is_unit, current_time,
  unexpected_keys, missing_keys, unsupported_version, unsupported_protocol, expired,
  unsupported_signature, digest_not_ascii, check_envelope, verify_envelope,
}

-- The required keys but for the signature
abbrev pub unsigned_keys : List String
unsigned_keys =
    "envelopeVersion" ∷ "taskId" ∷ "repository" ∷ "baseSha" ∷ "worktreePath" ∷ "runId"
    ∷ "ownerEpoch" ∷ "runtime" ∷ "allowedPaths" ∷ "allowedTools" ∷ "expiresAt" ∷ "protocolVersion"
    ∷ []

module _ (rt : Runtime) (c : Conversions) where
  -- The entries but for the signature: known keys, those that are required, both versions 1, and an
  -- expiry that is not past
  pub record IsLaunchEnvelope (now : ℤ) (fs : Fields) : Type 0 where
    pub known : keys_within envelope_keys fs ≡ true
    pub complete : all (λ k. has k fs) unsigned_keys ≡ true
    pub version : to_int c (get "envelopeVersion" fs) ≡ some (pos 1)
    pub protocol : to_int c (get "protocolVersion" fs) ≡ some (pos 1)
    pub expires : Float
    pub expires_at : to_float rt.parse_float (get "expiresAt" fs) ≡ some expires
    pub unexpired : is_past expires now ≡ false

  -- Every required key and no other than the known ones, versions 1, an expiry to come, and the
  -- digest of the other entries under the secret as the signature
  pub record IsAccepted (secret : List ℕ) (now : ℤ) (fs : Fields) : Type 0 where
    pub known : (k : String) → has k fs ≡ true → IsAmong k envelope_keys
    pub complete : All (λ k. has k fs ≡ true) required_keys
    pub version : to_int c (get "envelopeVersion" fs) ≡ some (pos 1)
    pub protocol : to_int c (get "protocolVersion" fs) ≡ some (pos 1)
    pub expires : Float
    pub expires_at : to_float rt.parse_float (get "expiresAt" fs) ≡ some expires
    pub unexpired : IsLater expires now
    pub digest : Text
    pub signed : text_of c (get "signature" fs) ≡ signature_prefix ++ digest
    pub digests : digest_of rt secret (without "signature" fs) ≡ some digest

  check_envelope-IsAccepted :
      (secret : List ℕ) (now : ℤ) (fs : Fields)
      → check_envelope rt c secret now fs ≡ ok tt
      → IsAccepted secret now fs
  unfolding check_envelope
  check_envelope-IsAccepted secret now fs h =
      let (_, known, a0) =
        >>=-eq-ok (raise_if (not (keys_within envelope_keys fs)) unexpected_keys) _ h in
      let (_, complete, a1) =
        >>=-eq-ok (raise_if (not (all (λ k. has k fs) required_keys)) missing_keys) _ a0 in
      let (version, reads, a2) =
        >>=-eq-ok (from_option not_a_number (to_int c (get "envelopeVersion" fs))) _ a1 in
      let (_, one, a3) = >>=-eq-ok (raise_if (not (is_unit version)) unsupported_version) _ a2 in
      let (protocol, speaks, a4) =
        >>=-eq-ok (from_option not_a_number (to_int c (get "protocolVersion" fs))) _ a3 in
      let (_, one_too, a5) =
        >>=-eq-ok (raise_if (not (is_unit protocol)) unsupported_protocol) _ a4 in
      let (expires, expires_at, a6) =
        >>=-eq-ok (from_option not_a_number (to_float rt.parse_float (get "expiresAt" fs))) _ a5 in
      let (_, unexpired, a7) = >>=-eq-ok (raise_if (is_past expires now) expired) _ a6 in
      let sig : Text = text_of c (get "signature" fs) in
      let (_, prefixed, a8) =
        >>=-eq-ok (raise_if (not (starts_with sig signature_prefix)) unsupported_signature) _ a7 in
      let (wanted, digests, a9) =
        >>=-eq-ok (from_option unicode_error (digest_of rt secret (without "signature" fs))) _ a8 in
      let supplied : Text = drop_prefix signature_prefix sig in
      let (_, plain, last) =
        >>=-eq-ok (raise_if (not (all (λ x. ltb x 128) supplied)) digest_not_ascii) _ a9 in
      let same : supplied ≡ wanted = (eq_text_iff supplied wanted).0 (ground arith) in
      let first : version ≡ pos 1 = ground arith in
      let second : protocol ≡ pos 1 = ground arith in
      record {
        known = λ k present. has-IsAmong envelope_keys fs k (ground arith) present;
        complete = all-has fs required_keys (ground arith);
        version = from_option-eq-ok not_a_number _ reads ∙ ap some first;
        protocol = from_option-eq-ok not_a_number _ speaks ∙ ap some second;
        expires = expires;
        expires_at = from_option-eq-ok not_a_number _ expires_at;
        unexpired = is_past-IsLater expires now (ground arith);
        digest = wanted;
        signed =
            drop_prefix-append signature_prefix sig (ground arith)
            ∙ ap (λ x. signature_prefix ++ x) same;
        digests = from_option-eq-ok unicode_error _ digests;
      }

  -- An envelope that is accepted has every key that is required and none that is not known, versions
  -- 1, as its signature the digest of its other entries under the secret, and an expiry that is later
  -- than now, infinite or not a number; what is returned is its entries without the signature.
  pub verify_envelope-IsAccepted :
      (payload : Value) (secret : List ℕ) (now : Option ℤ) (clock : ℤ) (out : Fields)
      → verify_envelope rt c payload secret now clock ≡ ok out
      → (fs : Fields) × (payload ≡ obj fs)
        × IsAccepted secret (current_time now clock) fs
        × (out ≡ without "signature" fs)
  unfolding verify_envelope
  verify_envelope-IsAccepted (obj fs) secret now clock out h =
      let (_, checks, last) =
        >>=-eq-ok (check_envelope rt c secret (current_time now clock) fs) _ h in
      (fs, refl, check_envelope-IsAccepted secret (current_time now clock) fs checks, ground arith)
  verify_envelope-IsAccepted _ secret now clock out h = cc

  check_envelope-signed :
      (secret : List ℕ) (now : ℤ) (fs : Fields) (digest : Text)
      → IsLaunchEnvelope now fs
      → digest_of rt secret (without "signature" fs) ≡ some digest
      → all (λ x. ltb x 128) digest ≡ true
      → check_envelope rt c secret now (replace "signature" (str (signature_prefix ++ digest)) fs)
        ≡ ok tt
  unfolding check_envelope text_of drop_prefix starts_with
  check_envelope-signed secret now fs digest e digests plain =
      let v : Value = str (signature_prefix ++ digest) in
      let elsewhere = get-replace_elsewhere "signature" v in
      let present = has-replace_elsewhere "signature" v in
      let known = keys_within-replace "signature" v envelope_keys refl fs e.known in
      let complete : all (λ k. has k (replace "signature" v fs)) required_keys ≡ true =
        rw
          (
            present "envelopeVersion" refl fs,
            present "taskId" refl fs,
            present "repository" refl fs,
            present "baseSha" refl fs,
            present "worktreePath" refl fs,
            present "runId" refl fs,
            present "ownerEpoch" refl fs,
            present "runtime" refl fs,
            present "allowedPaths" refl fs,
            present "allowedTools" refl fs,
            present "expiresAt" refl fs,
            present "protocolVersion" refl fs,
            has-replace "signature" v fs,
          )
          (ground (arith, e.complete)) in
      rw (
        known,
        complete,
        elsewhere "envelopeVersion" refl fs,
        e.version,
        elsewhere "protocolVersion" refl fs,
        e.protocol,
        elsewhere "expiresAt" refl fs,
        e.expires_at,
        e.unexpired,
        get-replace "signature" v fs,
        without-replace "signature" v fs,
        digests,
        plain,
        eq_text_refl digest,
      )

  digest_of-ascii :
      ((key data_bytes : List ℕ) → all (λ x. ltb x 128) (rt.hmac_hex key data_bytes) ≡ true)
      → (key : List ℕ) (body : Fields) (d : Text) → digest_of rt key body ≡ some d
      → all (λ x. ltb x 128) d ≡ true
  unfolding digest_of
  digest_of-ascii digests key body d h =
      let (message, read) : (x : List ℕ) × (canonical rt (obj body) ≡ some x) = ground arith in
      let same : rt.hmac_hex key message ≡ d = ground arith in
      subst (λ x. all (λ y. ltb y 128) x ≡ true) same (digests key message)

  -- With digests of ASCII characters, an envelope with known keys, those that are required, and
  -- versions 1, is accepted once it is signed, while its expiry is not past, and gives its entries
  -- without a signature.
  pub verify-sign_envelope :
      ((key data_bytes : List ℕ) → all (λ x. ltb x 128) (rt.hmac_hex key data_bytes) ≡ true)
      → (secret : List ℕ) (now : Option ℤ) (clock : ℤ) (payload signed : Fields)
      → IsLaunchEnvelope (current_time now clock) payload
      → sign_envelope rt secret payload ≡ some signed
      → verify_envelope rt c (obj signed) secret now clock ≡ ok (without "signature" payload)
  unfolding verify_envelope sign_envelope
  verify-sign_envelope digests secret now clock payload signed e h =
      elim (Option-cases (digest_of rt secret (without "signature" payload))) [
        | inl failed ↦ absurd (ground (arith, failed))
        | inr (digest, made) ↦
            let plain : all (λ x. ltb x 128) digest ≡ true =
              digest_of-ascii digests secret (without "signature" payload) digest made in
            let v : Value = str (signature_prefix ++ digest) in
            let same : replace "signature" v payload ≡ signed = ground (arith, made) in
            subst
              (λ x.
                verify_envelope rt c (obj x) secret now clock ≡ ok (without "signature" payload))
              same
              (rw (
                check_envelope-signed secret (current_time now clock) payload digest e made plain,
                without-replace "signature" v payload,
              ))
      ]
