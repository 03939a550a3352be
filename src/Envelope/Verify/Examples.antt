-- ===== src/Envelope/Verify/Examples.antt =====
-- An envelope on concrete data, and the theorems at it.
use forge_boss.Base.{
  ◌*◌, ◌≡◌, refl, false, [], ◌++◌, none, some, codes, eq_text, starts_with, ok, err,
}
use forge_boss.Base.Int.{ℤ, pos}
use forge_boss.Value.{
  tick, finite, nan, Value, null, int, str, obj, Fields, end, field, get, has, without,
  append_field, to_float, float_of_int,
}
use forge_boss.Runtime.Plain.{plain, plain_digest}
use forge_boss.Runtime.Conversions.{Conversions, to_int, text_of}
use forge_boss.Policy.ReuseReview.{keys_within}
use forge_boss.Policy.Signed.{drop_prefix}
use forge_boss.Policy.Signed.Samples.{secret, plain_digest-is_ascii}
use forge_boss.Envelope.{utf8, canonical, digest_of, sign_envelope, signature_prefix}
use forge_boss.Envelope.Verify.{expired, is_past, check_envelope, verify_envelope}
use forge_boss.Envelope.Verify.Laws.{
  IsLaunchEnvelope, IsAccepted, verify_envelope-IsAccepted, verify-sign_envelope,
}

abbrev conversions : Conversions
conversions = record { parse_int = λ t. none; show = λ v. [] }

-- An envelope that ends at that time
abbrev envelope : Value → Fields
envelope expires = field "envelopeVersion" (int (pos 1)) (
    field "taskId" null (
      field "repository" null (
        field "baseSha" null (
          field "worktreePath" null (
            field "runId" null (
              field "ownerEpoch" null (
                field "runtime" null (
                  field "allowedPaths" null (
                    field "allowedTools" null (
                      field "expiresAt" expires
                        (field "protocolVersion" (int (pos 1)) end)))))))))))

abbrev signed : Fields
signed =
    append_field (envelope (int (pos 9))) "signature"
      (str (signature_prefix ++ plain_digest (secret ++ codes "{}")))

-- The operations that the tests run
opened : Unit {0}
unfolding plain eq_text starts_with get has without append_field to_float float_of_int utf8
    canonical digest_of sign_envelope keys_within drop_prefix to_int text_of is_past check_envelope
    verify_envelope
opened = tt

signing : sign_envelope plain secret (envelope (int (pos 9))) ≡ some signed
unfolding opened
signing = refl

accepted :
    verify_envelope plain conversions (obj signed) secret none (pos (8 * tick))
    ≡ ok (envelope (int (pos 9)))
unfolding opened
accepted = refl

too_late : verify_envelope plain conversions (obj signed) secret none (pos (9 * tick)) ≡ err expired
unfolding opened
too_late = refl

-- An expiry that is no number is never past.
never_past : (now : ℤ) → is_past nan now ≡ false
unfolding opened
never_past now = refl

launch_envelope : IsLaunchEnvelope plain conversions (pos (8 * tick)) (envelope (int (pos 9)))
unfolding opened
launch_envelope = record {
  known = refl;
  complete = refl;
  version = refl;
  protocol = refl;
  expires = finite (pos (9 * tick));
  expires_at = refl;
  unexpired = refl;
}

verify-sign_envelope_example :
    verify_envelope plain conversions (obj signed) secret none (pos (8 * tick))
    ≡ ok (without "signature" (envelope (int (pos 9))))
unfolding opened
verify-sign_envelope_example =
    verify-sign_envelope plain conversions (λ k d. plain_digest-is_ascii (k ++ d)) secret none
      (pos (8 * tick)) (envelope (int (pos 9))) signed launch_envelope signing

verify_envelope-IsAccepted_example :
    (fs : Fields) × (obj signed ≡ obj fs)
    × IsAccepted plain conversions secret (pos (8 * tick)) fs
    × (envelope (int (pos 9)) ≡ without "signature" fs)
verify_envelope-IsAccepted_example =
    verify_envelope-IsAccepted plain conversions (obj signed) secret none (pos (8 * tick))
      (envelope (int (pos 9))) accepted
