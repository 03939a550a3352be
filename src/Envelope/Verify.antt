-- ===== src/Envelope/Verify.antt =====
-- `verify_envelope` of forgeboss/control/envelope.py. `clock` is `time.time()`.
pub mod Entries
pub mod Laws
mod Examples
use forge_boss.Base.{
  ℕ, Bool, true, false, not, List, [], ◌∷◌, Option, none, some, String, if◌then◌else◌, ltb, all,
  Text, eq_text, starts_with, Result, ok, err, raise_if, from_option, ◌>>=◌, ◌>>◌, ◌&&◌,
}
use forge_boss.Base.Int.{ℤ, pos, leb_ℤ, ltb_ℤ}
use forge_boss.Value.{
  Float, finite, pos_inf, neg_inf, nan, Value, obj, Fields, get, has, without, to_float,
}
use forge_boss.Runtime.{Runtime}
use forge_boss.Runtime.Conversions.{Conversions, to_int, text_of}
use forge_boss.Envelope.{digest_of, signature_prefix}
use forge_boss.Policy.ReuseReview.{keys_within}
use forge_boss.Policy.Signed.{drop_prefix}

pub data EnvelopeError : Type 0 where
  envelope_not_object : EnvelopeError
  unexpected_keys : EnvelopeError
  missing_keys : EnvelopeError
  not_a_number : EnvelopeError
  unsupported_version : EnvelopeError
  unsupported_protocol : EnvelopeError
  expired : EnvelopeError
  unsupported_signature : EnvelopeError
  unicode_error : EnvelopeError
  digest_not_ascii : EnvelopeError
  signature_mismatch : EnvelopeError

abbrev pub envelope_keys : List String
envelope_keys =
    "envelopeVersion" ∷ "taskId" ∷ "repository" ∷ "baseSha" ∷ "branch" ∷ "worktreePath" ∷ "runId"
    ∷ "attempt" ∷ "ownerEpoch" ∷ "runtime" ∷ "allowedPaths" ∷ "deniedPaths" ∷ "allowedTools"
    ∷ "contextBundleHash" ∷ "transcript" ∷ "events" ∷ "budgetUsd" ∷ "expiresAt" ∷ "protocolVersion"
    ∷ "signature" ∷ []

abbrev pub required_keys : List String
required_keys =
    "envelopeVersion" ∷ "taskId" ∷ "repository" ∷ "baseSha" ∷ "worktreePath" ∷ "runId"
    ∷ "ownerEpoch" ∷ "runtime" ∷ "allowedPaths" ∷ "allowedTools" ∷ "expiresAt" ∷ "protocolVersion"
    ∷ "signature" ∷ []

-- `exp <= now`; a comparison with NaN is false.
unfoldable pub is_past : Float → ℤ → Bool
is_past (finite z) now = leb_ℤ z now
is_past pos_inf now = false
is_past neg_inf now = true
is_past nan now = false

abbrev pub is_unit : ℤ → Bool
is_unit z = leb_ℤ z (pos 1) && leb_ℤ (pos 1) z

abbrev pub current_time : Option ℤ → ℤ → ℤ
current_time none clock = clock
current_time (some z) clock = z

module _ (rt : Runtime) (c : Conversions) where
  unfoldable pub check_envelope : List ℕ → ℤ → Fields → Result EnvelopeError (Unit {0})
  check_envelope secret now fs = do
    raise_if (not (keys_within envelope_keys fs)) unexpected_keys
    raise_if (not (all (λ k. has k fs) required_keys)) missing_keys
    version ← from_option not_a_number (to_int c (get "envelopeVersion" fs))
    raise_if (not (is_unit version)) unsupported_version
    protocol ← from_option not_a_number (to_int c (get "protocolVersion" fs))
    raise_if (not (is_unit protocol)) unsupported_protocol
    expires ← from_option not_a_number (to_float rt.parse_float (get "expiresAt" fs))
    raise_if (is_past expires now) expired
    let sig = text_of c (get "signature" fs)
    raise_if (not (starts_with sig signature_prefix)) unsupported_signature
    wanted ← from_option unicode_error (digest_of rt secret (without "signature" fs))
    raise_if (not (all (λ x. ltb x 128) (drop_prefix signature_prefix sig))) digest_not_ascii
    raise_if (not (eq_text (drop_prefix signature_prefix sig) wanted)) signature_mismatch

  unfoldable pub verify_envelope : Value → List ℕ → Option ℤ → ℤ → Result EnvelopeError Fields
  verify_envelope (obj fs) secret now clock = do
    check_envelope secret (current_time now clock) fs
    ok (without "signature" fs)
  verify_envelope _ secret now clock = err envelope_not_object
