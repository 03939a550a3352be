-- ===== src/Policy/Signed.antt =====
-- The checks of a signature and of a lifetime, which forgeboss/policy/small_repair_authority.py and
-- forgeboss/policy/reuse_review_authority.py both make, each with its own errors.
pub mod Laws
pub mod Samples
use forge_boss.Base.{
  ℕ, ◌*◌, ◌||◌, not, List, [], ◌∷◌, Option, none, some, if◌then◌else◌, Text, eq_text, starts_with,
  Result, raise_if, from_option, ◌>>=◌, ◌>>◌,
}
use forge_boss.Base.Int.{ℤ, pos, ◌-ℤ◌, ltb_ℤ, leb_ℤ}
use forge_boss.Value.{tick, Value, str, Fields, get, without}
use forge_boss.Runtime.{Runtime}
use forge_boss.Store.Governance.{is_sha256}
use forge_boss.Envelope.{signature_prefix, digest_of}

unfoldable pub drop_prefix : Text → Text → Text
drop_prefix [] s = s
drop_prefix (_ ∷ p) [] = []
drop_prefix (_ ∷ p) (_ ∷ s) = drop_prefix p s

-- The part of a signature after its first colon, which ends its prefix
unfoldable pub supplied_digest : Value → Option Text
unfolding drop_prefix starts_with is_sha256
supplied_digest (str signature) =
    let supplied = drop_prefix signature_prefix signature in
    if starts_with signature signature_prefix
    then (if is_sha256 supplied then some supplied else none)
    else none
supplied_digest _ = none

module _ {E : Type 0} where
  unfoldable pub check_signed : E → E → E → Runtime → List ℕ → Fields → Result E (Unit {0})
  check_signed invalid unencodable mismatch rt key token = do
    supplied ← from_option invalid (supplied_digest (get "signature" token))
    wanted ← from_option unencodable (digest_of rt key (without "signature" token))
    raise_if (not (eq_text supplied wanted)) mismatch

  -- A lifetime of at most `longest` seconds, which began at most 30 seconds from now and is not over
  unfoldable pub check_within : ℕ → E → E → E → ℤ → ℤ → ℤ → Result E (Unit {0})
  check_within longest invalid early late issued expires current = do
    raise_if (leb_ℤ expires issued || ltb_ℤ (pos (longest * tick)) (expires -ℤ issued)) invalid
    raise_if (ltb_ℤ current (issued -ℤ pos (30 * tick))) early
    raise_if (leb_ℤ expires current) late
