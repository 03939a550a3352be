-- ===== src/Store/Governance.antt =====
-- `_governance_fields` of forgeboss/control/store.py.
use forge_boss.Base.{
  Bool, true, false, not, ◌&&◌, ◌||◌, Option, none, some, ◌==◌, length, all, if◌then◌else◌,
  is_empty, Text, codes, eq_text, strip, Result, ok, err, raise_if, ◌>>=◌, ◌>>◌,
}
use forge_boss.Value.{Value, null, str, Fields, get}
use forge_boss.Store.Errors.{
  StoreError, governance_without_mode, governance_mode_unsupported, work_kind_invalid,
  subsystem_required, digest_invalid, small_repair_evidence_invalid, substantial_evidence_invalid,
}
use forge_boss.Store.Identity.{is_lower_hex}
use forge_boss.Store.Tables.{Governance}

abbrev pub is_null : Value → Bool
is_null null = true
is_null _ = false

abbrev pub is_text : Text → Value → Bool
is_text t (str s) = eq_text s t
is_text t _ = false

abbrev pub is_some {ℓ} : {A : Type ℓ} → Option A → Bool
is_some none = false
is_some (some _) = true

-- `[0-9a-f]{64}`
unfoldable pub is_sha256 : Text → Bool
is_sha256 s = length s == 64 && all is_lower_hex s

abbrev pub reuse_v1 : Text
reuse_v1 = codes "reuse-v1"

abbrev pub small_repair : Text
small_repair = codes "small-repair"

abbrev pub substantial_subsystem : Text
substantial_subsystem = codes "substantial-subsystem"

abbrev pub ungoverned : Governance
ungoverned = record {
  mode = none;
  work_kind = none;
  subsystem = none;
  reuse_review_sha256 = none;
  reuse_review_receipt_sha256 = none;
  small_repair_exemption_sha256 = none;
}

unfoldable pub governance_digest : Value → Result StoreError (Option Text)
unfolding is_sha256
governance_digest null = ok none
governance_digest (str s) = if is_sha256 s then ok (some s) else err digest_invalid
governance_digest _ = err digest_invalid

unfoldable pub governed_subsystem : Value → Result StoreError Text
unfolding strip eq_text
governed_subsystem (str s) =
    if is_empty (strip s) || not (eq_text s (strip s)) then err subsystem_required else ok s
governed_subsystem _ = err subsystem_required

-- The evidence that a kind of work wants, and no other
unfoldable pub governance_evidence :
    Bool → Option Text → Option Text → Option Text → Result StoreError (Unit {0})
governance_evidence true review receipt exemption =
    raise_if (not (is_some exemption) || is_some review || is_some receipt)
      small_repair_evidence_invalid
governance_evidence false review receipt exemption =
    raise_if (not (is_some review) || not (is_some receipt) || is_some exemption)
      substantial_evidence_invalid

unfoldable pub work_kind_of : Value → Result StoreError Text
unfolding eq_text
work_kind_of (str s) =
    if eq_text s small_repair || eq_text s substantial_subsystem
    then ok s
    else err work_kind_invalid
work_kind_of _ = err work_kind_invalid

unfoldable pub governance_fields : Fields → Result StoreError Governance
unfolding get governance_digest governed_subsystem governance_evidence work_kind_of
governance_fields task =
    if is_null (get "governanceMode" task)
    then if is_null (get "workKind" task)
        && is_null (get "subsystem" task)
        && is_null (get "reuseReviewSha256" task)
        && is_null (get "reuseReviewReceiptSha256" task)
        && is_null (get "smallRepairExemptionSha256" task)
      then ok ungoverned
      else err governance_without_mode
    else (do
      raise_if (not (is_text reuse_v1 (get "governanceMode" task))) governance_mode_unsupported
      work_kind ← work_kind_of (get "workKind" task)
      subsystem ← governed_subsystem (get "subsystem" task)
      review ← governance_digest (get "reuseReviewSha256" task)
      receipt ← governance_digest (get "reuseReviewReceiptSha256" task)
      exemption ← governance_digest (get "smallRepairExemptionSha256" task)
      governance_evidence (eq_text work_kind small_repair) review receipt exemption
      ok (record {
        mode = some reuse_v1;
        work_kind = some work_kind;
        subsystem = some subsystem;
        reuse_review_sha256 = review;
        reuse_review_receipt_sha256 = receipt;
        small_repair_exemption_sha256 = exemption;
      }))
