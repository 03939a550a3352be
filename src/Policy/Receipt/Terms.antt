-- ===== src/Policy/Receipt/Terms.antt =====
-- The errors, constants and records of forgeboss/policy/reuse_review_authority.py.
use forge_boss.Base.{
  ℕ, ◌*◌, true, false, List, [], ◌∷◌, none, some, String, Text, codes, Result, ok, err,
}
use forge_boss.Base.Int.{ℤ}
use forge_boss.Policy.ReuseReview.{Blocker, BuildReadiness, ReuseReview}
use forge_boss.Policy.SmallRepair.{RepairError, Binding, unicode_error, overflow_error}

-- The messages of `ReuseReviewAuthorityError`; `input` is an exception of the small-repair module
-- that passes through, and `exemption_refused` one that is raised again with its message.
pub data ReceiptError : Type 0 where
  input : RepairError → ReceiptError
  exemption_refused : RepairError → ReceiptError
  review_not_object : ReceiptError
  not_signable : ReceiptError
  ttl_not_integer : ReceiptError
  ttl_out_of_range : ReceiptError
  receipt_not_object : ReceiptError
  fields_mismatch : ReceiptError
  unsupported_schema : ReceiptError
  unexpected_type : ReceiptError
  objective_not_hex : ReceiptError
  review_not_hex : ReceiptError
  ttl_invalid : ReceiptError
  not_yet_valid : ReceiptError
  expired : ReceiptError
  signature_invalid : ReceiptError
  signature_mismatch : ReceiptError
  binding_mismatch : ReceiptError

abbrev pub max_receipt_ttl_seconds : ℕ
max_receipt_ttl_seconds = 24 * 60 * 60

abbrev pub receipt_type : Text
receipt_type = codes "upstream-reuse-review-receipt"

abbrev pub receipt_keys : List String
receipt_keys =
    "schema" ∷ "type" ∷ "taskId" ∷ "repository" ∷ "baseSha" ∷ "objectiveSha256" ∷ "allowedPaths"
    ∷ "subsystem" ∷ "reviewSha256" ∷ "issuedAt" ∷ "expiresAt" ∷ "signature" ∷ []

-- The task and the review that a receipt is about
pub record Claim : Type 0 where
  pub task : Binding
  pub subsystem : Text
  pub review_sha256 : Text

pub record VerifiedReceipt : Type 0 where
  pub claim : Claim
  pub issued_at : ℤ
  pub expires_at : ℤ

abbrev pub of_input : {A : Type 0} → Result RepairError A → Result ReceiptError A
of_input (ok a) = ok a
of_input (err e) = err (input e)

-- `except SmallRepairAuthorityError`
abbrev pub exemption_error : RepairError → ReceiptError
exemption_error unicode_error = input unicode_error
exemption_error overflow_error = input overflow_error
exemption_error e = exemption_refused e

abbrev pub of_exemption : {A : Type 0} → Result RepairError A → Result ReceiptError A
of_exemption (ok a) = ok a
of_exemption (err e) = err (exemption_error e)

abbrev pub blocked : Blocker → BuildReadiness
blocked b = record {
  ready = false;
  work_kind = codes "substantial-subsystem";
  blocker = some b;
  review = none;
}

abbrev pub exempt : BuildReadiness
exempt = record { ready = true; work_kind = codes "small-repair"; blocker = none; review = none }

abbrev pub ready_with : ReuseReview → BuildReadiness
ready_with review = record {
  ready = true;
  work_kind = codes "substantial-subsystem";
  blocker = none;
  review = some review;
}
