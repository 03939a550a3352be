-- ===== src/Policy/Receipt/Soundness.antt =====
-- What an accepted receipt is about.
use forge_boss.Base.{
  ℕ, ◌≡◌, ◌≤◌, sym, ap, ◌∙◌, true, List, arith, eq_text_iff, Result, ok, err, length, ok_unless_err,
}
use forge_boss.Base.Int.{ℤ}
use forge_boss.Value.{Value, obj, Fields, get}
use forge_boss.Runtime.{Runtime}
use forge_boss.Policy.Signed.{check_signed, check_within}
use forge_boss.Policy.Signed.Laws.{IsSigned, IsTimely, check_signed-IsSigned, check_within-IsTimely}
use forge_boss.Policy.SmallRepair.{RepairError, unicode_error, secret_bytes, timestamp, instant}
use forge_boss.Policy.SmallRepair.Bindings.{bindings_agree_eq}
use forge_boss.Policy.Receipt.{
  input, Claim, VerifiedReceipt, max_receipt_ttl_seconds, of_input, claims_agree, expected_claim,
  receipt_claim, verify_receipt, verify_reuse_review_receipt, ttl_invalid, not_yet_valid, expired,
  signature_invalid, signature_mismatch,
}

pub of_input-eq-ok : {A : Type 0} (m : Result RepairError A) {a : A} → of_input m ≡ ok a → m ≡ ok a
of_input-eq-ok (ok a) h = cc
of_input-eq-ok (err e) h = cc

claims_agree_eq : (a b : Claim) → claims_agree a b ≡ true → a ≡ b
unfolding claims_agree
claims_agree_eq a b h =
    let task : a.task ≡ b.task = bindings_agree_eq a.task b.task (ground arith) in
    let subsystem : a.subsystem ≡ b.subsystem =
      ground (arith, eq_text_iff a.subsystem b.subsystem) in
    let review : a.review_sha256 ≡ b.review_sha256 =
      ground (arith, eq_text_iff a.review_sha256 b.review_sha256) in
    cc

module _ (rt : Runtime) (task_id repository base_sha objective paths subsystem review : Value) where
  -- The receipt is signed, and names the task and the review of the arguments, at a time within its
  -- lifetime.
  pub record IsReceipted (secret : List ℕ) (now : Value) (clock : ℤ) (receipt : Fields)
      (v : VerifiedReceipt) : Type 0 where
    pub signed : IsSigned rt secret receipt
    pub strong : 32 ≤ length secret
    pub wanted :
        expected_claim rt task_id repository base_sha objective paths subsystem review ≡ ok v.claim
    pub claimed : receipt_claim rt receipt ≡ ok v.claim
    pub issued : timestamp "issuedAt" (get "issuedAt" receipt) ≡ ok v.issued_at
    pub expires : timestamp "expiresAt" (get "expiresAt" receipt) ≡ ok v.expires_at
    pub timely :
        (current : ℤ) × (instant clock now ≡ ok current)
        × IsTimely max_receipt_ttl_seconds v.issued_at v.expires_at current

  verify_receipt-IsReceipted :
      (secret : List ℕ) (now : Value) (clock : ℤ) (receipt : Fields) (v : VerifiedReceipt)
      → 32 ≤ length secret
      → verify_receipt rt task_id repository base_sha objective paths subsystem review secret now
          clock receipt
        ≡ ok v
      → IsReceipted secret now clock receipt v
  unfolding verify_receipt
  verify_receipt-IsReceipted secret now clock receipt v strong h =
      let (expected, wanted) =
        ok_unless_err
          (expected_claim rt task_id repository base_sha objective paths subsystem review)
          (λ e raised. ground arith) in
      let (current, instants) = ok_unless_err (instant clock now) (λ e raised. ground arith) in
      let found : receipt_claim rt receipt ≡ ok v.claim = ground arith in
      let issued : timestamp "issuedAt" (get "issuedAt" receipt) ≡ ok v.issued_at = ground arith in
      let expires : timestamp "expiresAt" (get "expiresAt" receipt) ≡ ok v.expires_at =
        ground arith in
      let window : check_within max_receipt_ttl_seconds ttl_invalid not_yet_valid expired
            v.issued_at v.expires_at current
          ≡ ok tt =
        ground arith in
      let signature : check_signed signature_invalid (input unicode_error) signature_mismatch rt
            secret receipt
          ≡ ok tt =
        ground arith in
      let agree : claims_agree v.claim expected ≡ true = ground arith in
      record {
        signed =
            check_signed-IsSigned signature_invalid (input unicode_error) signature_mismatch rt
              secret receipt signature;
        strong = strong;
        wanted = wanted ∙ ap ok (sym (claims_agree_eq v.claim expected agree));
        claimed = found;
        issued = issued;
        expires = expires;
        timely = (
          current,
          instants,
          check_within-IsTimely max_receipt_ttl_seconds ttl_invalid not_yet_valid expired
              v.issued_at v.expires_at current window,
        );
      }

  -- A receipt that is accepted is signed under the secret, of at least 32 bytes, claims the task,
  -- the subsystem and the digest of the review that the arguments give, and is asked for within its
  -- lifetime of at most a day, or up to 30 seconds before it.
  pub verify_reuse_review_receipt-IsReceipted :
      (secret : List ℕ) (now : Value) (clock : ℤ) (receipt : Fields) (v : VerifiedReceipt)
      → verify_reuse_review_receipt rt
          (obj receipt)
          task_id
          repository
          base_sha
          objective
          paths
          subsystem
          review
          secret
          now
          clock
        ≡ ok v
      → IsReceipted secret now clock receipt v
  unfolding verify_reuse_review_receipt secret_bytes
  verify_reuse_review_receipt-IsReceipted secret now clock receipt v h =
      verify_receipt-IsReceipted secret now clock receipt v (ground arith) (ground arith)
