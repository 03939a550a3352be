-- ===== src/Policy/Receipt/Readiness.antt =====
-- Which tasks the gate lets through.
use forge_boss.Base.{
  ◌≡◌, ◌⊎◌, inl, inr, refl, sym, ap, ◌∙◌, false, List, ℕ, some, arith, eq_text, Result, ok, err,
  >>=-eq-ok, Result-cases,
}
use forge_boss.Base.Int.{ℤ}
use forge_boss.Value.{Value, null, obj, str, Fields}
use forge_boss.Runtime.{Runtime}
use forge_boss.Policy.ReuseReview.{
  review_required, review_invalid, receipt_required, ReuseReview, Blocker, BuildReadiness,
  clean_text,
}
use forge_boss.Policy.ReuseReview.Soundness.{IsValid, validate_reuse_review-IsValid}
use forge_boss.Policy.SmallRepair.{RepairError, classify_work_kind}
use forge_boss.Policy.TaskReadiness.{IsExempt, classify_work_kind-IsExempt}
use forge_boss.Policy.Receipt.{
  VerifiedReceipt, of_exemption, blocked, exempt, ready_with, parse_review, receipted,
  authorized_review, verify_reuse_review_receipt, evaluate_authorized_reuse_readiness,
}
use forge_boss.Policy.Receipt.Soundness.{IsReceipted, verify_reuse_review_receipt-IsReceipted}

of_exemption-eq-ok :
    {A : Type 0} (m : Result RepairError A) {a : A} → of_exemption m ≡ ok a → m ≡ ok a
of_exemption-eq-ok (ok a) h = cc
of_exemption-eq-ok (err e) h = cc

parse_review-IsValid :
    (subsystem review : Value) (parsed : ReuseReview)
    → parse_review subsystem review ≡ ok parsed
    → IsValid parsed
unfolding parse_review
parse_review-IsValid subsystem review parsed h =
    let (clean, read, parses) = >>=-eq-ok (clean_text "subsystem" false subsystem) _ h in
    (validate_reuse_review-IsValid (some (str clean)) review parsed parses).0

module _ (rt : Runtime) (task_id repository base_sha objective paths : Value) (secret : List ℕ)
    (subsystem now : Value) (clock : ℤ) where
  receipted_cases :
      (receipt review : Value) (parsed : ReuseReview) (r : BuildReadiness)
      → receipted rt receipt task_id repository base_sha objective paths subsystem review secret now
          clock parsed
        ≡ ok r
      → (r ≡ blocked receipt_required)
        ⊎ ((fields : Fields) × (v : VerifiedReceipt) × (receipt ≡ obj fields)
            × (verify_reuse_review_receipt rt receipt task_id repository base_sha objective paths
                  subsystem review secret now clock
                ≡ ok v)
            × (r ≡ ready_with parsed))
  unfolding receipted
  receipted_cases null review parsed r h = inl (ground arith)
  receipted_cases (obj fields) review parsed r h =
      let (v, verified, done) =
        >>=-eq-ok
          (verify_reuse_review_receipt rt (obj fields) task_id repository base_sha objective paths
            subsystem review secret now clock)
          _ h in
      inr (fields, v, refl, verified, ground arith)
  receipted_cases _ review parsed r h = unfold verify_reuse_review_receipt in ground arith

  authorized_cases :
      (review receipt : Value) (r : BuildReadiness)
      → authorized_review rt review task_id repository base_sha objective paths subsystem receipt
          secret now clock
        ≡ ok r
      → ((b : Blocker) × (r ≡ blocked b))
        ⊎ ((parsed : ReuseReview) × (parse_review subsystem review ≡ ok parsed)
            × (receipted rt receipt task_id repository base_sha objective paths subsystem review
                  secret now clock parsed
                ≡ ok r))
  unfolding authorized_review
  authorized_cases null receipt r h = inl (review_required, ground arith)
  authorized_cases review receipt r h = elim (Result-cases (parse_review subsystem review)) [
    | inl (parsed, e) ↦ inr (parsed, e, ground arith)
    | inr (e, refused) ↦ inl (review_invalid e, ground arith)
  ]

module _ (rt : Runtime) (task_id repository base_sha objective paths : Value) (secret : List ℕ)
    (exemption subsystem review receipt now : Value) (clock : ℤ) where
  -- The task has an exemption.
  abbrev pub IsExempted : BuildReadiness → Type 0
  IsExempted r =
      (r ≡ exempt)
      × IsExempt rt task_id repository base_sha objective paths secret exemption now clock

  -- The review is accepted and valid, and has a receipt for this task.
  abbrev pub IsApproved : BuildReadiness → Type 0
  IsApproved r =
      (parsed : ReuseReview) × (fields : Fields) × (v : VerifiedReceipt) × (r ≡ ready_with parsed)
      × (parse_review subsystem review ≡ ok parsed)
      × IsValid parsed
      × (receipt ≡ obj fields)
      × IsReceipted rt task_id repository base_sha objective paths subsystem review secret now clock
          fields v

  abbrev pub IsStopped : BuildReadiness → Type 0
  IsStopped r = (exemption ≡ null) × ((b : Blocker) × (r ≡ blocked b))

  authorized_review-answers :
      (r : BuildReadiness)
      → exemption ≡ null
      → authorized_review rt review task_id repository base_sha objective paths subsystem receipt
          secret now clock
        ≡ ok r
      → IsApproved r ⊎ IsStopped r
  authorized_review-answers r none_given h =
      elim (authorized_cases rt task_id repository base_sha objective paths secret subsystem now
        clock review receipt r h) [
          | inl (b, stopped) ↦ inr (none_given, (b, stopped))
          | inr (parsed, e, rest) ↦
              elim (receipted_cases rt task_id repository base_sha objective paths secret subsystem
                now clock receipt review parsed r rest) [
                  | inl stopped ↦ inr (none_given, (receipt_required, stopped))
                  | inr (fields, v, same, verified, answer) ↦ inl (
                    parsed,
                    fields,
                    v,
                    answer,
                    e,
                    parse_review-IsValid subsystem review parsed e,
                    same,
                    verify_reuse_review_receipt-IsReceipted rt task_id repository base_sha objective
                        paths subsystem review secret now clock fields v
                        (ap
                            (λ x.
                              verify_reuse_review_receipt rt x task_id repository base_sha objective
                                paths subsystem review secret now clock)
                            (sym same)
                          ∙ verified),
                  )
                ]
        ]

  -- The gate either lets a task through with an exemption that was granted for it, or with a valid
  -- review and a receipt of that review for this task, or it blocks the task.
  pub evaluate_authorized_reuse_readiness-answers :
      (r : BuildReadiness)
      → evaluate_authorized_reuse_readiness rt task_id repository base_sha objective paths secret
          exemption subsystem review receipt now clock
        ≡ ok r
      → IsExempted r ⊎ (IsApproved r ⊎ IsStopped r)
  unfolding evaluate_authorized_reuse_readiness eq_text
  evaluate_authorized_reuse_readiness-answers r h =
      let (kind, classified, rest) =
        >>=-eq-ok
          (of_exemption (
            classify_work_kind rt task_id repository base_sha objective paths secret exemption now
              clock))
          _ h in
      elim (classify_work_kind-IsExempt rt task_id repository base_sha objective paths secret
        exemption now clock kind (of_exemption-eq-ok _ classified)) [
          | inl (none_given, same) ↦ inr (authorized_review-answers r none_given (ground arith))
          | inr (same, given) ↦ inl (ground arith, given)
        ]
