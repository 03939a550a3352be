-- ===== src/Policy/TaskReadiness.antt =====
-- `evaluate_task_reuse_readiness` of forgeboss/policy/small_repair_authority.py: whether a task may
-- be built, by its exemption or by its review.
use forge_boss.Base.{
  ℕ, ◌≡◌, ◌≢◌, false≢true, ◌⊎◌, inl, inr, refl, sym, ap, ◌∙◌, List, true, false, some, arith, Text,
  codes, Result, ok, err, strip, lstrip, rstrip, ◌>>=◌, >>=-eq-ok,
}
use forge_boss.Base.Int.{ℤ}
use forge_boss.Value.{Value, null, obj, str, Fields}
use forge_boss.Runtime.{Runtime}
use forge_boss.Policy.ReuseReview.{
  ReviewError, ReuseReview, BuildReadiness, kind_small, clean_text, evaluate_build_readiness,
}
use forge_boss.Policy.ReuseReview.Soundness.{IsValid}
use forge_boss.Policy.ReuseReview.Readiness.{IsCleared, IsBlocked, evaluate_build_readiness-answers}
use forge_boss.Policy.SmallRepair.{
  RepairError, VerifiedExemption, classify_work_kind, verify_small_repair_exemption,
}
use forge_boss.Policy.SmallRepair.Soundness.{IsGranted, verify_small_repair_exemption-IsGranted}

-- The two errors that it may raise
pub data TaskError : Type 0 where
  repair_error : RepairError → TaskError
  review_error : ReviewError → TaskError

abbrev lift_repair : {A : Type 0} → Result RepairError A → Result TaskError A
lift_repair (ok a) = ok a
lift_repair (err e) = err (repair_error e)

abbrev lift_review : {A : Type 0} → Result ReviewError A → Result TaskError A
lift_review (ok a) = ok a
lift_review (err e) = err (review_error e)

lift_repair-eq-ok :
    {A : Type 0} (m : Result RepairError A) {a : A} → lift_repair m ≡ ok a → m ≡ ok a
lift_repair-eq-ok (ok a) h = cc
lift_repair-eq-ok (err e) h = cc

lift_review-eq-ok :
    {A : Type 0} (m : Result ReviewError A) {a : A} → lift_review m ≡ ok a → m ≡ ok a
lift_review-eq-ok (ok a) h = cc
lift_review-eq-ok (err e) h = cc

-- A kind that reads as another text is not a small repair.
substantial-not-small :
    (t : Text)
    → clean_text "work_kind" false (str (codes "substantial-subsystem")) ≡ ok t
    → t ≢ kind_small
unfolding clean_text strip lstrip rstrip
substantial-not-small t h e =
    let apart : codes "substantial-subsystem" ≢ kind_small = cc in apart (cc)

module _ (rt : Runtime) (task_id repository base_sha objective paths : Value) where
  unfoldable pub evaluate_task_reuse_readiness :
      List ℕ → Value → Value → Value → Value → ℤ → Result TaskError BuildReadiness
  evaluate_task_reuse_readiness secret exemption subsystem reuse_review now clock = do
    kind ← lift_repair (
        classify_work_kind rt task_id repository base_sha objective paths secret exemption now
          clock)
    lift_review (evaluate_build_readiness (str kind) subsystem reuse_review)

  -- An exemption that the task was granted
  abbrev pub IsExempt : List ℕ → Value → Value → ℤ → Type 0
  IsExempt secret exemption now clock =
      (token : Fields) × (v : VerifiedExemption) × (exemption ≡ obj token)
      × IsGranted rt task_id repository base_sha objective paths secret now clock token v

  verify-IsExempt :
      (secret : List ℕ) (exemption now : Value) (clock : ℤ) (v : VerifiedExemption)
      → verify_small_repair_exemption rt exemption task_id repository base_sha objective paths
          secret now clock
        ≡ ok v
      → IsExempt secret exemption now clock
  unfolding verify_small_repair_exemption
  verify-IsExempt secret (obj token) now clock v h = (
    token,
    v,
    refl,
    verify_small_repair_exemption-IsGranted rt task_id repository base_sha objective paths secret
        now clock token v h,
  )
  verify-IsExempt secret _ now clock v h = ground arith

  pub classify_work_kind-IsExempt :
      (secret : List ℕ) (exemption now : Value) (clock : ℤ) (kind : Text)
      → classify_work_kind rt task_id repository base_sha objective paths secret exemption now clock
        ≡ ok kind
      → ((exemption ≡ null) × (kind ≡ codes "substantial-subsystem"))
        ⊎ ((kind ≡ kind_small) × IsExempt secret exemption now clock)
  unfolding classify_work_kind
  classify_work_kind-IsExempt secret null now clock kind h = inl (refl, ground arith)
  classify_work_kind-IsExempt secret exemption now clock kind h =
      let (v, verified, _) =
        >>=-eq-ok
          (verify_small_repair_exemption rt exemption task_id repository base_sha objective paths
            secret now clock)
          _ h in
      inr (ground arith, verify-IsExempt secret exemption now clock v verified)

  -- A task that is ready holds an exemption that was granted for it, or has a valid review.
  pub evaluate_task_reuse_readiness-cleared :
      (secret : List ℕ) (exemption subsystem reuse_review now : Value) (clock : ℤ)
      (r : BuildReadiness)
      → evaluate_task_reuse_readiness secret exemption subsystem reuse_review now clock ≡ ok r
      → r.ready ≡ true
      → IsExempt secret exemption now clock
        ⊎ ((review : ReuseReview) × (r.review ≡ some review) × IsValid review)
  unfolding evaluate_task_reuse_readiness
  evaluate_task_reuse_readiness-cleared secret exemption subsystem reuse_review now clock r h
        ready =
      let (kind, classified, then) =
        >>=-eq-ok
          (lift_repair (
            classify_work_kind rt task_id repository base_sha objective paths secret exemption now
              clock))
          _ h in
      let (name, kinds, _, answer) =
        evaluate_build_readiness-answers (str kind) subsystem reuse_review r
          (lift_review-eq-ok _ then) in
      go name kind kinds
        (classify_work_kind-IsExempt secret exemption now clock kind
          (lift_repair-eq-ok _ classified))
        answer
    where
      go :
          (name kind : Text)
          → clean_text "work_kind" false (str kind) ≡ ok r.work_kind
          → ((exemption ≡ null) × (kind ≡ codes "substantial-subsystem"))
            ⊎ ((kind ≡ kind_small) × IsExempt secret exemption now clock)
          → IsCleared name reuse_review r ⊎ IsBlocked name reuse_review r
          → IsExempt secret exemption now clock
            ⊎ ((review : ReuseReview) × (r.review ≡ some review) × IsValid review)
      go name kind kinds (inr (_, exempt)) answer = inl exempt
      go name kind kinds (inl (_, same)) (inr (blocked, _, _)) =
          absurd (false≢true (sym blocked ∙ ready))
      go name kind kinds (inl (_, same)) (inl (_, _, inr (review, has_review, valid, _))) =
          inr (review, has_review, valid)
      go name kind kinds (inl (_, same)) (inl (_, _, inl (small, _, _))) = absurd (
          substantial-not-small r.work_kind
            (ap (λ k. clean_text "work_kind" false (str k)) (sym same) ∙ kinds) small)
