-- ===== src/Policy/ReuseReview/Readiness.antt =====
-- When work is ready to be built.
use forge_boss.Base.{
  ◌≡◌, ◌⊎◌, inl, inr, refl, sym, ap, ◌∙◌, subst, true, false, none, some, arith, Text, codes,
  eq_text, eq_text_iff, elem, Result, ok, err, Bool-cases, >>=-eq-ok,
}
use forge_boss.Value.{Value, null, str}
use forge_boss.Policy.ReuseReview.{
  ReviewError, ReuseReview, review_required, review_invalid, BuildReadiness, kind_small, work_kinds,
  clean_text, validate_reuse_review, reviewed, readiness, evaluate_build_readiness,
}
use forge_boss.Policy.ReuseReview.Soundness.{IsValid, validate_reuse_review-IsValid}

-- A small repair without a review, or work with a valid review of its subsystem
abbrev pub IsCleared : Text → Value → BuildReadiness → Type 0
IsCleared subsystem document r =
    (r.ready ≡ true)
    × (r.blocker ≡ none)
    × (((r.work_kind ≡ kind_small) × (document ≡ null) × (r.review ≡ none))
        ⊎ ((review : ReuseReview) × (r.review ≡ some review)
            × IsValid review
            × (validate_reuse_review (some (str subsystem)) document ≡ ok review)))

-- Other work without a review, or a review that is not accepted
abbrev pub IsBlocked : Text → Value → BuildReadiness → Type 0
IsBlocked subsystem document r =
    (r.ready ≡ false)
    × (r.review ≡ none)
    × (((r.work_kind ≡ codes "substantial-subsystem")
          × (document ≡ null)
          × (r.blocker ≡ some review_required))
        ⊎ ((e : ReviewError) × (r.blocker ≡ some (review_invalid e))
            × (validate_reuse_review (some (str subsystem)) document ≡ err e)))

substantial :
    (kind : Text)
    → elem kind work_kinds ≡ true
    → eq_text kind kind_small ≡ false
    → kind ≡ codes "substantial-subsystem"
unfolding elem
substantial kind known h = ground (arith, eq_text_iff kind (codes "substantial-subsystem"))

abbrev IsAnswered : Text → Value → BuildReadiness → Type 0
IsAnswered subsystem document r = IsCleared subsystem document r ⊎ IsBlocked subsystem document r

reviewed-IsAnswered :
    (kind subsystem : Text) (document : Value) (m : Result ReviewError ReuseReview)
    → validate_reuse_review (some (str subsystem)) document ≡ m
    → IsAnswered subsystem document (reviewed kind m)
reviewed-IsAnswered kind subsystem document (ok review) e = inl (
  refl,
  refl,
  inr (review, refl, (validate_reuse_review-IsValid (some (str subsystem)) document review e).0, e),
)
reviewed-IsAnswered kind subsystem document (err e) eq = inr (refl, refl, inr (e, refl, eq))

readiness-IsAnswered :
    (kind subsystem : Text) (document : Value)
    → elem kind work_kinds ≡ true
    → IsAnswered subsystem document (readiness kind subsystem document)
unfolding readiness
readiness-IsAnswered kind subsystem null known = elim (Bool-cases (eq_text kind kind_small)) [
  | inl e ↦ inl (e, rw e, inl (ground (arith, eq_text_iff kind kind_small), refl, refl))
  | inr e ↦ inr (e, refl, inl (substantial kind known e, refl, rw e))
]
readiness-IsAnswered kind subsystem document known =
    reviewed-IsAnswered kind subsystem document
      (validate_reuse_review (some (str subsystem)) document) refl

readiness-work_kind :
    (kind subsystem : Text) (document : Value)
    → (readiness kind subsystem document).work_kind ≡ kind
unfolding readiness
readiness-work_kind kind subsystem null = refl
readiness-work_kind kind subsystem document =
    go (validate_reuse_review (some (str subsystem)) document)
  where
    go : (m : Result ReviewError ReuseReview) → (reviewed kind m).work_kind ≡ kind
    go (ok review) = refl
    go (err e) = refl

-- An answer has the work kind that was asked for, and for its subsystem it is either that the work
-- is ready, which is a small repair without a review or work whose review is accepted and valid, or
-- that it is blocked, which is other work without a review or work whose review is not accepted.
pub evaluate_build_readiness-answers :
    (work_kind subsystem document : Value) (r : BuildReadiness)
    → evaluate_build_readiness work_kind subsystem document ≡ ok r
    → (name : Text) × (clean_text "work_kind" false work_kind ≡ ok r.work_kind)
      × (clean_text "subsystem" false subsystem ≡ ok name)
      × (IsCleared name document r ⊎ IsBlocked name document r)
unfolding evaluate_build_readiness
evaluate_build_readiness-answers work_kind subsystem document r h =
    let (kind, kinds, then) = >>=-eq-ok (clean_text "work_kind" false work_kind) _ h in
    let known : elem kind work_kinds ≡ true = ground arith in
    let (name, read, done) : (name : Text) × (clean_text "subsystem" false subsystem ≡ ok name)
        × (readiness kind name document ≡ r) =
      ground arith in
    (
      name,
      kinds
          ∙ ap ok (
              sym (readiness-work_kind kind name document)
              ∙ ap (λ (r : BuildReadiness). r.work_kind) done),
      read,
      subst (IsAnswered name document) done (readiness-IsAnswered kind name document known),
    )
