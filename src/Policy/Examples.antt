-- ===== src/Policy/Examples.antt =====
-- Reviews on concrete data, and the theorems at them.
use forge_boss.Base.{
  ◌≡◌, refl, ◌⊎◌, [], ◌∷◌, OnSome, some, none, Text, codes, eq_text, elem, strip, lstrip, rstrip,
  true, false, ok, err,
}
use forge_boss.Base.Int.{pos}
use forge_boss.Value.{
  Fields, Value, null, int, str, arr, obj, nil, cons, end, field, get, has, to_list,
}
use forge_boss.Policy.ReuseReview.{
  ReuseCandidate, ReuseReview, BuildReadiness, clean_text, keys_within, strict_keys, has_duplicate,
  clean_texts, searches, is_selected, check_selected, check_candidate, read_candidate, candidate,
  read_candidates, candidate_list, selected_of, check_subsystem, check_decision, validate_fields,
  validate_reuse_review, readiness, evaluate_build_readiness, selected_license,
}
use forge_boss.Policy.ReuseReview.Soundness.{IsValid, validate_reuse_review-IsValid}
use forge_boss.Policy.ReuseReview.Readiness.{IsCleared, IsBlocked, evaluate_build_readiness-answers}
use forge_boss.Runtime.Plain.{plain}
use forge_boss.Policy.SmallRepair.{classify_work_kind}
use forge_boss.Policy.TaskReadiness.{
  evaluate_task_reuse_readiness, IsExempt, evaluate_task_reuse_readiness-cleared,
}

abbrev library : Text → Value
library license = obj (
    field "name" (str (codes " SQLite ")) (
      field "source" (str (codes "sqlite.org")) (
        field "exact_identity" (str (codes "3.45")) (
          field "license" (str (codes "public domain")) (
            field "license_status" (str license) (
              field "maintenance_status" (str (codes "active")) (
                field "platform_fit" (str (codes "fit")) (
                  field "security_fit" (str (codes "partial")) (
                    field "disposition" (str (codes "selected"))
                      (field "notes" (str []) end))))))))))

abbrev pub fields : Text → Fields
fields license = field "schema" (int (pos 1)) (
    field "subsystem" (str (codes "storage")) (
      field "search_performed" (arr (cons (str (codes "embedded databases")) nil)) (
        field "candidates" (arr (cons (library license) nil)) (
          field "decision" (str (codes "reuse"))
            (field "custom_build_reason" (str (codes " ")) end)))))

abbrev pub document : Text → Value
document license = obj (fields license)

abbrev pub sqlite : ReuseCandidate
sqlite = record {
  name = codes "SQLite";
  source = codes "sqlite.org";
  exact_identity = codes "3.45";
  license = codes "public domain";
  license_status = codes "permissive";
  maintenance_status = codes "active";
  platform_fit = codes "fit";
  security_fit = codes "partial";
  disposition = codes "selected";
  notes = [];
}

abbrev pub accepted : ReuseReview
accepted = record {
  subsystem = codes "storage";
  search_performed = codes "embedded databases" ∷ [];
  candidates = sqlite ∷ [];
  decision = codes "reuse";
  custom_build_reason = [];
  selected = sqlite ∷ [];
}

-- The operations that the tests run
opened : Unit {0}
unfolding validate_reuse_review validate_fields check_decision check_subsystem selected_of
    candidate_list read_candidates candidate read_candidate check_candidate check_selected
    is_selected searches clean_texts has_duplicate strict_keys keys_within clean_text eq_text elem
    strip lstrip rstrip get has to_list readiness evaluate_build_readiness
opened = tt

review_accepted :
    validate_reuse_review (some (str (codes "storage"))) (document (codes "permissive"))
    ≡ ok accepted
unfolding opened
review_accepted = refl

review_refused : validate_reuse_review none (document (codes "incompatible")) ≡ err selected_license
unfolding opened
review_refused = refl

abbrev cleared : BuildReadiness
cleared = record {
  ready = true;
  work_kind = codes "substantial-subsystem";
  blocker = none;
  review = some accepted;
}

work_cleared :
    evaluate_build_readiness
      (str (codes "substantial-subsystem"))
      (str (codes "storage"))
      (document (codes "permissive"))
    ≡ ok cleared
unfolding opened
work_cleared = refl

validate_reuse_review-IsValid_example :
    IsValid accepted
    × OnSome
        (λ v. clean_text "expected_subsystem" false v ≡ ok (codes "storage"))
        (some (str (codes "storage")))
validate_reuse_review-IsValid_example =
    validate_reuse_review-IsValid (some (str (codes "storage"))) (document (codes "permissive"))
      accepted review_accepted

evaluate_build_readiness-answers_example :
    (name : Text) × (clean_text "work_kind" false (str (codes "substantial-subsystem"))
      ≡ ok (codes "substantial-subsystem"))
    × (clean_text "subsystem" false (str (codes "storage")) ≡ ok name)
    × (IsCleared name (document (codes "permissive")) cleared
        ⊎ IsBlocked name (document (codes "permissive")) cleared)
evaluate_build_readiness-answers_example =
    evaluate_build_readiness-answers (str (codes "substantial-subsystem")) (str (codes "storage"))
      (document (codes "permissive")) cleared work_cleared

task_cleared :
    evaluate_task_reuse_readiness plain null null null null null [] null
      (str (codes "storage"))
      (document (codes "permissive"))
      null
      (pos 0)
    ≡ ok cleared
unfolding opened evaluate_task_reuse_readiness classify_work_kind
task_cleared = refl

evaluate_task_reuse_readiness-cleared_example :
    IsExempt plain null null null null null [] null null (pos 0)
    ⊎ ((review : ReuseReview) × (cleared.review ≡ some review) × IsValid review)
evaluate_task_reuse_readiness-cleared_example =
    evaluate_task_reuse_readiness-cleared plain null null null null null [] null
      (str (codes "storage")) (document (codes "permissive")) null (pos 0) cleared task_cleared refl
