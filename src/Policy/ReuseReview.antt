-- ===== src/Policy/ReuseReview.antt =====
-- `validate_reuse_review` and `evaluate_build_readiness` of forgeboss/policy/reuse_review.py. The
-- arguments may be any JSON values, `null` for `None`; a dict is its list of fields.
mod Terms
mod Entries
pub mod Soundness
pub mod Readiness
unfoldable pub use Terms.*
unfoldable pub use Entries.*
use forge_boss.Base.{
  Bool, true, false, not, ◌&&◌, ◌||◌, List, [], ◌∷◌, Option, none, some, String, if◌then◌else◌, any,
  all, ◌==◌, is_empty, Text, codes, eq_text, elem, strip, is_control, Result, ok, err, raise_if,
  ◌>>=◌, ◌>>◌, map,
}
use forge_boss.Base.Int.{pos}
use forge_boss.Value.{Value, null, int, str, arr, obj, Items, Fields, end, field, get, has, to_list}
use text.Mathlib.Text.{◌==◌ as str_eq}

-- `type(schema) is int and schema == 1`
abbrev pub is_one : Value → Bool
is_one (int (pos n)) = n == 1
is_one _ = false

unfoldable pub check_subsystem : Option Value → Text → Result ReviewError (Unit {0})
check_subsystem none subsystem = ok tt
check_subsystem (some expected) subsystem = do
  wanted ← clean_text "expected_subsystem" false expected
  raise_if (not (eq_text subsystem wanted)) subsystem_mismatch

unfoldable pub check_decision :
    Text → List ReuseCandidate → List ReuseCandidate → Text → Result ReviewError (Unit {0})
check_decision decision candidates selected reason =
    if elem decision upstream
    then (do
      raise_if (is_empty selected) (none_selected decision)
      raise_if (not (is_empty reason)) reason_not_empty)
    else (do
      raise_if (not (is_empty selected)) custom_selects
      raise_if (is_empty reason) reason_required
      raise_if (is_empty candidates) no_candidates)

unfoldable pub validate_fields : Option Value → Fields → Result ReviewError ReuseReview
validate_fields expected fs = do
  strict_keys review_keys "UPSTREAM_REUSE_REVIEW" fs
  raise_if (not (is_one (get "schema" fs))) schema_not_one
  subsystem ← clean_text "subsystem" false (get "subsystem" fs)
  check_subsystem expected subsystem
  search_performed ← searches (get "search_performed" fs)
  candidates ← candidate_list (get "candidates" fs)
  raise_if (has_duplicate (map (λ (c : ReuseCandidate). c.name) candidates)) duplicate_name
  decision ← clean_text "decision" false (get "decision" fs)
  raise_if (not (elem decision decisions)) (unknown_decision decision)
  reason ← clean_text "custom_build_reason" true (get "custom_build_reason" fs)
  check_decision decision candidates (selected_of candidates) reason
  ok (record {
    subsystem = subsystem;
    search_performed = search_performed;
    candidates = candidates;
    decision = decision;
    custom_build_reason = reason;
    selected = selected_of candidates;
  })

unfoldable pub validate_reuse_review : Option Value → Value → Result ReviewError ReuseReview
validate_reuse_review expected (obj fs) = validate_fields expected fs
validate_reuse_review expected _ = err review_not_object

-- The end of `evaluate_build_readiness`: what the review gives
abbrev pub reviewed : Text → Result ReviewError ReuseReview → BuildReadiness
reviewed kind (ok review) = record {
  ready = true;
  work_kind = kind;
  blocker = none;
  review = some review;
}
reviewed kind (err e) = record {
  ready = false;
  work_kind = kind;
  blocker = some (review_invalid e);
  review = none;
}

unfoldable pub readiness : Text → Text → Value → BuildReadiness
readiness kind subsystem null =
    let small = eq_text kind kind_small in
    record {
      ready = small;
      work_kind = kind;
      blocker = if small then none else some review_required;
      review = none;
    }
readiness kind subsystem document =
    reviewed kind (validate_reuse_review (some (str subsystem)) document)

unfoldable pub evaluate_build_readiness : Value → Value → Value → Result ReviewError BuildReadiness
evaluate_build_readiness work_kind subsystem reuse_review = do
  kind ← clean_text "work_kind" false work_kind
  raise_if (not (elem kind work_kinds)) (unknown_work_kind kind)
  name ← clean_text "subsystem" false subsystem
  ok (readiness kind name reuse_review)
