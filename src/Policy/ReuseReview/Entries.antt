-- ===== src/Policy/ReuseReview/Entries.antt =====
-- `_text`, `_strict_keys`, `_searches` and `_candidate` of forgeboss/policy/reuse_review.py.
use forge_boss.Base.{
  Bool, true, false, not, ◌&&◌, ◌||◌, List, [], ◌∷◌, String, if◌then◌else◌, any, all, is_empty,
  Text, eq_text, elem, strip, is_control, Result, ok, err, raise_if, ◌>>=◌, ◌>>◌,
}
use forge_boss.Value.{Value, str, arr, obj, Fields, end, field, get, has, to_list}
use text.Mathlib.Text.{◌==◌ as str_eq}
use forge_boss.Policy.ReuseReview.Terms.{
  ReviewError, license_statuses, compatible_licenses, fit_statuses, acceptable_fits, selected_mark,
  dispositions, candidate_keys, ReuseCandidate, not_a_string, text_required, control_characters,
  field_mismatch, searches_not_array, no_search, duplicate_search, candidate_not_object,
  unknown_license_status, unknown_platform_fit, unknown_security_fit, unknown_disposition,
  selected_without_identity, selected_license, selected_platform_fit, selected_security_fit,
  candidates_not_array,
}

unfoldable pub clean_text : String → Bool → Value → Result ReviewError Text
clean_text label allow_empty (str s) = do
  raise_if (not allow_empty && is_empty (strip s)) (text_required label)
  raise_if (any is_control (strip s)) (control_characters label)
  ok (strip s)
clean_text label allow_empty _ = err (not_a_string label)

unfoldable pub keys_within : List String → Fields → Bool
keys_within expected end = true
keys_within expected (field k v fs) = any (λ e. str_eq k e) expected && keys_within expected fs

unfoldable pub strict_keys : List String → String → Fields → Result ReviewError (Unit {0})
unfolding keys_within has
strict_keys expected label fs =
    raise_if (not (all (λ k. has k fs) expected && keys_within expected fs)) (field_mismatch label)

-- `len(set(xs)) != len(xs)`
unfoldable pub has_duplicate : List Text → Bool
unfolding elem
has_duplicate [] = false
has_duplicate (x ∷ xs) = elem x xs || has_duplicate xs

unfoldable pub clean_texts : String → List Value → Result ReviewError (List Text)
clean_texts label [] = ok []
clean_texts label (v ∷ vs) = do t ← clean_text label false v; ts ← clean_texts label vs; ok (t ∷ ts)

unfoldable pub searches : Value → Result ReviewError (List Text)
searches (arr items) = do
  out ← clean_texts "search_performed item" (to_list items)
  raise_if (is_empty out) no_search
  raise_if (has_duplicate out) duplicate_search
  ok out
searches _ = err searches_not_array

unfoldable pub is_selected : ReuseCandidate → Bool
unfolding eq_text
is_selected c = eq_text c.disposition selected_mark

-- The checks after the candidate's texts are read
unfoldable pub check_selected : ReuseCandidate → Result ReviewError ReuseCandidate
check_selected c =
    if is_selected c
    then (do
      raise_if (is_empty c.exact_identity) selected_without_identity
      raise_if (not (elem c.license_status compatible_licenses)) selected_license
      raise_if (not (elem c.platform_fit acceptable_fits)) selected_platform_fit
      raise_if (not (elem c.security_fit acceptable_fits)) selected_security_fit
      ok c)
    else ok c

unfoldable pub check_candidate : ReuseCandidate → Result ReviewError ReuseCandidate
check_candidate c = do
  raise_if (not (elem c.license_status license_statuses)) (unknown_license_status c.license_status)
  raise_if (not (elem c.platform_fit fit_statuses)) (unknown_platform_fit c.platform_fit)
  raise_if (not (elem c.security_fit fit_statuses)) (unknown_security_fit c.security_fit)
  raise_if (not (elem c.disposition dispositions)) (unknown_disposition c.disposition)
  check_selected c

unfoldable pub read_candidate : Fields → Result ReviewError ReuseCandidate
read_candidate fs = do
  name ← clean_text "candidate.name" false (get "name" fs)
  source ← clean_text "candidate.source" false (get "source" fs)
  exact_identity ← clean_text "candidate.exact_identity" true (get "exact_identity" fs)
  license ← clean_text "candidate.license" false (get "license" fs)
  license_status ← clean_text "candidate.license_status" false (get "license_status" fs)
  maintenance_status ← clean_text "candidate.maintenance_status" false (get "maintenance_status" fs)
  platform_fit ← clean_text "candidate.platform_fit" false (get "platform_fit" fs)
  security_fit ← clean_text "candidate.security_fit" false (get "security_fit" fs)
  disposition ← clean_text "candidate.disposition" false (get "disposition" fs)
  notes ← clean_text "candidate.notes" true (get "notes" fs)
  ok (record {
    name = name;
    source = source;
    exact_identity = exact_identity;
    license = license;
    license_status = license_status;
    maintenance_status = maintenance_status;
    platform_fit = platform_fit;
    security_fit = security_fit;
    disposition = disposition;
    notes = notes;
  })

unfoldable pub candidate : Value → Result ReviewError ReuseCandidate
candidate (obj fs) = do
  strict_keys candidate_keys "candidate" fs
  c ← read_candidate fs
  check_candidate c
candidate _ = err candidate_not_object

unfoldable pub read_candidates : List Value → Result ReviewError (List ReuseCandidate)
read_candidates [] = ok []
read_candidates (v ∷ vs) = do c ← candidate v; cs ← read_candidates vs; ok (c ∷ cs)

unfoldable pub candidate_list : Value → Result ReviewError (List ReuseCandidate)
candidate_list (arr items) = read_candidates (to_list items)
candidate_list _ = err candidates_not_array

unfoldable pub selected_of : List ReuseCandidate → List ReuseCandidate
selected_of [] = []
selected_of (c ∷ cs) = let rest = selected_of cs in if is_selected c then c ∷ rest else rest
