-- ===== src/Policy/ReuseReview/Terms.antt =====
-- The errors, constants and records of forgeboss/policy/reuse_review.py.
use forge_boss.Base.{Bool, List, [], ◌∷◌, Option, String, Text, codes}

-- The messages of `ReuseReviewError`; a label names the entry that is wrong.
pub data ReviewError : Type 0 where
  not_a_string : String → ReviewError
  text_required : String → ReviewError
  control_characters : String → ReviewError
  field_mismatch : String → ReviewError
  searches_not_array : ReviewError
  no_search : ReviewError
  duplicate_search : ReviewError
  candidate_not_object : ReviewError
  unknown_license_status : Text → ReviewError
  unknown_platform_fit : Text → ReviewError
  unknown_security_fit : Text → ReviewError
  unknown_disposition : Text → ReviewError
  selected_without_identity : ReviewError
  selected_license : ReviewError
  selected_platform_fit : ReviewError
  selected_security_fit : ReviewError
  review_not_object : ReviewError
  schema_not_one : ReviewError
  subsystem_mismatch : ReviewError
  candidates_not_array : ReviewError
  duplicate_name : ReviewError
  unknown_decision : Text → ReviewError
  none_selected : Text → ReviewError
  reason_not_empty : ReviewError
  custom_selects : ReviewError
  reason_required : ReviewError
  no_candidates : ReviewError
  unknown_work_kind : Text → ReviewError

abbrev pub kind_small : Text
kind_small = codes "small-repair"

abbrev pub work_kinds : List Text
work_kinds = kind_small ∷ codes "substantial-subsystem" ∷ []

-- The decisions that take an upstream component
abbrev pub upstream : List Text
upstream = codes "reuse" ∷ codes "adapt" ∷ []

abbrev pub decisions : List Text
decisions = codes "reuse" ∷ codes "adapt" ∷ codes "custom" ∷ []

abbrev pub license_statuses : List Text
license_statuses =
    codes "permissive" ∷ codes "compatible" ∷ codes "incompatible" ∷ codes "unknown" ∷ []

abbrev pub compatible_licenses : List Text
compatible_licenses = codes "permissive" ∷ codes "compatible" ∷ []

abbrev pub fit_statuses : List Text
fit_statuses = codes "fit" ∷ codes "partial" ∷ codes "unfit" ∷ codes "unknown" ∷ []

abbrev pub acceptable_fits : List Text
acceptable_fits = codes "fit" ∷ codes "partial" ∷ []

abbrev pub selected_mark : Text
selected_mark = codes "selected"

abbrev pub dispositions : List Text
dispositions = selected_mark ∷ codes "rejected" ∷ codes "reference-only" ∷ []

abbrev pub review_keys : List String
review_keys =
    "schema" ∷ "subsystem" ∷ "search_performed" ∷ "candidates" ∷ "decision" ∷ "custom_build_reason"
    ∷ []

abbrev pub candidate_keys : List String
candidate_keys =
    "name" ∷ "source" ∷ "exact_identity" ∷ "license" ∷ "license_status" ∷ "maintenance_status"
    ∷ "platform_fit" ∷ "security_fit" ∷ "disposition" ∷ "notes" ∷ []

pub record ReuseCandidate : Type 0 where
  pub name : Text
  pub source : Text
  pub exact_identity : Text
  pub license : Text
  pub license_status : Text
  pub maintenance_status : Text
  pub platform_fit : Text
  pub security_fit : Text
  pub disposition : Text
  pub notes : Text

-- `schema` is always 1.
pub record ReuseReview : Type 0 where
  pub subsystem : Text
  pub search_performed : List Text
  pub candidates : List ReuseCandidate
  pub decision : Text
  pub custom_build_reason : Text
  pub selected : List ReuseCandidate

pub data Blocker : Type 0 where
  review_required : Blocker
  review_invalid : ReviewError → Blocker
  receipt_required : Blocker

pub record BuildReadiness : Type 0 where
  pub ready : Bool
  pub work_kind : Text
  pub blocker : Option Blocker
  pub review : Option ReuseReview
