-- ===== src/Policy/ReuseReview/Soundness.antt =====
-- What an accepted review records.
use forge_boss.Base.{
  ◌≡◌, ◌≢◌, ◌⊎◌, inl, inr, refl, sym, ◌∙◌, subst, ap, if_cases, true, false, List, [], ◌∷◌, Option,
  none, some, arith, map, any, is_empty, All, OnSome, Text, codes, eq_text_iff, elem, is_control,
  ok, Bool-cases, >>=-eq-ok,
}
use forge_boss.Value.{Value, obj, arr, str, Fields, get, to_list}
use forge_boss.Policy.ReuseReview.{
  strict_keys, candidate_keys, ReuseCandidate, ReuseReview, upstream, decisions,
  compatible_licenses, acceptable_fits, clean_text, clean_texts, searches, is_selected,
  check_selected, check_candidate, read_candidate, candidate, read_candidates, candidate_list,
  selected_of, has_duplicate, check_subsystem, check_decision, validate_fields,
  validate_reuse_review,
}

-- A component that work may take: known, and compatible in licence, platform and security
pub record IsAcceptable (c : ReuseCandidate) : Type 0 where
  pub identified : c.exact_identity ≢ []
  pub licensed : elem c.license_status compatible_licenses ≡ true
  pub fits_platform : elem c.platform_fit acceptable_fits ≡ true
  pub fits_security : elem c.security_fit acceptable_fits ≡ true

abbrev pub IsSound : ReuseCandidate → Type 0
IsSound c = is_selected c ≡ true → IsAcceptable c

abbrev pub Distinct : List Text → Type 0
Distinct [] = Unit
Distinct (x ∷ xs) = All (λ y. y ≢ x) xs × Distinct xs

abbrev pub IsPlain : Text → Type 0
IsPlain t = (t ≢ []) × (any is_control t ≡ false)

-- Upstream components and no reason against them, or a reason and candidates that were considered
abbrev pub IsDecided : ReuseReview → Type 0
IsDecided r =
    ((elem r.decision upstream ≡ true) × (r.selected ≢ []) × (r.custom_build_reason ≡ []))
    ⊎ ((r.decision ≡ codes "custom")
        × (r.selected ≡ [])
        × (r.custom_build_reason ≢ [])
        × (r.candidates ≢ []))

pub record IsValid (r : ReuseReview) : Type 0 where
  pub plain : IsPlain r.subsystem
  pub searched : r.search_performed ≢ []
  pub plain_searches : All IsPlain r.search_performed
  pub distinct_searches : Distinct r.search_performed
  pub distinct_names : Distinct (map (λ (c : ReuseCandidate). c.name) r.candidates)
  pub takes : r.selected ≡ selected_of r.candidates
  pub acceptable : All IsAcceptable r.selected
  pub decided : IsDecided r

nonempty : {A : Type 0} (xs : List A) → is_empty xs ≡ false → xs ≢ []
nonempty [] h = absurd (cc)
nonempty (x ∷ xs) h = cc

empty : {A : Type 0} (xs : List A) → is_empty xs ≡ true → xs ≡ []
empty [] h = refl
empty (x ∷ xs) h = absurd (cc)

clean_text-IsPlain :
    (label : _) (v : Value) (t : Text) → clean_text label false v ≡ ok t → IsPlain t
unfolding clean_text
clean_text-IsPlain label (str s) t h = ground (arith, nonempty t)
clean_text-IsPlain label _ t h = cc

clean_texts-IsPlain :
    (label : _) (vs : List Value) (ts : List Text) → clean_texts label vs ≡ ok ts → All IsPlain ts
unfolding clean_texts
clean_texts-IsPlain label [] [] h = tt
clean_texts-IsPlain label [] (t ∷ ts) h = cc
clean_texts-IsPlain label (v ∷ vs) ts h =
    let (t, read, then) = >>=-eq-ok (clean_text label false v) _ h in
    let (rest, reads, done) = >>=-eq-ok (clean_texts label vs) _ then in
    let same : (t ∷ rest) ≡ ts = cc in
    subst (All IsPlain) same
      (clean_text-IsPlain label v t read, clean_texts-IsPlain label vs rest reads)

pub elem-false : (x : Text) (xs : List Text) → elem x xs ≡ false → All (λ y. y ≢ x) xs
unfolding elem
elem-false x [] h = tt
elem-false x (y ∷ ys) h = (ground (arith, eq_text_iff x y), elem-false x ys (ground arith))

pub has_duplicate-Distinct : (xs : List Text) → has_duplicate xs ≡ false → Distinct xs
unfolding has_duplicate
has_duplicate-Distinct [] h = tt
has_duplicate-Distinct (x ∷ xs) h =
    (elem-false x xs (ground arith), has_duplicate-Distinct xs (ground arith))

check_selected-IsSound : (c d : ReuseCandidate) → check_selected c ≡ ok d → (d ≡ c) × IsSound c
unfolding check_selected
check_selected-IsSound c d h = (ground arith, go)
  where
    go : is_selected c ≡ true → IsAcceptable c
    go e =
        let anonymous : is_empty c.exact_identity ≡ false = ground arith in
        record {
          identified = nonempty c.exact_identity anonymous;
          licensed = ground arith;
          fits_platform = ground arith;
          fits_security = ground arith;
        }

check_candidate-IsSound : (c d : ReuseCandidate) → check_candidate c ≡ ok d → IsSound d
unfolding check_candidate
check_candidate-IsSound c d h =
    let checked : check_selected c ≡ ok d = ground arith in
    let (same, sound) = check_selected-IsSound c d checked in subst IsSound (sym same) sound

candidate-IsSound : (v : Value) (c : ReuseCandidate) → candidate v ≡ ok c → IsSound c
unfolding candidate
candidate-IsSound (obj fs) c h =
    let (_, keys, then) = >>=-eq-ok (strict_keys candidate_keys "candidate" fs) _ h in
    let (read, reads, done) = >>=-eq-ok (read_candidate fs) _ then in
    check_candidate-IsSound read c done
candidate-IsSound _ c h = cc

read_candidates-IsSound :
    (vs : List Value) (cs : List ReuseCandidate) → read_candidates vs ≡ ok cs → All IsSound cs
unfolding read_candidates
read_candidates-IsSound [] [] h = tt
read_candidates-IsSound [] (c ∷ cs) h = cc
read_candidates-IsSound (v ∷ vs) cs h =
    let (c, read, then) = >>=-eq-ok (candidate v) _ h in
    let (rest, reads, done) = >>=-eq-ok (read_candidates vs) _ then in
    let same : (c ∷ rest) ≡ cs = cc in
    subst (All IsSound) same (candidate-IsSound v c read, read_candidates-IsSound vs rest reads)

candidate_list-IsSound :
    (v : Value) (cs : List ReuseCandidate) → candidate_list v ≡ ok cs → All IsSound cs
unfolding candidate_list
candidate_list-IsSound (arr items) cs h = read_candidates-IsSound (to_list items) cs h
candidate_list-IsSound _ cs h = cc

selected_of-IsAcceptable :
    (cs : List ReuseCandidate) → All IsSound cs → All IsAcceptable (selected_of cs)
unfolding selected_of
selected_of-IsAcceptable [] h = tt
selected_of-IsAcceptable (c ∷ cs) (s, h) =
    let rest = selected_of-IsAcceptable cs h in
    if_cases (All IsAcceptable) (is_selected c) (λ e. (s e, rest)) (λ e. rest)

searches-found :
    (v : Value) (ts : List Text) → searches v ≡ ok ts → (ts ≢ []) × All IsPlain ts × Distinct ts
unfolding searches
searches-found (arr items) ts h =
    let read : clean_texts "search_performed item" (to_list items) ≡ ok ts = ground arith in
    let some_search : is_empty ts ≡ false = ground arith in
    let once : has_duplicate ts ≡ false = ground arith in
    (
      nonempty ts some_search,
      clean_texts-IsPlain "search_performed item" (to_list items) ts read,
      has_duplicate-Distinct ts once,
    )
searches-found _ ts h = cc

custom_decision :
    (t : Text) → elem t decisions ≡ true → elem t upstream ≡ false → t ≡ codes "custom"
unfolding elem
custom_decision t known h = ground (arith, eq_text_iff t (codes "custom"))

check_decision-decides :
    (decision : Text) (candidates selected : List ReuseCandidate) (reason : Text)
    → elem decision decisions ≡ true
    → check_decision decision candidates selected reason ≡ ok tt
    → ((elem decision upstream ≡ true) × (selected ≢ []) × (reason ≡ []))
      ⊎ ((decision ≡ codes "custom") × (selected ≡ []) × (reason ≢ []) × (candidates ≢ []))
unfolding check_decision
check_decision-decides decision candidates selected reason known h =
    elim (Bool-cases (elem decision upstream)) [
      | inl e ↦
          let a : is_empty selected ≡ false = ground arith in
          let b : is_empty reason ≡ true = ground arith in
          inl (e, nonempty selected a, empty reason b)
      | inr e ↦
          let a : is_empty selected ≡ true = ground arith in
          let b : is_empty reason ≡ false = ground arith in
          let c : is_empty candidates ≡ false = ground arith in
          inr (
            custom_decision decision known e,
            empty selected a,
            nonempty reason b,
            nonempty candidates c,
          )
    ]

check_subsystem-matches :
    (expected : Option Value) (t : Text)
    → check_subsystem expected t ≡ ok tt
    → OnSome (λ v. clean_text "expected_subsystem" false v ≡ ok t) expected
unfolding check_subsystem
check_subsystem-matches none t h = tt
check_subsystem-matches (some v) t h =
    let (wanted, read, then) = >>=-eq-ok (clean_text "expected_subsystem" false v) _ h in
    let same : wanted ≡ t = ground (arith, eq_text_iff t wanted) in read ∙ ap ok same

validate_fields-IsValid :
    (expected : Option Value) (fs : Fields) (r : ReuseReview)
    → validate_fields expected fs ≡ ok r
    → IsValid r × OnSome (λ v. clean_text "expected_subsystem" false v ≡ ok r.subsystem) expected
unfolding validate_fields
validate_fields-IsValid expected fs r h =
    let subsystem : clean_text "subsystem" false (get "subsystem" fs) ≡ ok r.subsystem =
      ground arith in
    let matches : check_subsystem expected r.subsystem ≡ ok tt = ground arith in
    let searched : searches (get "search_performed" fs) ≡ ok r.search_performed = ground arith in
    let listed : candidate_list (get "candidates" fs) ≡ ok r.candidates = ground arith in
    let named : has_duplicate (map (λ (c : ReuseCandidate). c.name) r.candidates) ≡ false =
      ground arith in
    let known : elem r.decision decisions ≡ true = ground arith in
    let takes : r.selected ≡ selected_of r.candidates = ground arith in
    let decided : check_decision r.decision r.candidates r.selected r.custom_build_reason ≡ ok tt =
      ground arith in
    let (some_search, plain_searches, distinct_searches) =
      searches-found _ r.search_performed searched in
    (
      record {
        plain = clean_text-IsPlain "subsystem" _ r.subsystem subsystem;
        searched = some_search;
        plain_searches = plain_searches;
        distinct_searches = distinct_searches;
        distinct_names = has_duplicate-Distinct _ named;
        takes = takes;
        acceptable =
            subst (All IsAcceptable) (sym takes) (
              selected_of-IsAcceptable r.candidates (candidate_list-IsSound _ r.candidates listed));
        decided =
            check_decision-decides r.decision r.candidates r.selected r.custom_build_reason known
              decided;
      },
      check_subsystem-matches expected r.subsystem matches,
    )

-- A document that is accepted gives a review of the expected subsystem, with distinct searches and
-- candidates, in which each selected component is known and compatible in licence, platform and
-- security, and the decision agrees with what is selected, the reason and the candidates.
pub validate_reuse_review-IsValid :
    (expected : Option Value) (document : Value) (r : ReuseReview)
    → validate_reuse_review expected document ≡ ok r
    → IsValid r × OnSome (λ v. clean_text "expected_subsystem" false v ≡ ok r.subsystem) expected
unfolding validate_reuse_review
validate_reuse_review-IsValid expected (obj fs) r h = validate_fields-IsValid expected fs r h
validate_reuse_review-IsValid expected _ r h = cc
