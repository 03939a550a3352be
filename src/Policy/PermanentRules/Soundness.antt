-- ===== src/Policy/PermanentRules/Soundness.antt =====
-- What a ruleset that is loaded holds.
use forge_boss.Base.{
  ◌≡◌, refl, sym, ap, ◌∙◌, ◌≢◌, false≢true, subst, ◌⊎◌, inl, inr, true, false, not, List, [], ◌∷◌,
  ◌++◌, Option, none, some, arith, map, All, All-append, ℕ, Text, codes, eq_text, eq_text_iff,
  same_texts, same_texts_eq, is_empty, strip, ok, or_raise, raise_if, from_option,
  from_option-eq-ok, >>=-eq-ok,
}
use forge_boss.Value.{Value, str, arr, obj, Fields, get}
use forge_boss.Runtime.{Runtime}
use forge_boss.Policy.ReuseReview.{strict_keys}
use forge_boss.Policy.PermanentRules.{
  Rule, PermanentRuleset, Reader, expected_ruleset_id, expected_ruleset_version, expected_status,
  expected_scopes, expected_precedence, expected_rule_ids, expected_structured_records,
  expected_rule_keys, rule_fields_mismatch, top_level_mismatch, expected_top_level_keys, rules_text,
  read_rule, read_rules, rule_list, expected_digest, canonical_bytes, check_digest, read_document,
  load_permanent_rules, root_object, file_unreadable, file_missing, reject_duplicate_pairs,
  reject_json_constant,
}

abbrev pub IsWorded : Rule → Type 0
IsWorded r = (r.name ≢ []) × (r.law ≢ [])

rules_text-ne-nil : (v : Value) (label t : Text) → rules_text v label ≡ ok t → t ≢ []
unfolding rules_text
rules_text-ne-nil (str s) label t h =
    let worded : is_empty (strip s) ≡ false = ground arith in
    let same : strip s ≡ t = ground arith in λ n. false≢true (sym worded ∙ ap is_empty (same ∙ n))
rules_text-ne-nil _ label t h = cc

read_rule-IsWorded :
    (entry : Value) (indexed grown : List Rule)
    → read_rule entry indexed ≡ ok grown
    → All IsWorded indexed
    → All IsWorded grown
unfolding read_rule
read_rule-IsWorded (obj entry) indexed grown h worded =
    let (_, keys, rest) =
      >>=-eq-ok (or_raise rule_fields_mismatch (strict_keys expected_rule_keys "rule" entry)) _ h in
    let (rule_id, read_id, then) =
      >>=-eq-ok (rules_text (get "id" entry) (codes "rule.id")) _ rest in
    let (name, read_name, further) =
      >>=-eq-ok (rules_text (get "name" entry) (rule_id ++ codes ".name")) _ then in
    let (law, read_law, last) =
      >>=-eq-ok (rules_text (get "law" entry) (rule_id ++ codes ".law")) _ further in
    let grows : indexed ++ (record { id = rule_id; name = name; law = law } ∷ []) ≡ grown =
      ground arith in
    subst (All IsWorded) grows (
      All-append IsWorded indexed _ worded
        ((rules_text-ne-nil _ _ name read_name, rules_text-ne-nil _ _ law read_law), tt))
read_rule-IsWorded _ indexed grown h worded = cc

read_rules-IsWorded :
    (entries : List Value) (indexed rules : List Rule)
    → read_rules entries indexed ≡ ok rules
    → All IsWorded indexed
    → All IsWorded rules
unfolding read_rules
read_rules-IsWorded [] indexed rules h worded = ground (arith, worded)
read_rules-IsWorded (entry ∷ rest) indexed rules h worded =
    let (grown, first, then) = >>=-eq-ok (read_rule entry indexed) _ h in
    read_rules-IsWorded rest grown rules then (read_rule-IsWorded entry indexed grown first worded)

rule_list-IsWorded : (v : Value) (rules : List Rule) → rule_list v ≡ ok rules → All IsWorded rules
unfolding rule_list
rule_list-IsWorded (arr items) rules h = read_rules-IsWorded _ [] rules h tt
rule_list-IsWorded _ rules h = cc

module _ (rt : Runtime) (reader : Reader) where
  -- The ruleset is the contract's, from the document at the path, whose canonical digest it carries.
  pub record IsContract (path : Text) (expected_sha256 : Value) (rs : PermanentRuleset)
      : Type 0 where
    pub ruleset_id : rs.ruleset_id ≡ expected_ruleset_id
    pub ruleset_version : rs.ruleset_version ≡ expected_ruleset_version
    pub status : rs.status ≡ expected_status
    pub applies_to : rs.applies_to ≡ expected_scopes
    pub precedence : rs.precedence ≡ expected_precedence
    pub rule_ids : map (λ (r : Rule). r.id) rs.rules ≡ expected_rule_ids
    pub worded : All IsWorded rs.rules
    pub records : rs.required_structured_records ≡ expected_structured_records
    pub raw : List ℕ
    pub read : reader.read_bytes path ≡ some raw
    pub sha256 : rs.sha256 ≡ rt.sha256_hex raw
    pub document : Fields
    pub parsed :
        reader.loads reject_duplicate_pairs reject_json_constant raw ≡ ok (some (obj document))
    pub encoded : List ℕ
    pub encodes : canonical_bytes rt reader document ≡ ok encoded
    pub canonical_sha256 : rs.canonical_sha256 ≡ rt.sha256_hex encoded
    pub pinned :
        (expected_digest expected_sha256 ≡ ok none)
        ⊎ (expected_digest expected_sha256 ≡ ok (some rs.canonical_sha256))

  check_digest-cases :
      (expected : Option Text) (digest : Text)
      → check_digest rt reader expected digest ≡ ok tt
      → (expected ≡ none) ⊎ (expected ≡ some digest)
  check_digest-cases none digest h = inl refl
  check_digest-cases (some expected) digest h =
      let same : digest ≡ expected = ground (arith, eq_text_iff digest expected) in
      inr (ap some (sym same))

  module _ (path : Text) (raw : List ℕ) (expected_sha256 : Value) (document : Fields)
      (rs : PermanentRuleset)
      (h : read_document rt reader path raw expected_sha256 document ≡ ok rs) where
    read_document-digest :
        (encoded : List ℕ) × (expected : Option Text) × (canonical_bytes rt reader document
          ≡ ok encoded)
        × (expected_digest expected_sha256 ≡ ok expected)
        × (check_digest rt reader expected (rt.sha256_hex encoded) ≡ ok tt)
        × (rs.canonical_sha256 ≡ rt.sha256_hex encoded)
        × (rs.sha256 ≡ rt.sha256_hex raw)
    unfolding read_document
    read_document-digest =
        let (_, keys, a) =
          >>=-eq-ok
            (or_raise top_level_mismatch
              (strict_keys expected_top_level_keys "permanent rules" document))
            _ h in
        let (encoded, encodes, b) = >>=-eq-ok (canonical_bytes rt reader document) _ a in
        let (expected, read, c) = >>=-eq-ok (expected_digest expected_sha256) _ b in
        let (_, checked, d) =
          >>=-eq-ok (check_digest rt reader expected (rt.sha256_hex encoded)) _ c in
        (encoded, expected, encodes, read, checked, ground arith, ground arith)

    read_document-contract :
        (rs.ruleset_id ≡ expected_ruleset_id)
        × (rs.ruleset_version ≡ expected_ruleset_version)
        × (rs.status ≡ expected_status)
        × (rs.applies_to ≡ expected_scopes)
        × (rs.precedence ≡ expected_precedence)
        × (map (λ (r : Rule). r.id) rs.rules ≡ expected_rule_ids)
        × (rule_list (get "rules" document) ≡ ok rs.rules)
        × (rs.required_structured_records ≡ expected_structured_records)
    unfolding read_document
    read_document-contract =
        let a : eq_text rs.ruleset_id expected_ruleset_id ≡ true = ground arith in
        let b : eq_text rs.ruleset_version expected_ruleset_version ≡ true = ground arith in
        let c : eq_text rs.status expected_status ≡ true = ground arith in
        let d : same_texts rs.applies_to expected_scopes ≡ true = ground arith in
        let e : same_texts rs.precedence expected_precedence ≡ true = ground arith in
        let f : same_texts (map (λ (r : Rule). r.id) rs.rules) expected_rule_ids ≡ true =
          ground arith in
        let g : same_texts rs.required_structured_records expected_structured_records ≡ true =
          ground arith in
        (
          (eq_text_iff rs.ruleset_id expected_ruleset_id).0 a,
          (eq_text_iff rs.ruleset_version expected_ruleset_version).0 b,
          (eq_text_iff rs.status expected_status).0 c,
          same_texts_eq rs.applies_to expected_scopes d,
          same_texts_eq rs.precedence expected_precedence e,
          same_texts_eq (map (λ (r : Rule). r.id) rs.rules) expected_rule_ids f,
          ground arith,
          same_texts_eq rs.required_structured_records expected_structured_records g,
        )

  root_object-obj :
      (parsed : Option Value) (document : Fields)
      → root_object rt reader parsed ≡ ok document
      → parsed ≡ some (obj document)
  root_object-obj none document h = cc
  root_object-obj (some (obj fs)) document h = cc
  root_object-obj (some _) document h = cc

  -- A ruleset that is loaded has the identity, version, status, scopes, precedence and structured
  -- records of the contract, its 48 rule identifiers in their order, each with a name and a law; its
  -- digests are those of the bytes of the file and of the canonical bytes of the document in it, and
  -- the second is the digest that was expected, if one was.
  pub load_permanent_rules-IsContract :
      (path : Text) (expected_sha256 : Value) (rs : PermanentRuleset)
      → load_permanent_rules rt reader path expected_sha256 ≡ ok rs
      → IsContract path expected_sha256 rs
  unfolding load_permanent_rules
  load_permanent_rules-IsContract path expected_sha256 rs h =
      let (_, there, a) = >>=-eq-ok (raise_if (not (reader.is_file path)) file_missing) _ h in
      let (raw, read, b) = >>=-eq-ok (from_option file_unreadable (reader.read_bytes path)) _ a in
      let (parsed, loads, c) =
        >>=-eq-ok (reader.loads reject_duplicate_pairs reject_json_constant raw) _ b in
      let (document, root, d) = >>=-eq-ok (root_object rt reader parsed) _ c in
      let (encoded, expected, encodes, digest, checked, canonical_sha256, sha256) =
        read_document-digest path raw expected_sha256 document rs d in
      let (id, version, state, scopes, order, ids, rules, structured) =
        read_document-contract path raw expected_sha256 document rs d in
      record {
        ruleset_id = id;
        ruleset_version = version;
        status = state;
        applies_to = scopes;
        precedence = order;
        rule_ids = ids;
        worded = rule_list-IsWorded (get "rules" document) rs.rules rules;
        records = structured;
        raw = raw;
        read = from_option-eq-ok file_unreadable (reader.read_bytes path) read;
        sha256 = sha256;
        document = document;
        parsed = loads ∙ ap ok (root_object-obj parsed document root);
        encoded = encoded;
        encodes = encodes;
        canonical_sha256 = canonical_sha256;
        pinned = elim (check_digest-cases expected (rt.sha256_hex encoded) checked) [
          | inl same ↦ inl (digest ∙ ap ok same)
          | inr same ↦ inr (digest ∙ ap ok (same ∙ ap some (sym canonical_sha256)))
        ];
      }
