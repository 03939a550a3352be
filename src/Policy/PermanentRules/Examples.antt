-- ===== src/Policy/PermanentRules/Examples.antt =====
-- A file of rules on concrete data, and the theorems at it.
use forge_boss.Base.{
  ◌≡◌, refl, ◌⊎◌, true, false, List, [], ◌∷◌, some, map, Text, codes, eq_text, same_texts, strip,
  lstrip, rstrip, elem, ok, err, ◌>>=◌,
}
use forge_boss.Base.Int.{pos}
use forge_boss.Value.{
  null, int, str, arr, obj, Items, nil, cons, Fields, end, field, get, has, to_list, of_texts,
  append_field,
}
use forge_boss.Runtime.Plain.{plain, plain_digest}
use forge_boss.Envelope.{utf8}
use forge_boss.Policy.ReuseReview.{strict_keys, keys_within, has_duplicate}
use forge_boss.Policy.PermanentRules.{
  Rule, PermanentRuleset, Reader, expected_ruleset_id, expected_ruleset_version, expected_status,
  expected_scopes, expected_precedence, expected_rule_ids, numbered_ids,
  expected_structured_records, rules_text, text_items, string_tuple, find_rule, read_rule,
  read_rules, rule_list, expected_digest, canonical_bytes, add_pairs, reject_duplicate_pairs,
  read_document, load_permanent_rules, require_rule, duplicate_key, rule_unavailable,
}
use forge_boss.Policy.PermanentRules.Soundness.{IsContract, load_permanent_rules-IsContract}
use forge_boss.Policy.PermanentRules.Lookup.{require_rule-answers}

abbrev rule_items : List Text → Items
rule_items [] = nil
rule_items (id ∷ ids) =
    cons
      (obj (
        field "id" (str id) (field "name" (str (codes " N ")) (field "law" (str (codes "L")) end))))
      (rule_items ids)

abbrev document : Fields
document = field "schema" (int (pos 1)) (
    field "ruleset_id" (str expected_ruleset_id) (
      field "ruleset_version" (str expected_ruleset_version) (
        field "status" (str expected_status) (
          field "applies_to" (arr (of_texts expected_scopes)) (
            field "precedence" (arr (of_texts expected_precedence)) (
              field "rules" (arr (rule_items expected_rule_ids)) (
                field "required_structured_records" (arr (of_texts expected_structured_records))
                  (field "note" (str (codes "note")) end))))))))

-- One file, whose pairs are the document's
abbrev one_file : Reader
one_file = record {
  is_file = λ path. true;
  read_bytes = λ path. some [];
  loads = λ pairs constant raw. pairs document >>= λ fs. ok (some (obj fs));
  dumps = λ v. some (codes "{}");
}

-- The operations that the tests run
opened : Unit {0}
unfolding plain eq_text same_texts strip lstrip rstrip elem get has to_list of_texts append_field
    utf8 strict_keys keys_within has_duplicate expected_rule_ids numbered_ids rules_text text_items
    string_tuple find_rule read_rule read_rules rule_list expected_digest canonical_bytes add_pairs
    reject_duplicate_pairs read_document load_permanent_rules require_rule
opened = tt

abbrev loaded : PermanentRuleset
loaded = record {
  ruleset_id = expected_ruleset_id;
  ruleset_version = expected_ruleset_version;
  status = expected_status;
  applies_to = expected_scopes;
  precedence = expected_precedence;
  rules = map (λ id. record { id = id; name = codes "N"; law = codes "L" }) expected_rule_ids;
  required_structured_records = expected_structured_records;
  note = codes "note";
  sha256 = plain_digest [];
  canonical_sha256 = plain_digest (codes "{}");
  source_path = codes "/rules.json";
}

loads : load_permanent_rules plain one_file (codes "/rules.json") null ≡ ok loaded
unfolding opened
loads = refl

repeated_key :
    reject_duplicate_pairs (field "a" null (field "b" null (field "a" null end)))
    ≡ err (duplicate_key "a")
unfolding opened
repeated_key = refl

load_permanent_rules-IsContract_example :
    IsContract plain one_file (codes "/rules.json") null loaded
load_permanent_rules-IsContract_example =
    load_permanent_rules-IsContract plain one_file (codes "/rules.json") null loaded loads

cleaned : rules_text (str (codes " FB-PERM-048 ")) (codes "rule_id") ≡ ok (codes "FB-PERM-048")
unfolding opened
cleaned = refl

require_rule-answers_example :
    ((elem (codes "FB-PERM-048") expected_rule_ids ≡ true)
      × ((r : Rule) × (require_rule loaded (str (codes " FB-PERM-048 ")) ≡ ok r)
          × (r.id ≡ codes "FB-PERM-048")))
    ⊎ ((elem (codes "FB-PERM-048") expected_rule_ids ≡ false)
        × (require_rule loaded (str (codes " FB-PERM-048 "))
            ≡ err (rule_unavailable (codes "FB-PERM-048"))))
require_rule-answers_example =
    require_rule-answers plain one_file (codes "/rules.json") null loaded loads
      (str (codes " FB-PERM-048 ")) (codes "FB-PERM-048") cleaned
