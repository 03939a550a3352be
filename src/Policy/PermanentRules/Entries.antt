-- ===== src/Policy/PermanentRules/Entries.antt =====
-- The readers of the document's entries in forgeboss/policy/permanent_rules.py.
use forge_boss.Base.{
  Bool, true, false, ◌++◌, List, [], ◌∷◌, Option, none, some, if◌then◌else◌, any, map, is_empty,
  Text, codes, eq_text, strip, is_control, Result, ok, err, raise_if, or_raise, ◌>>=◌, ◌>>◌,
}
use forge_boss.Casefold.{to_lower}
use forge_boss.Value.{
  Value, null, str, arr, obj, Fields, end, field, get, has, to_list, append_field,
}
use forge_boss.Store.Governance.{is_sha256}
use forge_boss.Policy.ReuseReview.{strict_keys, has_duplicate}
use forge_boss.Policy.PermanentRules.Terms.{
  RulesError, not_a_string, text_required, control_characters, not_an_array, duplicate_values,
  digest_not_string, digest_not_hex, duplicate_key, constant_forbidden, rules_not_array,
  rule_not_object, rule_fields_mismatch, duplicate_rule_id, Rule, expected_rule_keys,
}

-- `_text`
unfoldable pub rules_text : Value → Text → Result RulesError Text
rules_text (str s) label = do
  raise_if (is_empty (strip s)) (text_required label)
  raise_if (any is_control (strip s)) (control_characters label)
  ok (strip s)
rules_text _ label = err (not_a_string label)

unfoldable pub text_items : List Value → Text → Result RulesError (List Text)
text_items [] label = ok []
text_items (v ∷ vs) label = do
  first ← rules_text v label
  rest ← text_items vs label
  ok (first ∷ rest)

-- `_string_tuple`
unfoldable pub string_tuple : Value → Text → Result RulesError (List Text)
string_tuple (arr items) label = do
  out ← text_items (to_list items) label
  raise_if (has_duplicate out) (duplicate_values label)
  ok out
string_tuple _ label = err (not_an_array label)

unfoldable pub expected_digest : Value → Result RulesError (Option Text)
expected_digest null = ok none
expected_digest (str s) =
    let digest = map to_lower (strip s) in
    if is_sha256 digest then ok (some digest) else err digest_not_hex
expected_digest _ = err digest_not_string

-- `_reject_duplicate_pairs`, from the pairs that are accepted already
unfoldable pub add_pairs : Fields → Fields → Result RulesError Fields
add_pairs result end = ok result
add_pairs result (field key value pairs) =
    if has key result
    then err (duplicate_key key)
    else add_pairs (append_field result key value) pairs

unfoldable pub reject_duplicate_pairs : Fields → Result RulesError Fields
unfolding add_pairs
reject_duplicate_pairs pairs = add_pairs end pairs

unfoldable pub reject_json_constant : Text → Result RulesError Value
reject_json_constant value = err (constant_forbidden value)

-- `indexed[clean]`, with `none` for `KeyError`
unfoldable pub find_rule : Text → List Rule → Option Rule
find_rule id [] = none
find_rule id (r ∷ rs) = if eq_text r.id id then some r else find_rule id rs

abbrev is_indexed : Option Rule → Bool
is_indexed none = false
is_indexed (some r) = true

unfoldable pub read_rule : Value → List Rule → Result RulesError (List Rule)
read_rule (obj entry) indexed = do
  or_raise rule_fields_mismatch (strict_keys expected_rule_keys "rule" entry)
  rule_id ← rules_text (get "id" entry) (codes "rule.id")
  name ← rules_text (get "name" entry) (rule_id ++ codes ".name")
  law ← rules_text (get "law" entry) (rule_id ++ codes ".law")
  raise_if (is_indexed (find_rule rule_id indexed)) (duplicate_rule_id rule_id)
  ok (indexed ++ (record { id = rule_id; name = name; law = law } ∷ []))
read_rule _ indexed = err rule_not_object

unfoldable pub read_rules : List Value → List Rule → Result RulesError (List Rule)
read_rules [] indexed = ok indexed
read_rules (entry ∷ rest) indexed = do grown ← read_rule entry indexed; read_rules rest grown

unfoldable pub rule_list : Value → Result RulesError (List Rule)
rule_list (arr items) = read_rules (to_list items) []
rule_list _ = err rules_not_array
