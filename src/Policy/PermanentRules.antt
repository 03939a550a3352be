-- ===== src/Policy/PermanentRules.antt =====
-- forgeboss/policy/permanent_rules.py: the file of permanent rules, its contract, and the lookup of
-- a rule. The argument `expected_canonical_sha256` may be any value, `null` for `None`.
mod Terms
mod Entries
pub mod Soundness
pub mod Lookup
mod Examples
unfoldable pub use Terms.*
unfoldable pub use Entries.*
use forge_boss.Base.{
  ℕ, Bool, true, false, not, List, [], ◌∷◌, ◌++◌, Option, none, some, map, Text, codes, eq_text,
  same_texts, Result, ok, err, raise_if, or_raise, from_option, ◌>>=◌, ◌>>◌,
}
use forge_boss.Value.{Value, null, str, obj, Fields, get}
use forge_boss.Runtime.{Runtime}
use forge_boss.Envelope.{utf8}
use forge_boss.Policy.ReuseReview.{strict_keys, is_one}

-- What the loader takes from Python
pub record Reader : Type 0 where
  -- `Path(path).is_file()`, and `Path(path).read_bytes()` with `none` for `OSError`
  pub is_file : Text → Bool
  pub read_bytes : Text → Option (List ℕ)
  -- `json.loads(raw.decode("utf-8"), object_pairs_hook=…, parse_constant=…)`: what a hook raises
  -- passes through, and `none` is `UnicodeDecodeError` or `JSONDecodeError`.
  pub loads :
      (Fields → Result RulesError Fields)
      → (Text → Result RulesError Value)
      → List ℕ
      → Result RulesError (Option Value)
  -- `json.dumps(document, …, allow_nan=False)`, with `none` for `ValueError`
  pub dumps : Value → Option Text

module _ (rt : Runtime) (reader : Reader) where
  unfoldable pub canonical_bytes : Fields → Result RulesError (List ℕ)
  canonical_bytes document = do
    text ← from_option not_encodable (reader.dumps (obj document))
    from_option not_encodable (utf8 text)

  abbrev pub check_digest : Option Text → Text → Result RulesError (Unit {0})
  check_digest none digest = ok tt
  check_digest (some expected) digest = raise_if (not (eq_text digest expected)) digest_mismatch

  unfoldable pub read_document : Text → List ℕ → Value → Fields → Result RulesError PermanentRuleset
  read_document path raw expected_sha256 document = do
    or_raise top_level_mismatch (strict_keys expected_top_level_keys "permanent rules" document)
    encoded ← canonical_bytes document
    expected ← expected_digest expected_sha256
    check_digest expected (rt.sha256_hex encoded)
    raise_if (not (is_one (get "schema" document))) unsupported_schema
    ruleset_id ← rules_text (get "ruleset_id" document) (codes "ruleset_id")
    version ← rules_text (get "ruleset_version" document) (codes "ruleset_version")
    status ← rules_text (get "status" document) (codes "status")
    note ← rules_text (get "note" document) (codes "note")
    raise_if (not (eq_text ruleset_id expected_ruleset_id)) unexpected_ruleset_id
    raise_if (not (eq_text version expected_ruleset_version)) unsupported_version
    raise_if (not (eq_text status expected_status)) unexpected_status
    scopes ← string_tuple (get "applies_to" document) (codes "applies_to")
    raise_if (not (same_texts scopes expected_scopes)) unexpected_scopes
    precedence ← string_tuple (get "precedence" document) (codes "precedence")
    raise_if (not (same_texts precedence expected_precedence)) unexpected_precedence
    indexed ← rule_list (get "rules" document)
    raise_if (not (same_texts (map (λ (r : Rule). r.id) indexed) expected_rule_ids)) rules_mismatch
    records ←
        string_tuple (get "required_structured_records" document)
          (codes "required_structured_records")
    raise_if (not (same_texts records expected_structured_records)) records_mismatch
    ok (record {
      ruleset_id = ruleset_id;
      ruleset_version = version;
      status = status;
      applies_to = scopes;
      precedence = precedence;
      rules = indexed;
      required_structured_records = records;
      note = note;
      sha256 = rt.sha256_hex raw;
      canonical_sha256 = rt.sha256_hex encoded;
      source_path = rt.resolve path;
    })

  -- What the parser gives, as the root of the document
  abbrev pub root_object : Option Value → Result RulesError Fields
  root_object none = err not_json
  root_object (some (obj document)) = ok document
  root_object (some _) = err root_not_object

  unfoldable pub load_permanent_rules : Text → Value → Result RulesError PermanentRuleset
  load_permanent_rules path expected_sha256 = do
    raise_if (not (reader.is_file path)) file_missing
    raw ← from_option file_unreadable (reader.read_bytes path)
    parsed ← reader.loads reject_duplicate_pairs reject_json_constant raw
    document ← root_object parsed
    read_document path raw expected_sha256 document

  -- `root` with a slash is the path of the file below it.
  unfoldable pub load_default_rules : Text → Result RulesError PermanentRuleset
  load_default_rules root =
      load_permanent_rules (root ++ codes "/docs/bootstrap/PERMANENT_RULES.json")
        (str pinned_canonical_sha256)

unfoldable pub require_rule : PermanentRuleset → Value → Result RulesError Rule
require_rule rules rule_id = do
  clean ← rules_text rule_id (codes "rule_id")
  from_option (rule_unavailable clean) (find_rule clean rules.rules)
