-- ===== src/Policy/PermanentRules/Lookup.antt =====
-- `require_rule` on a ruleset that is loaded.
use forge_boss.Base.{
  ◌≡◌, refl, subst, ◌⊎◌, inl, inr, true, false, List, [], ◌∷◌, none, some, arith, map, Text, codes,
  eq_text, eq_text_iff, eq_text_refl, elem, ok, err, Bool-cases,
}
use forge_boss.Value.{Value}
use forge_boss.Runtime.{Runtime}
use forge_boss.Policy.PermanentRules.{
  Rule, PermanentRuleset, Reader, expected_rule_ids, rules_text, find_rule, load_permanent_rules,
  require_rule, rule_unavailable,
}
use forge_boss.Policy.PermanentRules.Soundness.{load_permanent_rules-IsContract}

abbrev ids : List Rule → List Text
ids rules = map (λ (r : Rule). r.id) rules

abbrev IsFound : Text → List Rule → Type 0
IsFound id rules =
    (elem id (ids rules) ≡ true) × ((r : Rule) × (find_rule id rules ≡ some r) × (r.id ≡ id))

abbrev IsMissing : Text → List Rule → Type 0
IsMissing id rules = (elem id (ids rules) ≡ false) × (find_rule id rules ≡ none)

find_rule-cases : (id : Text) (rules : List Rule) → IsFound id rules ⊎ IsMissing id rules
unfolding find_rule elem
find_rule-cases id [] = inr (refl, refl)
find_rule-cases id (rule ∷ rules) = elim (Bool-cases (eq_text rule.id id)) [
  | inl same ↦
      let names : rule.id ≡ id = (eq_text_iff rule.id id).0 same in
      let other : eq_text id rule.id ≡ true = rw (names, eq_text_refl id) in
      inl (ground arith, (rule, ground arith, names))
  | inr differs ↦
      let other : eq_text id rule.id ≡ false =
        ground (arith, eq_text_iff id rule.id, eq_text_iff rule.id id) in
      elim (find_rule-cases id rules) [
        | inl (known, (r, found, same)) ↦ inl (ground arith, (r, ground arith, same))
        | inr (unknown, missing) ↦ inr (ground arith, ground arith)
      ]
]

-- In a ruleset that is loaded, a text that is an identifier of the contract, up to blanks around it,
-- has its rule; for another text the rule is unavailable.
pub require_rule-answers :
    (rt : Runtime) (reader : Reader) (path : Text) (expected_sha256 : Value) (rs : PermanentRuleset)
    → load_permanent_rules rt reader path expected_sha256 ≡ ok rs
    → (rule_id : Value) (clean : Text) → rules_text rule_id (codes "rule_id") ≡ ok clean
    → ((elem clean expected_rule_ids ≡ true)
        × ((r : Rule) × (require_rule rs rule_id ≡ ok r) × (r.id ≡ clean)))
      ⊎ ((elem clean expected_rule_ids ≡ false)
          × (require_rule rs rule_id ≡ err (rule_unavailable clean)))
unfolding require_rule
require_rule-answers rt reader path expected_sha256 rs loaded rule_id clean read =
    let contract = load_permanent_rules-IsContract rt reader path expected_sha256 rs loaded in
    let same : ids rs.rules ≡ expected_rule_ids = contract.rule_ids in
    elim (find_rule-cases clean rs.rules) [
      | inl (known, (r, found, named)) ↦
          inl (subst (λ x. elem clean x ≡ true) same known, (r, rw (read, found), named))
      | inr (unknown, missing) ↦
          inr (subst (λ x. elem clean x ≡ false) same unknown, rw (read, missing))
    ]
