-- ===== src/Policy/SmallRepair/Bindings.antt =====
-- When bindings agree, and how the entries of a binding read.
use forge_boss.Base.{
  same_texts_eq, same_texts_refl, ℕ, ◌≡◌, subst, true, List, [], ◌∷◌, some, arith, Text,
  eq_text_iff, eq_text_refl, ok, all,
}
use forge_boss.Value.{Value, str, arr, of_texts}
use forge_boss.Runtime.{Runtime}
use forge_boss.Store.Identity.{is_lower_hex}
use forge_boss.Store.Governance.{is_sha256}
use forge_boss.Envelope.{utf8}
use forge_boss.Policy.Signed.Laws.{strip_hex, no_control, to_lower_hex}
use forge_boss.Policy.SmallRepair.{
  Binding, required_text, objective_sha256, bindings_agree, token_objective, binding, repository_of,
  base_sha_of, allowed_paths,
}

pub required_text_relabel :
    (label other : _) (v : Value) (t : Text)
    → required_text label v ≡ ok t
    → required_text other v ≡ ok t
unfolding required_text
required_text_relabel label other (str s) t h = ground arith
required_text_relabel label other _ t h = cc

pub token_objective-digest : (s : Text) → is_sha256 s ≡ true → token_objective (str s) ≡ ok s
unfolding token_objective required_text
token_objective-digest [] h = absurd (unfold is_sha256 in cc)
token_objective-digest (c ∷ s) h =
    let hex : all is_lower_hex (c ∷ s) ≡ true = unfold is_sha256 in ground arith in
    rw (strip_hex (c ∷ s) hex, no_control (c ∷ s) hex, to_lower_hex (c ∷ s) hex, h)

pub objective-is_sha256 :
    (rt : Runtime)
    → ((data_bytes : List ℕ) → is_sha256 (rt.sha256_hex data_bytes) ≡ true)
    → (v : Value) (d : Text) → objective_sha256 rt v ≡ ok d
    → is_sha256 d ≡ true
unfolding objective_sha256
objective-is_sha256 rt hashes (str s) d h =
    let (encoded, read) : (x : List ℕ) × (utf8 s ≡ some x) = ground arith in
    let same : rt.sha256_hex encoded ≡ d = ground arith in
    subst (λ x. is_sha256 x ≡ true) same (hashes encoded)
objective-is_sha256 rt hashes _ d h = cc

pub bindings_agree_eq : (a b : Binding) → bindings_agree a b ≡ true → a ≡ b
unfolding bindings_agree
bindings_agree_eq a b h =
    let task : a.task_id ≡ b.task_id = ground (arith, eq_text_iff a.task_id b.task_id) in
    let repo : a.repository ≡ b.repository =
      ground (arith, eq_text_iff a.repository b.repository) in
    let base : a.base_sha ≡ b.base_sha = ground (arith, eq_text_iff a.base_sha b.base_sha) in
    let sha256 : a.objective_sha256 ≡ b.objective_sha256 =
      ground (arith, eq_text_iff a.objective_sha256 b.objective_sha256) in
    let allowed : a.allowed_paths ≡ b.allowed_paths =
      same_texts_eq a.allowed_paths b.allowed_paths (ground arith) in
    cc

pub bindings_agree_refl : (b : Binding) → bindings_agree b b ≡ true
unfolding bindings_agree
bindings_agree_refl b = ground (
  arith,
  eq_text_refl b.task_id,
  eq_text_refl b.repository,
  eq_text_refl b.base_sha,
  eq_text_refl b.objective_sha256,
  same_texts_refl b.allowed_paths,
)

-- The entries of a binding that is its own normal form
pub binding_entries :
    (rt : Runtime) (b : Binding) (objective : Text)
    → binding rt
        (str b.task_id)
        (str b.repository)
        (str b.base_sha)
        (str objective)
        (arr (of_texts b.allowed_paths))
      ≡ ok b
    → (required_text "taskId" (str b.task_id) ≡ ok b.task_id)
      × (repository_of rt (str b.repository) ≡ ok b.repository)
      × (base_sha_of (str b.base_sha) ≡ ok b.base_sha)
      × (objective_sha256 rt (str objective) ≡ ok b.objective_sha256)
      × (allowed_paths rt (arr (of_texts b.allowed_paths)) ≡ ok b.allowed_paths)
unfolding binding
binding_entries rt b objective normal =
    (ground arith, ground arith, ground arith, ground arith, ground arith)
