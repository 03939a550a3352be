-- ===== src/Policy/SmallRepair/Inputs.antt =====
-- How forgeboss/policy/small_repair_authority.py reads and normalises its arguments.
use forge_boss.Base.{
  ℕ, ◌*◌, ◌==◌, Bool, false, ◌&&◌, ◌||◌, List, [], ◌∷◌, String, if◌then◌else◌, ltb, leb, any,
  length, is_empty, Text, codes, eq_text, starts_with, elem, replace_char, split, strip, is_control,
  Result, ok, err, raise_if, or_raise, from_option, ◌>>=◌, ◌>>◌,
}
use forge_boss.Base.Int.{ℤ, pos, negsuc}
use forge_boss.Value.{finite, Value, null, int, float, str, arr, to_list, float_of_int}
use forge_boss.Runtime.{Runtime}
use forge_boss.Scheduler.Paths.{canonical_path}
use forge_boss.Scheduler.Batches.{leb_text}
use forge_boss.Store.Identity.{repository_identity, git_object_id}
use forge_boss.Envelope.{utf8}
use forge_boss.Policy.SmallRepair.Terms.{
  RepairError, max_ttl_seconds, Binding, not_a_string, text_required, control_characters,
  repository_not_owner_name, base_not_object_id, objective_not_string, objective_required,
  objective_nul, objective_too_large, paths_not_relative, path_traversal, path_is_root,
  paths_not_array, paths_empty, secret_too_short, not_numeric, not_finite, ttl_not_integer,
  ttl_out_of_range, unicode_error, overflow_error,
}

unfoldable pub required_text : String → Value → Result RepairError Text
required_text label (str s) = do
  raise_if (is_empty (strip s)) (text_required label)
  raise_if (any is_control (strip s)) (control_characters label)
  ok (strip s)
required_text label _ = err (not_a_string label)

unfoldable pub base_sha_of : Value → Result RepairError Text
base_sha_of value = do
  raw ← required_text "baseSha" value
  or_raise base_not_object_id (git_object_id (str raw))

-- `^[A-Za-z]:/`
unfoldable pub starts_with_drive : Text → Bool
unfolding starts_with
starts_with_drive [] = false
starts_with_drive (c ∷ s) =
    (leb b'A' c && leb c b'Z' || leb b'a' c && leb c b'z') && starts_with s (codes ":/")

-- `sorted` of a set: without repetitions, in order
unfoldable pub insert_once : Text → List Text → List Text
unfolding eq_text leb_text
insert_once x [] = x ∷ []
insert_once x (y ∷ ys) =
    let rest = insert_once x ys in
    if eq_text x y then y ∷ ys else if leb_text x y then x ∷ y ∷ ys else y ∷ rest

unfoldable pub secret_bytes : List ℕ → Result RepairError (List ℕ)
secret_bytes secret = do raise_if (ltb (length secret) 32) secret_too_short; ok secret

unfoldable pub timestamp : String → Value → Result RepairError ℤ
timestamp label (int n) = from_option overflow_error (float_of_int n)
timestamp label (float (finite t)) = ok t
timestamp label (float _) = err (not_finite label)
timestamp label _ = err (not_numeric label)

-- `time.time() if now is None else _timestamp(now, "now")`
unfoldable pub instant : ℤ → Value → Result RepairError ℤ
unfolding timestamp
instant clock null = ok clock
instant clock now = timestamp "now" now

-- The guards on `ttl_seconds`, which give the lifetime in seconds
unfoldable pub lifetime : Value → Result RepairError ℕ
lifetime (int (pos n)) = if ltb 0 n && leb n max_ttl_seconds then ok n else err ttl_out_of_range
lifetime (int (negsuc n)) = err ttl_out_of_range
lifetime _ = err ttl_not_integer

module _ (rt : Runtime) where
  unfoldable pub repository_of : Value → Result RepairError Text
  repository_of value = do
    raw ← required_text "repository" value
    or_raise repository_not_owner_name (repository_identity rt.table (str raw))

  unfoldable pub objective_sha256 : Value → Result RepairError Text
  objective_sha256 (str objective) = do
    raise_if (is_empty objective) objective_required
    raise_if (any (λ c. c == 0) objective) objective_nul
    encoded ← from_option unicode_error (utf8 objective)
    raise_if (ltb (128 * 1024) (length encoded)) objective_too_large
    ok (rt.sha256_hex encoded)
  objective_sha256 _ = err objective_not_string

  unfoldable pub allowed_path : Value → Result RepairError Text
  allowed_path value = do
    text ← required_text "allowedPaths item" value
    let raw = replace_char 92 b'/' text
    raise_if (starts_with raw (codes "/") || starts_with_drive raw) paths_not_relative
    raise_if (elem (codes "..") (split b'/' raw)) path_traversal
    let path = canonical_path rt.table raw
    raise_if (is_empty path) path_is_root
    ok path

  unfoldable pub path_set : List Value → Result RepairError (List Text)
  path_set [] = ok []
  path_set (v ∷ vs) = do path ← allowed_path v; rest ← path_set vs; ok (insert_once path rest)

  unfoldable pub allowed_paths : Value → Result RepairError (List Text)
  allowed_paths (arr items) = do
    out ← path_set (to_list items)
    raise_if (is_empty out) paths_empty
    ok out
  allowed_paths _ = err paths_not_array

  -- The normalised arguments, in the order in which both functions compute them
  unfoldable pub binding : Value → Value → Value → Value → Value → Result RepairError Binding
  binding task_id repository base_sha objective paths = do
    task ← required_text "taskId" task_id
    repo ← repository_of repository
    base ← base_sha_of base_sha
    sha256 ← objective_sha256 objective
    allowed ← allowed_paths paths
    ok (record {
      task_id = task;
      repository = repo;
      base_sha = base;
      objective_sha256 = sha256;
      allowed_paths = allowed;
    })
