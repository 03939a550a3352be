-- ===== src/Launch/Entries.antt =====
-- The runner's identity and the normalised arguments in forgeboss/control/governed_launch.py.
use forge_boss.Base.{
  ℕ, not, ◌||◌, ◌&&◌, ◌==◌, List, [], ◌∷◌, Option, none, some, if◌then◌else◌, is_empty, Text, codes,
  eq_text, elem, split, strip, replace_char, Result, ok, err, raise_if, from_option, ◌>>=◌, ◌>>◌,
}
use forge_boss.Base.Int.{pos}
use forge_boss.Casefold.{casefold}
use forge_boss.Value.{Value, Float, finite, arr, str, to_list, to_float}
use forge_boss.Runtime.{Runtime}
use forge_boss.Envelope.{utf8}
use forge_boss.Launch.Terms.{
  LaunchError, runtime_not_approved, runner_is_symlink, runner_missing, runner_moved,
  runner_not_file, runner_unreadable, runner_not_reviewed, paths_not_array, path_invalid,
  path_aliases, tools_not_array, tool_invalid, tool_duplicates, budget_not_numeric,
  budget_not_finite, unicode_error, Runner, Launch, Bound, Host,
}

-- `_RUNTIME_RUNNERS.get(runtime_id)`
unfoldable pub runtime_runner : Text → Option Runner
unfolding eq_text
runtime_runner runtime_id =
    if eq_text runtime_id (codes "mini-swe")
    then some (record {
      path = codes "forgeboss/executors/mini_swe_runner.py";
      sha256 = codes "6d79947ae7ca21cd424295a62a3dbce41b25be62414c587d2c364d8dabb438b7";
    })
    else none

-- `text.replace("\r\n", "\n")`
unfoldable pub drop_returns : Text → Text
drop_returns [] = []
drop_returns (c ∷ []) = c ∷ []
drop_returns (c ∷ d ∷ s) =
    let here = drop_returns (d ∷ s) in if c == 13 && d == 10 then here else c ∷ here

unfoldable pub unix_lines : Text → Text
unix_lines text = replace_char 13 10 (drop_returns text)

module _ (rt : Runtime) (host : Host) where
  -- The loop over the parts of the runner's path
  unfoldable pub no_symlinks : Text → List Text → Result LaunchError (Unit {0})
  no_symlinks current [] = ok tt
  no_symlinks current (part ∷ parts) = do
    raise_if (host.is_symlink (host.below current part)) runner_is_symlink
    no_symlinks (host.below current part) parts

  unfoldable pub runner_path : Text → Runner → Result LaunchError Text
  runner_path root entry = do
    no_symlinks (rt.resolve root) (split b'/' entry.path)
    let candidate = host.below (rt.resolve root) entry.path
    resolved ← from_option runner_missing (host.resolve_strict candidate)
    raise_if (not (eq_text resolved (host.absolute candidate))) runner_moved
    raise_if (not (host.is_file resolved)) runner_not_file
    ok resolved

  unfoldable pub runner_identity : Text → Text → Result LaunchError Runner
  runner_identity root runtime_id = do
    entry ← from_option runtime_not_approved (runtime_runner runtime_id)
    path ← runner_path root entry
    text ← from_option runner_unreadable (host.read_text path)
    encoded ← from_option unicode_error (utf8 (unix_lines text))
    let digest = rt.sha256_hex encoded
    raise_if (not (eq_text digest entry.sha256)) runner_not_reviewed
    ok (record { path = entry.path; sha256 = digest })

  -- The loops, with the keys that were seen
  unfoldable pub collect_paths : List Text → List Value → Result LaunchError (List Text)
  collect_paths seen [] = ok []
  collect_paths seen (str value ∷ values) = do
    raise_if (is_empty value || not (eq_text value (strip value))) path_invalid
    let slashed = replace_char 92 b'/' value
    let key = casefold rt.table slashed
    raise_if (elem key seen) path_aliases
    rest ← collect_paths (key ∷ seen) values
    ok (slashed ∷ rest)
  collect_paths seen (_ ∷ values) = err path_invalid

  unfoldable pub normalise_paths : Value → Result LaunchError (List Text)
  normalise_paths (arr items) = do
    raise_if (is_empty (to_list items)) paths_not_array
    collect_paths [] (to_list items)
  normalise_paths _ = err paths_not_array

  unfoldable pub collect_tools : List Text → List Value → Result LaunchError (List Text)
  collect_tools seen [] = ok []
  collect_tools seen (str value ∷ values) = do
    raise_if (is_empty value || not (eq_text value (strip value))) tool_invalid
    raise_if (elem value seen) tool_duplicates
    rest ← collect_tools (value ∷ seen) values
    ok (value ∷ rest)
  collect_tools seen (_ ∷ values) = err tool_invalid

  unfoldable pub normalise_tools : Value → Result LaunchError (List Text)
  normalise_tools (arr items) = collect_tools [] (to_list items)
  normalise_tools _ = err tools_not_array

  unfoldable pub finite_amount : Float → Result LaunchError ℕ
  finite_amount (finite (pos n)) = ok n
  finite_amount _ = err budget_not_finite

  unfoldable pub finite_budget : Value → Result LaunchError ℕ
  finite_budget value = do
    budget ← from_option budget_not_numeric (to_float rt.parse_float value)
    finite_amount budget

  -- The body of issuing and the expectation of verifying, in the order in which both compute them
  unfoldable pub launch_binding : Launch → Result LaunchError Bound
  launch_binding l = do
    runner ← runner_identity l.root l.runtime_id
    paths ← normalise_paths l.allowed_paths
    tools ← normalise_tools l.allowed_tools
    budget ← finite_budget l.budget_usd
    ok (record {
      task_id = l.task_id;
      repository = l.repository;
      base_sha = l.base_sha;
      run_id = l.run_id;
      worktree_path = rt.resolve l.worktree_path;
      runtime_id = l.runtime_id;
      runner_relpath = runner.path;
      runner_sha256 = runner.sha256;
      allowed_paths = paths;
      allowed_tools = tools;
      provider = l.provider;
      model = l.model;
      budget_usd = budget;
    })
