-- ===== src/Guard.antt =====
-- forgeboss/security/executor_guard.py: the paths that a packet may name. `Posix` is what
-- `PurePosixPath` gives.
pub mod Normal
pub mod Packets
mod Examples
use forge_boss.Base.{
  ℕ, Bool, true, false, not, ◌||◌, ◌&&◌, ◌==◌, List, [], ◌∷◌, Option, none, some, String,
  if◌then◌else◌, any, is_empty, map, Text, codes, eq_text, elem, strip, replace_char, starts_with,
  Result, ok, err, raise_if, from_option, ◌>>=◌, ◌>>◌,
}
use forge_boss.Casefold.{CaseTable, casefold}
use forge_boss.Value.{Value, str, arr, obj, Items, nil, Fields, end, field, to_list, get_or}
use forge_boss.Policy.ReuseReview.{has_duplicate}

pub record Posix : Type 0 where
  -- `PurePosixPath(x).parts` and `PurePosixPath(x).as_posix()`
  pub parts : Text → List Text
  pub as_posix : Text → Text

-- The messages of `SecurityError`, and `not_iterable` for the `TypeError` of a loop
pub data GuardError : Type 0 where
  empty_path : GuardError
  absolute_path : GuardError
  traversal : GuardError
  empty_normalized : GuardError
  not_iterable : GuardError
  no_allowed_files : GuardError
  duplicate_files : GuardError
  sensitive_path : Text → GuardError
  git_metadata : GuardError

abbrev pub forbidden_prefixes : List Text
forbidden_prefixes =
    codes ".git/"
    ∷ codes ".github/workflows/"
    ∷ codes ".github/actions/"
    ∷ codes "secrets/"
    ∷ codes "appdata/"
    ∷ codes ".openhands/"
    ∷ codes ".circleci/"
    ∷ codes "ci/credentials/"
    ∷ codes "build/credentials/"
    ∷ codes ".vscode/"
    ∷ codes "devcontainer/"
    ∷ codes ".devcontainer/"
    ∷ codes "state/forgebossd/"
    ∷ codes "state/learning/"
    ∷ []

abbrev pub forbidden_exact : List Text
forbidden_exact =
    codes ".git"
    ∷ codes ".env"
    ∷ codes ".env.local"
    ∷ codes ".env.production"
    ∷ codes ".npmrc"
    ∷ codes ".pypirc"
    ∷ codes "package.json"
    ∷ codes "dockerfile"
    ∷ codes "docker-compose.yml"
    ∷ codes "docker-compose.yaml"
    ∷ codes "compose.yml"
    ∷ codes "compose.yaml"
    ∷ codes ".pre-commit-config.yaml"
    ∷ codes ".gitlab-ci.yml"
    ∷ codes "jenkinsfile"
    ∷ codes "azure-pipelines.yml"
    ∷ codes "bitbucket-pipelines.yml"
    ∷ codes "requirements.txt"
    ∷ codes "requirements-dev.txt"
    ∷ codes "requirements-test.txt"
    ∷ codes "pyproject.toml"
    ∷ codes "setup.py"
    ∷ codes "setup.cfg"
    ∷ codes "tox.ini"
    ∷ codes "makefile"
    ∷ codes "gnumakefile"
    ∷ codes "pipfile"
    ∷ codes "pipfile.lock"
    ∷ codes "poetry.lock"
    ∷ codes "cargo.toml"
    ∷ codes "cargo.lock"
    ∷ codes "go.mod"
    ∷ codes "go.sum"
    ∷ []

-- `len(x) >= 2 and x[1] == ":"`
unfoldable pub has_drive : Text → Bool
has_drive (c ∷ d ∷ s) = d == b':'
has_drive _ = false

-- `while y.startswith("./"): y = y[2:]`
unfoldable pub drop_dots : Text → Text
drop_dots [] = []
drop_dots (c ∷ []) = c ∷ []
drop_dots (c ∷ d ∷ s) = let rest = drop_dots s in if c == b'.' && d == b'/' then rest else c ∷ d ∷ s

-- `for x in value`
unfoldable pub iterate : Value → Option (List Value)
iterate (arr items) = some (to_list items)
iterate (str s) = some (map (λ c. str (c ∷ [])) s)
iterate (obj fs) = some (keys_of fs)
  where
    keys_of : Fields → List Value
    keys_of end = []
    keys_of (field k v fs) = str (codes k) ∷ keys_of fs
iterate _ = none

module _ (table : CaseTable) (posix : Posix) where
  unfoldable pub norm : Value → Result GuardError Text
  norm (str p) = do
    raise_if (is_empty (strip p)) empty_path
    let x = strip (replace_char 92 b'/' p)
    raise_if (has_drive x || starts_with x (codes "/") || starts_with x (codes "~")) absolute_path
    raise_if (elem (codes "..") (posix.parts x)) traversal
    let y = drop_dots (posix.as_posix x)
    raise_if (is_empty y) empty_normalized
    ok y
  norm _ = err empty_path

  unfoldable pub norm_all : List Value → Result GuardError (List Text)
  norm_all [] = ok []
  norm_all (v ∷ vs) = do first ← norm v; rest ← norm_all vs; ok (first ∷ rest)

  -- `key in FORBIDDEN_EXACT or any(key.startswith(x) for x in FORBIDDEN_PREFIXES)`
  abbrev pub is_forbidden : Text → Bool
  is_forbidden k = elem k forbidden_exact || any (λ x. starts_with k x) forbidden_prefixes

  unfoldable pub sensitive : Text → Result GuardError Bool
  sensitive p = do y ← norm (str p); ok (is_forbidden (casefold table y))

  unfoldable pub check_allowed : List Text → Result GuardError (Unit {0})
  check_allowed [] = ok tt
  check_allowed (p ∷ ps) = do
    found ← sensitive p
    raise_if found (sensitive_path p)
    check_allowed ps

  abbrev pub is_git : Text → Bool
  is_git k = eq_text k (codes ".git") || starts_with k (codes ".git/")

  unfoldable pub check_context : List Text → Result GuardError (Unit {0})
  check_context [] = ok tt
  check_context (p ∷ ps) = do raise_if (is_git (casefold table p)) git_metadata; check_context ps

  unfoldable pub validate_packet : Fields → Result GuardError (List Text × List Text)
  validate_packet packet = do
    files ← from_option not_iterable (iterate (get_or (arr nil) "allowed_files" packet))
    allowed ← norm_all files
    read ← from_option not_iterable (iterate (get_or (arr nil) "context_files" packet))
    context ← norm_all read
    raise_if (is_empty allowed) no_allowed_files
    raise_if (has_duplicate (map (casefold table) allowed)) duplicate_files
    check_allowed allowed
    check_context context
    ok (allowed, context)
