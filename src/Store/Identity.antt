-- ===== src/Store/Identity.antt =====
-- `_repository_identity`, `_git_object_id` and `_physical_worktree_identity` of
-- forgeboss/control/store.py.
use forge_boss.Base.{
  ℕ, Bool, false, not, ◌&&◌, ◌||◌, List, [], ◌∷◌, ◌++◌, length, leb, ◌==◌, if◌then◌else◌, any, all,
  is_empty, elem, is_control, Text, codes, eq_text, starts_with, replace_char, split, strip, map,
  Result, ok, err,
}
use forge_boss.Casefold.{CaseTable, casefold, to_lower}
use forge_boss.Value.{Value, str}
use forge_boss.Scheduler.Paths.{canonical_path}
use forge_boss.Store.Errors.{
  StoreError, repository_state_invalid, base_sha_invalid, worktree_identity_empty,
}

abbrev pub is_alnum : ℕ → Bool
is_alnum c = (leb b'A' c && leb c b'Z') || (leb b'a' c && leb c b'z') || (leb b'0' c && leb c b'9')

abbrev pub is_hex : ℕ → Bool
is_hex c = (leb b'0' c && leb c b'9') || (leb b'A' c && leb c b'F') || (leb b'a' c && leb c b'f')

abbrev pub is_lower_hex : ℕ → Bool
is_lower_hex c = (leb b'0' c && leb c b'9') || (leb b'a' c && leb c b'f')

unfoldable pub first_is : (ℕ → Bool) → Text → Bool
first_is p [] = false
first_is p (c ∷ s) = p c

unfoldable pub last_is : (ℕ → Bool) → Text → Bool
last_is p [] = false
last_is p (c ∷ []) = p c
last_is p (c ∷ d ∷ s) = last_is p (d ∷ s)

-- `_OWNER_RE`: one to 39 letters, digits and dashes, with no dash at either end
unfoldable pub is_owner : Text → Bool
unfolding first_is last_is
is_owner s =
    first_is is_alnum s
    && last_is is_alnum s
    && leb (length s) 39
    && all (λ c. is_alnum c || c == b'-') s

-- `_REPO_RE`
unfoldable pub is_repo : Text → Bool
is_repo s = not (is_empty s) && all (λ c. is_alnum c || c == b'.' || c == b'_' || c == b'-') s

-- `needle in s`
unfoldable pub has_infix : Text → Text → Bool
unfolding starts_with
has_infix needle [] = is_empty needle
has_infix needle (c ∷ s) = starts_with (c ∷ s) needle || has_infix needle s

abbrev pub has_mark : ℕ → Text → Bool
has_mark mark s = any (λ c. c == mark) s

-- The two prefixes `\\` and `//`; the longer two of the source begin with the first.
unfoldable pub is_device_path : Text → Bool
unfolding starts_with
is_device_path s = starts_with s (92 ∷ 92 ∷ []) || starts_with s (b'/' ∷ b'/' ∷ [])

abbrev dots : List Text
dots = [] ∷ codes "." ∷ codes ".." ∷ []

module _ (table : CaseTable) where
  unfoldable pub owner_and_name : List Text → Result StoreError Text
  unfolding elem eq_text is_owner is_repo casefold
  owner_and_name (owner ∷ repo ∷ []) =
      if elem owner dots || elem repo dots || not (is_owner owner) || not (is_repo repo)
      then err repository_state_invalid
      else ok (casefold table owner ++ (b'/' ∷ casefold table repo))
  owner_and_name _ = err repository_state_invalid

  -- A repository that looks like a URL or a device path is refused before it is split.
  unfoldable pub looks_remote : Text → Bool
  unfolding has_infix casefold starts_with is_device_path
  looks_remote raw =
      let lowered = casefold table raw in
      has_infix (codes "://") lowered
      || starts_with lowered (codes "git@")
      || has_mark b':' raw
      || is_device_path raw

  unfoldable pub repository_identity : Value → Result StoreError Text
  unfolding looks_remote strip eq_text owner_and_name split replace_char
  repository_identity (str raw) =
      if is_empty raw || not (eq_text raw (strip raw)) || any is_control raw || looks_remote raw
      then err repository_state_invalid
      else owner_and_name (split b'/' (replace_char 92 b'/' raw))
  repository_identity _ = err repository_state_invalid

  unfoldable pub physical_worktree_identity : Text → Result StoreError Text
  unfolding canonical_path
  physical_worktree_identity path =
      let value = canonical_path table path in
      if is_empty value then err worktree_identity_empty else ok value

-- `_GIT_OBJECT_ID_RE`
unfoldable pub is_object_id : Text → Bool
is_object_id s = (length s == 40 || length s == 64) && all is_hex s

-- `value.lower()`, for the hexadecimal text that it is
unfoldable pub git_object_id : Value → Result StoreError Text
unfolding eq_text strip is_object_id
git_object_id (str value) =
    if not (eq_text value (strip value)) || not (is_object_id value)
    then err base_sha_invalid
    else ok (map to_lower value)
git_object_id _ = err base_sha_invalid
