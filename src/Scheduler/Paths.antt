-- ===== src/Scheduler/Paths.antt =====
-- `_canonical_path`, `_contains` and `conflicts` of forgeboss/control/scheduler.py. A Python set is
-- the list of its elements; only membership in it is asked.
pub mod Canonical
pub mod Overlap
use forge_boss.Base.{
  ℕ, ◌+◌, ◌≡◌, Bool, true, false, ◌||◌, List, [], ◌∷◌, ◌++◌, map, foldl, reverse, ◌==◌,
  if◌then◌else◌, any, elem, is_empty, Text, codes, eq_text, starts_with, replace_char, split, join,
  rstrip,
}
use forge_boss.Casefold.{CaseTable, casefold}

pub record WorkItem : Type 0 where
  pub task_id : Text
  pub family : Text
  pub files : List Text
  pub write_roots : List Text
  pub estimated_cost : ℕ
  pub priority : ℕ

abbrev pub is_blank : ℕ → Bool
is_blank c = c == b' '

abbrev pub is_dot_or_blank : ℕ → Bool
is_dot_or_blank c = c == b'.' || c == b' '

abbrev pub dot : Text
dot = b'.' ∷ []

abbrev pub dot_dot : Text
dot_dot = b'.' ∷ b'.' ∷ []

-- `parts` is held with its last element first. A `..` takes the last part off, unless there is none
-- or it is a `..` itself.
unfoldable pub go_up : List Text → List Text
go_up [] = dot_dot ∷ []
go_up (last ∷ parts) = if eq_text last dot_dot then dot_dot ∷ last ∷ parts else parts

unfoldable pub contains : Text → Text → Bool
unfolding eq_text starts_with
contains root path = eq_text root [] || eq_text path root || starts_with path (root ++ (b'/' ∷ []))

module _ (table : CaseTable) where
  unfoldable pub add_name : List Text → Text → List Text
  unfolding casefold
  add_name parts part = if is_empty part then parts else casefold table part ∷ parts

  -- The body of the loop of `_canonical_path`.
  unfoldable pub add_part : List Text → Text → List Text
  unfolding rstrip eq_text go_up add_name
  add_part parts raw_part =
      let part = rstrip is_blank raw_part in
      if eq_text part [] || eq_text part dot
      then parts
      else if eq_text part dot_dot
      then go_up parts
      else add_name parts (rstrip is_dot_or_blank part)

  unfoldable pub canonical_parts : Text → List Text
  unfolding add_part split replace_char
  canonical_parts value = foldl add_part [] (split b'/' (replace_char 92 b'/' value))

  unfoldable pub canonical_path : Text → Text
  unfolding canonical_parts join
  canonical_path value = join b'/' (reverse (canonical_parts value))

  unfoldable pub conflicts : WorkItem → WorkItem → Bool
  unfolding canonical_path contains
  conflicts a b =
      let a_files = map canonical_path a.files in
      let b_files = map canonical_path b.files in
      let a_roots = map canonical_path a.write_roots in
      let b_roots = map canonical_path b.write_roots in
      any (λ x. any (λ y. eq_text x y) b_files) a_files
      || any (λ path. any (λ root. contains root path) b_roots) a_files
      || any (λ path. any (λ root. contains root path) a_roots) b_files
      || any (λ x. any (λ y. contains x y || contains y x) b_roots) a_roots
