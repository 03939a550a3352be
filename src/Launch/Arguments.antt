-- ===== src/Launch/Arguments.antt =====
-- What the normalised arguments of a launch satisfy.
use forge_boss.Base.{
  ℕ, ◌≡◌, ◌≢◌, refl, sym, ap, ◌∙◌, subst, true, false, not, ◌||◌, List, [], ◌∷◌, ◌++◌, some, arith,
  Text, eq_text, eq_text_iff, split, foldl, elem, All, is_empty, strip, replace_char, ok, raise_if,
  from_option, from_option-eq-ok, >>=-eq-ok,
}
use forge_boss.Casefold.{casefold}
use forge_boss.Value.{Value, Items, arr, str, to_list, of_texts}
use forge_boss.Runtime.{Runtime}
use forge_boss.Envelope.{utf8}
use forge_boss.Launch.{
  path_invalid, path_aliases, runtime_not_approved, runner_unreadable, runner_missing, runner_moved,
  unicode_error, no_symlinks, Runner, Host, collect_paths, normalise_paths, runtime_runner,
  runner_path, runner_identity, unix_lines,
}

module _ (rt : Runtime) (host : Host) where
  -- No two paths are the same up to case.
  abbrev pub IsUnaliased : List Text → Type 0
  IsUnaliased [] = Unit
  IsUnaliased (p ∷ ps) = All (λ q. casefold rt.table q ≢ casefold rt.table p) ps × IsUnaliased ps

  abbrev IsUnseen : List Text → List Text → Type 0
  IsUnseen seen ps = All (λ p. elem (casefold rt.table p) seen ≡ false) ps

  IsUnseen-cons :
      (key : Text) (seen ps : List Text)
      → IsUnseen (key ∷ seen) ps
      → IsUnseen seen ps × All (λ q. casefold rt.table q ≢ key) ps
  unfolding elem
  IsUnseen-cons key seen [] h = (tt, tt)
  IsUnseen-cons key seen (p ∷ ps) h =
      let (unseen, other) = IsUnseen-cons key seen ps h.1 in
      let absent : elem (casefold rt.table p) (key ∷ seen) ≡ false = h.0 in
      (
        (ground arith, unseen),
        ((λ e. ground (arith, absent, (eq_text_iff (casefold rt.table p) key).1 e)), other),
      )

  -- The texts with their backslashes made slashes
  abbrev pub slashed : List Text → List Text
  slashed [] = []
  slashed (t ∷ ts) = replace_char 92 b'/' t ∷ slashed ts

  abbrev IsCollected : List Text → List Value → List Text → Type 0
  IsCollected seen values out =
      IsUnseen seen out
      × IsUnaliased out
      × ((texts : List Text) × (values ≡ to_list (of_texts texts)) × (slashed texts ≡ out))

  collect_paths-IsCollected :
      (seen : List Text) (values : List Value) (out : List Text)
      → collect_paths rt host seen values ≡ ok out
      → IsCollected seen values out
  unfolding collect_paths to_list of_texts
  collect_paths-IsCollected seen [] out h =
      let same : [] ≡ out = ground arith in
      subst (IsCollected seen []) same (tt, tt, ([], refl, refl))
  collect_paths-IsCollected seen (str value ∷ values) out h =
      let turned : Text = replace_char 92 b'/' value in
      let key : Text = casefold rt.table turned in
      let (_, clean, a) =
        >>=-eq-ok (raise_if (is_empty value || not (eq_text value (strip value))) path_invalid) _
          h in
      let (_, new, b) = >>=-eq-ok (raise_if (elem key seen) path_aliases) _ a in
      let (rest, collects, last) = >>=-eq-ok (collect_paths rt host (key ∷ seen) values) _ b in
      let (unseen, unaliased, (texts, given, made)) =
        collect_paths-IsCollected (key ∷ seen) values rest collects in
      let (earlier, other) = IsUnseen-cons key seen rest unseen in
      let absent : elem key seen ≡ false = ground arith in
      let same : turned ∷ rest ≡ out = ground arith in
      subst (IsCollected seen (str value ∷ values)) same (
        (absent, earlier),
        (other, unaliased),
        (value ∷ texts, ap (λ vs. str value ∷ vs) given, ap (λ ps. turned ∷ ps) made),
      )
  collect_paths-IsCollected seen (_ ∷ values) out h = cc

  -- Allowed paths that are accepted are an array of texts; the result is these texts in their order,
  -- with each backslash made a slash, and no two of the result are the same up to case.
  pub normalise_paths-IsUnaliased :
      (values : Value) (out : List Text)
      → normalise_paths rt host values ≡ ok out
      → IsUnaliased out
        × ((items : Items) × (texts : List Text) × (values ≡ arr items)
            × (to_list items ≡ to_list (of_texts texts))
            × (out ≡ slashed texts))
  unfolding normalise_paths
  normalise_paths-IsUnaliased (arr items) out h =
      let (_, unaliased, (texts, given, made)) =
        collect_paths-IsCollected [] (to_list items) out (ground arith) in
      (unaliased, (items, texts, refl, given, sym made))
  normalise_paths-IsUnaliased _ out h = cc

  IsUnlinked-no_symlinks :
      (current : Text) (parts before after : List Text)
      → no_symlinks rt host current parts ≡ ok tt
      → parts ≡ before ++ after
      → before ≢ []
      → host.is_symlink (foldl host.below current before) ≡ false
  unfolding no_symlinks
  IsUnlinked-no_symlinks current parts [] after h whole some_part = absurd (some_part refl)
  IsUnlinked-no_symlinks current [] (p ∷ before) after h whole some_part = cc
  IsUnlinked-no_symlinks current (part ∷ parts) (p ∷ []) after h whole some_part =
      let first : part ≡ p = ground arith in
      let clear : host.is_symlink (host.below current part) ≡ false = ground arith in
      subst (λ x. host.is_symlink (host.below current x) ≡ false) first clear
  IsUnlinked-no_symlinks current (part ∷ parts) (p ∷ q ∷ before) after h whole some_part =
      let first : part ≡ p = ground arith in
      let others : parts ≡ q ∷ before ++ after = ground arith in
      let rest : no_symlinks rt host (host.below current part) parts ≡ ok tt = ground arith in
      subst (λ x. host.is_symlink (foldl host.below (host.below current x) (q ∷ before)) ≡ false)
        first
        (IsUnlinked-no_symlinks (host.below current part) parts (q ∷ before) after rest others
          (λ e. cc))

  -- The file at the path below the root: no part of the path is a symbolic link, and the resolved
  -- path is where the file stands.
  abbrev pub IsInPlace : Text → Text → Text → Type 0
  IsInPlace root place path =
      ((before after : List Text)
        → split b'/' place ≡ before ++ after
        → before ≢ []
        → host.is_symlink (foldl host.below (rt.resolve root) before) ≡ false)
      × (host.resolve_strict (host.below (rt.resolve root) place) ≡ some path)
      × (path ≡ host.absolute (host.below (rt.resolve root) place))
      × (host.is_file path ≡ true)

  runner_path-IsInPlace :
      (root : Text) (entry : Runner) (path : Text)
      → runner_path rt host root entry ≡ ok path
      → IsInPlace root entry.path path
  unfolding runner_path
  runner_path-IsInPlace root entry path h =
      let candidate : Text = host.below (rt.resolve root) entry.path in
      let (_, unlinked, a) =
        >>=-eq-ok (no_symlinks rt host (rt.resolve root) (split b'/' entry.path)) _ h in
      let (resolved, resolves, b) =
        >>=-eq-ok (from_option runner_missing (host.resolve_strict candidate)) _ a in
      let (_, stays, c) =
        >>=-eq-ok (raise_if (not (eq_text resolved (host.absolute candidate))) runner_moved) _ b in
      let same : resolved ≡ path = ground arith in
      let place : resolved ≡ host.absolute candidate =
        (eq_text_iff resolved (host.absolute candidate)).0 (ground arith) in
      let file : host.is_file resolved ≡ true = ground arith in
      (
        λ before after whole some_part.
            IsUnlinked-no_symlinks (rt.resolve root) (split b'/' entry.path) before after unlinked
              whole some_part,
        from_option-eq-ok runner_missing _ resolves ∙ ap some same,
        sym same ∙ place,
        subst (λ x. host.is_file x ≡ true) same file,
      )

  -- The runner is the one that is reviewed for the runtime, and its file's text has that digest.
  abbrev pub IsReviewed : Text → Text → Runner → Type 0
  IsReviewed root runtime_id runner =
      (runtime_runner runtime_id ≡ some runner)
      × ((path : Text) × (text : Text) × (encoded : List ℕ) × IsInPlace root runner.path path
          × (host.read_text path ≡ some text)
          × (utf8 (unix_lines text) ≡ some encoded)
          × (rt.sha256_hex encoded ≡ runner.sha256))

  -- A launch's runner is the approved one of its runtime: no part of its path below the root is a
  -- symbolic link, the path resolves to a file at that very place, and the text of the file, with
  -- Unix line ends, has the digest that was reviewed.
  pub runner_identity-IsReviewed :
      (root runtime_id : Text) (runner : Runner)
      → runner_identity rt host root runtime_id ≡ ok runner
      → IsReviewed root runtime_id runner
  unfolding runner_identity
  runner_identity-IsReviewed root runtime_id runner h =
      let (entry, approved, a) =
        >>=-eq-ok (from_option runtime_not_approved (runtime_runner runtime_id)) _ h in
      let (path, found, b) = >>=-eq-ok (runner_path rt host root entry) _ a in
      let (text, read, c) = >>=-eq-ok (from_option runner_unreadable (host.read_text path)) _ b in
      let (encoded, encodes, d) =
        >>=-eq-ok (from_option unicode_error (utf8 (unix_lines text))) _ c in
      let digest : rt.sha256_hex encoded ≡ entry.sha256 =
        ground (arith, eq_text_iff (rt.sha256_hex encoded) entry.sha256) in
      let place : entry.path ≡ runner.path = ground arith in
      let sha256 : entry.sha256 ≡ runner.sha256 = ground (arith, digest) in
      let same : entry ≡ runner = cc in
      subst (IsReviewed root runtime_id) same (
        from_option-eq-ok runtime_not_approved _ approved,
        (
          path,
          text,
          encoded,
          runner_path-IsInPlace root entry path found,
          from_option-eq-ok runner_unreadable _ read,
          from_option-eq-ok unicode_error _ encodes,
          digest,
        ),
      )
