-- ===== src/Guard/Packets.antt =====
-- What a packet that is accepted names.
use forge_boss.Base.{
  ◌≡◌, ◌≢◌, refl, sym, ap, ◌∙◌, subst, true, false, List, [], ◌∷◌, ◌++◌, some, arith, map, any,
  codes, starts_with, eq_text, eq_text_iff, Text, All, is_empty, strip, ok, raise_if, from_option,
  >>=-eq-ok, from_option-eq-ok,
}
use forge_boss.Casefold.{CaseTable, casefold}
use forge_boss.Value.{Value, str, arr, nil, Fields, get_or}
use forge_boss.Policy.ReuseReview.{has_duplicate}
use forge_boss.Policy.ReuseReview.Soundness.{Distinct, elem-false, has_duplicate-Distinct}
use forge_boss.Guard.Normal.{IsPosix, IsNormal, norm-IsNormal, norm-again}
use forge_boss.Guard.{
  Posix, forbidden_exact, forbidden_prefixes, sensitive_path, not_iterable, no_allowed_files,
  duplicate_files, git_metadata, iterate, norm, norm_all, is_forbidden, sensitive, check_allowed,
  is_git, check_context, validate_packet,
}

-- The path is none of these, and below none of those.
abbrev pub IsApart : Text → List Text → List Text → Type 0
IsApart k exact prefixes =
    All (λ e. e ≢ k) exact × All (λ x. (rest : Text) → k ≢ x ++ rest) prefixes

starts_with-append : (x rest : Text) → starts_with (x ++ rest) x ≡ true
unfolding starts_with
starts_with-append [] rest = refl
starts_with-append (c ∷ x) rest = ground (arith, starts_with-append x rest)

IsApart-any :
    (k : Text) (xs : List Text)
    → any (λ x. starts_with k x) xs ≡ false
    → All (λ x. (rest : Text) → k ≢ x ++ rest) xs
IsApart-any k [] h = tt
IsApart-any k (x ∷ xs) h = (
  λ rest same.
      let starts : starts_with k x ≡ true =
        subst (λ y. starts_with y x ≡ true) (sym same) (starts_with-append x rest) in
      ground arith,
  IsApart-any k xs (ground arith),
)

module _ (table : CaseTable) (posix : Posix) (laws : IsPosix posix) where
  -- A path with no white space around it is up to case none of the forbidden ones.
  abbrev pub IsHarmless : Text → Type 0
  IsHarmless p = strip p ≡ p → IsApart (casefold table p) forbidden_exact forbidden_prefixes

  sensitive-IsHarmless :
      (p : Text) → IsNormal table posix laws p → sensitive table posix p ≡ ok false → IsHarmless p
  unfolding sensitive
  sensitive-IsHarmless p normal h bare =
      let (y, reads, last) = >>=-eq-ok (norm table posix (str p)) _ h in
      let same : y ≡ p = norm-again table posix laws p y normal bare reads in
      let harmless : is_forbidden table posix (casefold table p) ≡ false =
        subst (λ x. is_forbidden table posix (casefold table x) ≡ false) same (ground arith) in
      (
        elem-false (casefold table p) forbidden_exact (ground arith),
        IsApart-any (casefold table p) forbidden_prefixes (ground arith),
      )

  norm_all-IsNormal :
      (vs : List Value) (ps : List Text)
      → norm_all table posix vs ≡ ok ps
      → All (IsNormal table posix laws) ps
  unfolding norm_all
  norm_all-IsNormal [] [] h = tt
  norm_all-IsNormal [] (p ∷ ps) h = cc
  norm_all-IsNormal (v ∷ vs) ps h =
      let (first, reads, a) = >>=-eq-ok (norm table posix v) _ h in
      let (rest, read_all, last) = >>=-eq-ok (norm_all table posix vs) _ a in
      let same : first ∷ rest ≡ ps = ground arith in
      subst (All (IsNormal table posix laws)) same
        (norm-IsNormal table posix laws v first reads, norm_all-IsNormal vs rest read_all)

  check_allowed-IsHarmless :
      (ps : List Text)
      → All (IsNormal table posix laws) ps
      → check_allowed table posix ps ≡ ok tt
      → All IsHarmless ps
  unfolding check_allowed
  check_allowed-IsHarmless [] normal h = tt
  check_allowed-IsHarmless (p ∷ ps) normal h =
      let (found, checked, a) = >>=-eq-ok (sensitive table posix p) _ h in
      let (_, harmless, b) = >>=-eq-ok (raise_if found (sensitive_path p)) _ a in
      let clear : found ≡ false = ground arith in
      (
        sensitive-IsHarmless p normal.0 (checked ∙ ap ok clear),
        check_allowed-IsHarmless ps normal.1 b,
      )

  -- Up to case, neither the directory of Git nor below it
  abbrev pub IsOutside : Text → Type 0
  IsOutside p = IsApart (casefold table p) (codes ".git" ∷ []) (codes ".git/" ∷ [])

  is_git-IsOutside : (p : Text) → is_git table posix (casefold table p) ≡ false → IsOutside p
  is_git-IsOutside p h =
      let k : Text = casefold table p in
      let other : eq_text k (codes ".git") ≡ false = ground arith in
      let above : any (λ x. starts_with k x) (codes ".git/" ∷ []) ≡ false = ground arith in
      (
        ((λ same. ground (arith, other, (eq_text_iff k (codes ".git")).1 (sym same))), tt),
        IsApart-any k (codes ".git/" ∷ []) above,
      )

  check_context-safe : (ps : List Text) → check_context table posix ps ≡ ok tt → All IsOutside ps
  unfolding check_context
  check_context-safe [] h = tt
  check_context-safe (p ∷ ps) h =
      let (_, outside, a) =
        >>=-eq-ok (raise_if (is_git table posix (casefold table p)) git_metadata) _ h in
      (is_git-IsOutside p (ground arith), check_context-safe ps a)

  -- What `validate_packet` promises of its answer
  pub record IsValidPacket (packet : Fields) (allowed context : List Text) : Type 0 where
    pub files : List Value
    pub named : iterate (get_or (arr nil) "allowed_files" packet) ≡ some files
    pub normal : norm_all table posix files ≡ ok allowed
    pub some_allowed : allowed ≢ []
    pub harmless : All IsHarmless allowed
    pub unaliased : Distinct (map (casefold table) allowed)
    pub read : List Value
    pub listed : iterate (get_or (arr nil) "context_files" packet) ≡ some read
    pub normal_context : norm_all table posix read ≡ ok context
    pub no_metadata : All IsOutside context

  -- A packet that is accepted gives what the paths that it names are normalised to: of those to write
  -- there is at least one, no two are the same up to case, and each with no white space around it is
  -- up to case no forbidden path and below no forbidden directory; of those to read none is, up to
  -- case, `.git` or below it.
  pub validate_packet-IsValidPacket :
      (packet : Fields) (allowed context : List Text)
      → validate_packet table posix packet ≡ ok (allowed, context)
      → IsValidPacket packet allowed context
  unfolding validate_packet
  validate_packet-IsValidPacket packet allowed context h =
      let (files, named, a) =
        >>=-eq-ok (from_option not_iterable (iterate (get_or (arr nil) "allowed_files" packet))) _
          h in
      let (paths, normal, b) = >>=-eq-ok (norm_all table posix files) _ a in
      let (read, listed, d) =
        >>=-eq-ok (from_option not_iterable (iterate (get_or (arr nil) "context_files" packet))) _
          b in
      let (others, normal_context, e) = >>=-eq-ok (norm_all table posix read) _ d in
      let (_, filled, f) = >>=-eq-ok (raise_if (is_empty paths) no_allowed_files) _ e in
      let (_, distinct, g) =
        >>=-eq-ok (raise_if (has_duplicate (map (casefold table) paths)) duplicate_files) _ f in
      let (_, checked, i) = >>=-eq-ok (check_allowed table posix paths) _ g in
      let (_, safe, last) = >>=-eq-ok (check_context table posix others) _ i in
      let first : paths ≡ allowed = ground arith in
      let second : others ≡ context = ground arith in
      subst (λ x. IsValidPacket packet x context) first
        (subst (λ x. IsValidPacket packet paths x) second
          (record {
            files = files;
            named = from_option-eq-ok not_iterable _ named;
            normal = normal;
            some_allowed = λ none_left. ground (arith, filled, none_left);
            harmless =
                check_allowed-IsHarmless paths (norm_all-IsNormal files paths normal) checked;
            unaliased = has_duplicate-Distinct (map (casefold table) paths) (ground arith);
            read = read;
            listed = from_option-eq-ok not_iterable _ listed;
            normal_context = normal_context;
            no_metadata = check_context-safe others safe;
          }))
