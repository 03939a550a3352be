-- ===== src/Store/Scopes.antt =====
-- `_scope_authorities` and `_scope_overlap` of forgeboss/control/store.py. A scope kept in the
-- database is the value that its JSON text decodes to.
use forge_boss.Base.{
  Bool, ◌||◌, List, [], ◌∷◌, ◌++◌, if◌then◌else◌, any, is_empty, elem, Text, eq_text, starts_with,
  strip, Result, ok, err, from_option, ◌>>=◌,
}
use forge_boss.Casefold.{CaseTable}
use forge_boss.Value.{Value, null, str, arr, to_list}
use forge_boss.Scheduler.Paths.{canonical_path}
use forge_boss.Runtime.{Runtime}
use forge_boss.Store.Errors.{StoreError, scope_state_invalid}

module _ (table : CaseTable) where
  -- One entry of the list: its canonical path, which must not be the root.
  unfoldable pub scope_authority : Value → Result StoreError Text
  unfolding strip canonical_path
  scope_authority (str value) =
      let canonical = canonical_path table value in
      if is_empty (strip value) || is_empty canonical then err scope_state_invalid else ok canonical
  scope_authority _ = err scope_state_invalid

  -- The loop: `out` collects each canonical path once, in the order of its first entry.
  unfoldable pub collect_scope : List Text → List Value → Result StoreError (List Text)
  unfolding scope_authority elem
  collect_scope out [] = ok out
  collect_scope out (value ∷ values) = scope_authority value >>= λ canonical.
      collect_scope (if elem canonical out then out else out ++ (canonical ∷ [])) values

  -- The checks after the JSON text is decoded.
  unfoldable pub scope_list : Value → Result StoreError (List Text)
  unfolding collect_scope to_list
  scope_list null = ok []
  scope_list (arr items) = collect_scope [] (to_list items)
  scope_list _ = err scope_state_invalid

-- A text is decoded first, once; any other value is taken as it is.
unfoldable pub scope_authorities : Runtime → Value → Result StoreError (List Text)
unfolding scope_list
scope_authorities rt (str raw) =
    from_option scope_state_invalid (rt.loads raw) >>= scope_list rt.table
scope_authorities rt value = scope_list rt.table value

unfoldable pub paths_overlap : Text → Text → Bool
unfolding eq_text starts_with
paths_overlap x y =
    eq_text x y || starts_with x (y ++ (b'/' ∷ [])) || starts_with y (x ++ (b'/' ∷ []))

unfoldable pub scope_overlap : List Text → List Text → Bool
unfolding paths_overlap
scope_overlap a b = any (λ x. any (λ y. paths_overlap x y) b) a
