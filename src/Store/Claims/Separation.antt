-- ===== src/Store/Claims/Separation.antt =====
-- When the leases of two tasks may be live together, and that the conflict check of a claim
-- establishes it.
use forge_boss.Base.{
  ℕ, ◌≡◌, sym, ap, ◌∙◌, ◌≢◌, Bool, true, false, List, [], ◌∷◌, some, arith, Text, eq_text,
  eq_text_iff, eq_text_refl, any, any_swap, ok, >>=-eq-ok,
}
use forge_boss.Casefold.{CaseTable}
use forge_boss.Value.{Value, str}
use forge_boss.Runtime.{Runtime}
use forge_boss.Store.Identity.{repository_identity, physical_worktree_identity, git_object_id}
use forge_boss.Store.Scopes.{scope_list, paths_overlap, scope_overlap}
use forge_boss.Store.Tables.{Task, Lease, Store, find_task, find_lease}
use forge_boss.Store.Claims.{is_live, check_scope, check_row, check_rows, live_cross_task_conflicts}
use mathlib.Core.Path.{fun_ext}

-- What the check reads of a task
pub record Authority : Type 0 where
  pub repository : Value
  pub base_sha : Text
  pub allowed_paths : Value

abbrev pub authority : Task → Authority
authority t = record {
  repository = t.repository;
  base_sha = t.base_sha;
  allowed_paths = t.allowed_paths;
}

-- Different physical worktrees; and in one repository at one base, no overlap of writable scopes.
abbrev pub Separate : CaseTable → Text → Authority → Text → Authority → Type 0
Separate table p a q b =
    (physical_worktree_identity table p ≢ physical_worktree_identity table q)
    × (repository_identity table a.repository ≡ repository_identity table b.repository
        → git_object_id (str a.base_sha) ≡ git_object_id (str b.base_sha)
        → (x y : List Text) → scope_list table a.allowed_paths ≡ ok x
        → scope_list table b.allowed_paths ≡ ok y
        → scope_overlap x y ≡ false)

eq_text_comm : (x y : Text) → eq_text x y ≡ eq_text y x
eq_text_comm x y = ground (arith, eq_text_iff x y, eq_text_iff y x)

paths_overlap_comm : (x y : Text) → paths_overlap x y ≡ paths_overlap y x
unfolding paths_overlap
paths_overlap_comm x y = ground (arith, eq_text_comm x y)

scope_overlap_comm : (a b : List Text) → scope_overlap a b ≡ scope_overlap b a
unfolding scope_overlap
scope_overlap_comm a b =
    any_swap paths_overlap a b
    ∙ ap (λ (r : Text → Text → Bool). any (λ x. any (λ y. r x y) a) b)
        (fun_ext λ x. fun_ext λ y. paths_overlap_comm y x)

pub Separate-comm :
    (table : CaseTable) (p q : Text) (a b : Authority)
    → Separate table p a q b
    → Separate table q b p a
Separate-comm table p q a b h =
    (λ e. h.0 (sym e), λ r g x y hx hy. scope_overlap_comm x y ∙ h.1 (sym r) (sym g) y x hy hx)

module _ (rt : Runtime) (worktree : Text) (a : Authority) (worktree_id repository_id base_id : Text)
    (scope : List Text) (tree : physical_worktree_identity rt.table worktree ≡ ok worktree_id)
    (repository : repository_identity rt.table a.repository ≡ ok repository_id)
    (base : git_object_id (str a.base_sha) ≡ ok base_id)
    (paths : scope_list rt.table a.allowed_paths ≡ ok scope) where
  check_row-Separate :
      (l : Lease) (t : Task)
      → check_row rt worktree_id repository_id base_id scope l t ≡ ok tt
      → Separate rt.table worktree a l.worktree_path (authority t)
  unfolding check_row check_scope
  check_row-Separate l t h = (
    λ e. ground (arith, eq_text_refl worktree_id),
    λ r g x y hx hy. ground (arith, eq_text_refl repository_id, eq_text_refl base_id),
  )

-- Each live lease of another task has passed the check of its row.
check_rows-row :
    (rt : Runtime) (worktree_id repository_id base_id : Text) (scope : List Text) (task_id : Text)
    (now : ℕ) (tasks : List Task) (ls : List Lease)
    → check_rows rt worktree_id repository_id base_id scope task_id now tasks ls ≡ ok tt
    → (j : Text) (l : Lease) (t : Task) → find_lease j ls ≡ some l
    → eq_text j task_id ≡ false
    → is_live now l ≡ true
    → find_task j tasks ≡ some t
    → check_row rt worktree_id repository_id base_id scope l t ≡ ok tt
unfolding check_rows find_lease
check_rows-row rt wid rid bid scope task_id now tasks [] h j l t f ne live ft = cc
check_rows-row rt wid rid bid scope task_id now tasks (k ∷ ks) h j l t f ne live ft = ground (
  arith,
  eq_text_iff k.task_id j,
  λ (p : check_rows rt wid rid bid scope task_id now tasks ks ≡ ok tt).
      check_rows-row rt wid rid bid scope task_id now tasks ks p j l t,
)

-- The check of a claim separates it from each live lease of another task.
pub live_cross_task_conflicts-Separate :
    (rt : Runtime) (task_id : Text) (a : Authority) (worktree : Text) (scope : List Text) (now : ℕ)
    (s : Store)
    → scope_list rt.table a.allowed_paths ≡ ok scope
    → live_cross_task_conflicts rt task_id a.repository a.base_sha worktree scope now s ≡ ok tt
    → (j : Text) (l : Lease) (t : Task) → find_lease j s.leases ≡ some l
    → eq_text j task_id ≡ false
    → is_live now l ≡ true
    → find_task j s.tasks ≡ some t
    → Separate rt.table worktree a l.worktree_path (authority t)
unfolding live_cross_task_conflicts
live_cross_task_conflicts-Separate rt task_id a worktree scope now s paths h j l t fl ne live ft =
    let (wid, tree, h1) = >>=-eq-ok (physical_worktree_identity rt.table worktree) _ h in
    let (rid, repository, h2) = >>=-eq-ok (repository_identity rt.table a.repository) _ h1 in
    let (bid, base, h3) = >>=-eq-ok (git_object_id (str a.base_sha)) _ h2 in
    check_row-Separate rt worktree a wid rid bid scope tree repository base paths l t
      (check_rows-row rt wid rid bid scope task_id now s.tasks s.leases h3 j l t fl ne live ft)
