-- ===== src/Store/System/Isolation.antt =====
-- Isolation of live leases: what it is, and which changes of the tables keep it.
use forge_boss.Base.{
  ℕ, ◌≤◌, ◌≡◌, refl, sym, ap, ◌∙◌, subst, ◌≢◌, Bool, true, false, List, [], ◌∷◌, ◌++◌, Option, none,
  some, arith, if◌then◌else◌, Text, eq_text, eq_text_iff,
}
use mathlib.Core.Option
use forge_boss.Runtime.{Runtime}
use forge_boss.Store.Tables.{Task, Lease, Store, find_task, find_lease, update_rows}
use forge_boss.Store.Claims.{is_live}
use forge_boss.Store.Claims.Separation.{Authority, authority, Separate, Separate-comm}
use forge_boss.Store.Lookups.{find_lease-update_rows, find_task-update_rows, find_task-append}
use forge_boss.Store.Writers.{is_current_writer, is_writer}
use forge_boss.Store.System.{System}

-- The worktree of a lease, if the lease is live
abbrev pub live_tree : ℕ → Option Lease → Option Text
live_tree now none = none
live_tree now (some l) = if is_live now l then some l.worktree_path else none

abbrev pub task_authority : Option Task → Option Authority
task_authority none = none
task_authority (some t) = some (authority t)

-- The worktree of a task's live lease, and the authority of a task
unfoldable pub live_at : ℕ → Text → Store → Option Text
live_at now i s = live_tree now (find_lease i s.leases)

unfoldable pub authority_of : Text → Store → Option Authority
authority_of i s = task_authority (find_task i s.tasks)

pub record IsExclusive (rt : Runtime) (x : System) : Type 0 where
  pub owned :
      (i p : Text)
      → live_at x.clock i x.store ≡ some p
      → (a : Authority) × (authority_of i x.store ≡ some a)
  pub apart :
      (i j p q : Text) (a b : Authority)
      → i ≢ j
      → live_at x.clock i x.store ≡ some p
      → live_at x.clock j x.store ≡ some q
      → authority_of i x.store ≡ some a
      → authority_of j x.store ≡ some b
      → Separate rt.table p a q b

pub live_at_earlier :
    (n m : ℕ) (i p : Text) (s : Store) → n ≤ m → live_at m i s ≡ some p → live_at n i s ≡ some p
unfolding live_at is_live
live_at_earlier n m i p s le h = ground arith

-- An update of tasks that leaves what the check reads leaves the authorities.
pub task_authority-update_rows :
    (test : Task → Bool) (change : Task → Task)
    → ((t : Task) → (change t).task_id ≡ t.task_id)
    → ((t : Task) → authority (change t) ≡ authority t)
    → (i : Text) (ts : List Task)
    → task_authority (find_task i (update_rows test change ts)) ≡ task_authority (find_task i ts)
task_authority-update_rows test change keeps same i ts =
    ap task_authority (find_task-update_rows test change keeps i ts) ∙ go (find_task i ts)
  where
    go :
        (o : Option Task)
        → task_authority (Option.map (λ (t : Task). if test t then change t else t) o)
          ≡ task_authority o
    go none = refl
    go (some t) = ground (arith, same t)

-- The trees that are live after a step were live before, but for the one that was claimed.
module _ (rt : Runtime) (x : System) (s : Store) (h : IsExclusive rt x) where
  pub keep-IsExclusive :
      ((i p : Text) → live_at x.clock i s ≡ some p → live_at x.clock i x.store ≡ some p)
      → ((i p : Text)
          → live_at x.clock i x.store ≡ some p
          → authority_of i s ≡ authority_of i x.store)
      → IsExclusive rt (record x { store = s })
  keep-IsExclusive trees tasks = record {
    owned = λ i p e. let (a, f) = h.owned i p (trees i p e) in (a, tasks i p (trees i p e) ∙ f);
    apart = λ i j p q a b ne ei ej ea eb.
        h.apart i j p q a b ne (trees i p ei) (trees j q ej) (sym (tasks i p (trees i p ei)) ∙ ea)
          (sym (tasks j q (trees j q ej)) ∙ eb);
  }

  -- A claim adds one live tree, apart from all the others.
  pub claim-IsExclusive :
      (task_id tree : Text) (own : Authority)
      → authority_of task_id x.store ≡ some own
      → ((i : Text)
          → live_at x.clock i s
            ≡ (if eq_text task_id i then some tree else live_at x.clock i x.store))
      → ((i : Text) → authority_of i s ≡ authority_of i x.store)
      → ((j q : Text) (b : Authority)
          → eq_text j task_id ≡ false
          → live_at x.clock j x.store ≡ some q
          → authority_of j x.store ≡ some b
          → Separate rt.table tree own q b)
      → IsExclusive rt (record x { store = s })
  claim-IsExclusive task_id tree own has trees tasks separate = record {
    owned = λ i p e. owner i p (eq_text task_id i) refl (sym (trees i) ∙ e);
    apart = λ i j p q a b ne ei ej ea eb.
        both i j p q a b ne (eq_text task_id i) (eq_text task_id j) refl refl (sym (trees i) ∙ ei)
          (sym (trees j) ∙ ej) (sym (tasks i) ∙ ea) (sym (tasks j) ∙ eb);
  }
    where
      owner :
          (i p : Text) (t : Bool)
          → eq_text task_id i ≡ t
          → (if t then some tree else live_at x.clock i x.store) ≡ some p
          → (a : Authority) × (authority_of i s ≡ some a)
      owner i p true t e = (
        own,
        tasks i ∙ subst (λ k. authority_of k x.store ≡ some own) ((eq_text_iff task_id i).0 t) has,
      )
      owner i p false t e = let (a, f) = h.owned i p e in (a, tasks i ∙ f)

      other : (i : Text) → eq_text task_id i ≡ false → eq_text i task_id ≡ false
      other i t = ground (arith, eq_text_iff task_id i, eq_text_iff i task_id)

      at_task :
          (i : Text) (a : Authority)
          → eq_text task_id i ≡ true
          → authority_of i x.store ≡ some a
          → own ≡ a
      at_task i a t e =
          let k : authority_of task_id x.store ≡ some a =
            subst (λ j. authority_of j x.store ≡ some a) (sym ((eq_text_iff task_id i).0 t)) e in
          cc (has, k)

      both :
          (i j p q : Text) (a b : Authority)
          → i ≢ j
          → (t u : Bool) → eq_text task_id i ≡ t
          → eq_text task_id j ≡ u
          → (if t then some tree else live_at x.clock i x.store) ≡ some p
          → (if u then some tree else live_at x.clock j x.store) ≡ some q
          → authority_of i x.store ≡ some a
          → authority_of j x.store ≡ some b
          → Separate rt.table p a q b
      both i j p q a b ne true true t u ei ej ea eb =
          absurd (ne (sym ((eq_text_iff task_id i).0 t) ∙ (eq_text_iff task_id j).0 u))
      both i j p q a b ne true false t u ei ej ea eb =
          let ep : tree ≡ p = cc in
          subst (λ r. Separate rt.table r a q b) ep
            (subst (λ c. Separate rt.table tree c q b) (at_task i a t ea)
              (separate j q b (other j u) ej eb))
      both i j p q a b ne false true t u ei ej ea eb =
          let eq : tree ≡ q = cc in
          subst (λ r. Separate rt.table p a r b) eq
            (Separate-comm rt.table tree p b a (
              subst (λ c. Separate rt.table tree c p a) (at_task j b u eb)
                (separate i p a (other i t) ei ea)))
      both i j p q a b ne false false t u ei ej ea eb = h.apart i j p q a b ne ei ej ea eb

pub task_authority-append :
    (i : Text) (ts : List Task) (t : Task) (a : Authority)
    → task_authority (find_task i ts) ≡ some a
    → task_authority (find_task i (ts ++ (t ∷ []))) ≡ some a
task_authority-append i ts t a h = ground (arith, find_task-append i ts t)

-- What a writer's update leaves live was live, in the same tree.
pub live_tree-update_rows :
    (task_id run_id : Text) (epoch now : ℕ) (head : Text) (change : Lease → Lease)
    → ((l : Lease) → (change l).task_id ≡ l.task_id)
    → ((l : Lease) → (change l).worktree_path ≡ l.worktree_path)
    → (i p : Text) (ls : List Lease)
    → live_tree now
        (find_lease i (update_rows (is_current_writer task_id run_id epoch now head) change ls))
      ≡ some p
    → live_tree now (find_lease i ls) ≡ some p
live_tree-update_rows task_id run_id epoch now head change keeps same i p ls h =
    go (find_lease i ls) (
      ap (live_tree now) (
        sym (
          find_lease-update_rows (is_current_writer task_id run_id epoch now head) change keeps i
            ls))
      ∙ h)
  where
    go :
        (o : Option Lease)
        → live_tree now (
            Option.map
              (λ (l : Lease).
                if is_current_writer task_id run_id epoch now head l then change l else l)
              o)
          ≡ some p
        → live_tree now o ≡ some p
    go none e = e
    go (some l) e = unfold is_current_writer is_writer is_live in ground (arith, same l)

pub live_tree-some :
    (now : ℕ) (o : Option Lease) (q : Text)
    → live_tree now o ≡ some q
    → (k : Lease) × (o ≡ some k) × (is_live now k ≡ true) × (k.worktree_path ≡ q)
live_tree-some now none q h = absurd (cc)
live_tree-some now (some k) q h = (k, refl, ground arith, ground arith)

pub task_authority-some :
    (o : Option Task) (b : Authority)
    → task_authority o ≡ some b
    → (t : Task) × (o ≡ some t) × (authority t ≡ b)
task_authority-some none b h = absurd (cc)
task_authority-some (some t) b h = (t, refl, ground arith)

pub create_trees :
    (x : System) (s : Store)
    → s.leases ≡ x.store.leases
    → (i p : Text) → live_at x.clock i s ≡ some p
    → live_at x.clock i x.store ≡ some p
unfolding live_at
create_trees x s e i p f = ap (λ ls. live_tree x.clock (find_lease i ls)) (sym e) ∙ f

pub create_authority :
    (x : System) (s : Store) (task : Task)
    → s.tasks ≡ x.store.tasks ++ (task ∷ [])
    → (i : Text) (a : Authority) → authority_of i x.store ≡ some a
    → authority_of i s ≡ some a
unfolding authority_of
create_authority x s task e i a f =
    ap (λ ts. task_authority (find_task i ts)) e ∙ task_authority-append i x.store.tasks task a f

pub writer_trees :
    (x : System) (s : Store) (task_id run_id : Text) (epoch : ℕ) (head : Text)
    (change : Lease → Lease)
    → ((l : Lease) → (change l).task_id ≡ l.task_id)
    → ((l : Lease) → (change l).worktree_path ≡ l.worktree_path)
    → s.leases
      ≡ update_rows (is_current_writer task_id run_id epoch x.clock head) change x.store.leases
    → (i p : Text) → live_at x.clock i s ≡ some p
    → live_at x.clock i x.store ≡ some p
unfolding live_at
writer_trees x s task_id run_id epoch head change keeps same e i p f =
    live_tree-update_rows task_id run_id epoch x.clock head change keeps same i p x.store.leases
      (ap (λ ls. live_tree x.clock (find_lease i ls)) (sym e) ∙ f)
