-- ===== src/Store/System/Exclusive.antt =====
-- Live leases of different tasks, under the transactions of the store.
use forge_boss.Base.{
  ℕ, ◌≡◌, refl, sym, ap, ◌∙◌, subst, Option, some, arith, if◌then◌else◌, Text, eq_text, ok, ◌<◌,
}
use forge_boss.Value.{Value}
use forge_boss.Runtime.{Runtime}
use forge_boss.Store.Tables.{Task, Lease, Store, empty_store, find_task, find_lease}
use forge_boss.Store.Tasks.Facts.{create_task_writes}
use forge_boss.Store.Writers.Facts.{beaten, given_up, ended, heartbeat_writes, release_writes}
use forge_boss.Store.Claims.Facts.{
  claim_scope, claim_lease, claim_leases, claim_tasks, claim_workspace_starts, ttl-pos,
}
use forge_boss.Store.Claims.{is_live, claim_rows}
use forge_boss.Store.Claims.Separation.{authority, Separate, live_cross_task_conflicts-Separate}
use forge_boss.Store.Lookups.{find_lease-put_lease}
use forge_boss.Store.Writers.{or_else}
use forge_boss.Store.System.{System, Step, Reach, wait, create, claim, beat, give_up, here, next}
use forge_boss.Store.System.Isolation.{
  live_tree, task_authority, live_at, authority_of, IsExclusive, live_at_earlier,
  task_authority-update_rows, keep-IsExclusive, claim-IsExclusive, live_tree-some,
  task_authority-some, create_trees, create_authority, writer_trees,
}

-- A claim's writes
module _ (rt : Runtime) (x : System) (s : Store) (h : IsExclusive rt x) (task_id run_id : Text)
    (branch : Option Text) (head : Text) (runtime_id : Option Text) (budget : Value)
    (worktree : Text) (lifetime : ℕ) (task : Task) (l : Lease) (positive : 0 < lifetime)
    (found : find_task task_id x.store.tasks ≡ some task)
    (claimed : claim_rows rt task_id run_id worktree branch head lifetime runtime_id budget x.clock
        task x.store
      ≡ ok (l, s)) where
  claim_trees :
      (i : Text)
      → live_at x.clock i s
        ≡ (if eq_text task_id i then some worktree else live_at x.clock i x.store)
  unfolding live_at is_live
  claim_trees i =
      let leases =
        claim_leases rt task_id run_id branch head runtime_id budget x.clock worktree lifetime task
          x.store l s claimed in
      let row =
        claim_lease rt task_id run_id branch head runtime_id budget x.clock worktree lifetime task
          x.store l s claimed in
      ap (λ ls. live_tree x.clock (find_lease i ls)) leases
      ∙ ap (live_tree x.clock) (find_lease-put_lease i l x.store.leases)
      ∙ ground (arith, row.0, row.1, row.4, row.5, positive)

  claim_authority : (i : Text) → authority_of i s ≡ authority_of i x.store
  unfolding authority_of
  claim_authority i =
      let (spending, _, _, tasks) =
        claim_tasks rt task_id run_id branch head runtime_id budget x.clock worktree lifetime task
          x.store l s claimed in
      ap (λ ts. task_authority (find_task i ts)) tasks
      ∙ task_authority-update_rows _ _ (λ t. refl) (λ t. refl) i _
      ∙ task_authority-update_rows _ _ (λ t. refl) (λ t. refl) i x.store.tasks

  claim_rows-IsExclusive : IsExclusive rt (record x { store = s })
  claim_rows-IsExclusive =
      let (scope, paths, check) =
        claim_scope rt task_id run_id branch head runtime_id budget x.clock worktree lifetime task
          x.store l s claimed in
      claim-IsExclusive rt x s h task_id worktree (authority task)
        (unfold authority_of in ap task_authority found) claim_trees claim_authority
        (λ j q b ne ej eb.
          let (k, fk, live, path) =
            live_tree-some x.clock (find_lease j x.store.leases) q (unfold live_at in ej) in
          let (t, ft, au) =
            task_authority-some (find_task j x.store.tasks) b (unfold authority_of in eb) in
          subst (λ p. Separate rt.table worktree (authority task) p b) path
            (subst (Separate rt.table worktree (authority task) k.worktree_path) au (
              live_cross_task_conflicts-Separate rt task_id (authority task) worktree scope x.clock
                x.store paths check j k t fk ne live ft)))

module _ (rt : Runtime) where
  Step-IsExclusive : {x y : System} → Step rt x y → IsExclusive rt x → IsExclusive rt y
  Step-IsExclusive (wait x n le) h = record {
    owned = λ i p e. h.owned i p (live_at_earlier x.clock n i p x.store le e);
    apart = λ i j p q a b ne ei ej.
        h.apart i j p q a b ne (live_at_earlier x.clock n i p x.store le ei)
          (live_at_earlier x.clock n j q x.store le ej);
  }
  Step-IsExclusive (create x task_id purpose branch t task s e) h =
      let (tasks, leases, _, _, _, _) =
        create_task_writes rt task_id purpose branch t x.clock x.store task s e in
      keep-IsExclusive rt x s h (λ i p f. create_trees x s leases i p f)
        (λ i p f. let (a, fa) = h.owned i p f in create_authority x s task tasks i a fa ∙ sym fa)
  Step-IsExclusive (claim x task_id run_id path root branch head seconds runtime_id budget l s e)
        h =
      let (worktree, lifetime, task, _, lives, found, rows) =
        claim_workspace_starts rt task_id run_id branch head runtime_id budget x.clock path root
          seconds x.store l s e in
      claim_rows-IsExclusive rt x s h task_id run_id branch head runtime_id budget worktree lifetime
        task l (ttl-pos rt seconds lifetime lives) found rows
  Step-IsExclusive (beat x task_id run_id epoch seconds head expected r s e) h =
      let (row, lifetime, _, _, leases, tasks) =
        heartbeat_writes rt task_id run_id epoch seconds head expected x.clock x.store s r e in
      keep-IsExclusive rt x s h
        (λ i p f.
          writer_trees x s task_id run_id epoch row.current_head
            (beaten x.clock lifetime (or_else head row.current_head)) (λ l. refl) (λ l. refl) leases
            i p f)
        (λ i p f. unfold authority_of in ap (λ ts. task_authority (find_task i ts)) tasks)
  Step-IsExclusive (give_up x task_id run_id epoch head outcome expected s e) h =
      let (row, _, leases, tasks) =
        release_writes task_id run_id epoch head outcome expected x.clock x.store s e in
      keep-IsExclusive rt x s h
        (λ i p f.
          writer_trees x s task_id run_id epoch row.current_head
            (given_up x.clock (or_else head row.current_head)) (λ l. refl) (λ l. refl) leases i p f)
        (λ i p f.
          unfold authority_of in
          ap (λ ts. task_authority (find_task i ts)) tasks
          ∙ task_authority-update_rows _ (ended outcome (or_else head row.current_head) x.clock)
              (λ t. refl) (λ t. refl) i x.store.tasks)

  -- Whatever transactions commit, live leases of different tasks stay separate.
  Reach-IsExclusive_from : {x y : System} → Reach rt x y → IsExclusive rt x → IsExclusive rt y
  Reach-IsExclusive_from here h = h
  Reach-IsExclusive_from (next r st) h = Step-IsExclusive st (Reach-IsExclusive_from r h)

  empty-IsExclusive : (now : ℕ) → IsExclusive rt (record { clock = now; store = empty_store })
  unfolding live_at find_lease
  empty-IsExclusive now = record {
    owned = λ i p e. absurd (cc);
    apart = λ i j p q a b ne ei. absurd (cc);
  }

  -- From an empty database, after any committed transactions at times that do not decrease, every
  -- live lease belongs to a task of the database, and two tasks with live leases hold different
  -- physical worktrees and, where their repositories and bases agree, their writable scopes do not
  -- overlap.
  pub Reach-IsExclusive :
      (now : ℕ) {y : System}
      → Reach rt (record { clock = now; store = empty_store }) y
      → IsExclusive rt y
  Reach-IsExclusive now r = Reach-IsExclusive_from r (empty-IsExclusive now)
