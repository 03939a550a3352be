-- ===== src/Store/System/Fencing.antt =====
-- Owner epochs under the transactions of the store, and the writers of older epochs.
use forge_boss.Base.{
  ℕ, ◌+◌, ◌<◌, ◌≡◌, refl, sym, ap, ◌∙◌, subst, List, [], Option, none, some, arith, Text,
  eq_text_iff, ok, err,
}
use forge_boss.Value.{Value}
use forge_boss.Runtime.{Runtime}
use forge_boss.Store.Errors.{writer_lease_mismatch}
use forge_boss.Store.Budget.{ttl}
use forge_boss.Store.Tables.{Lease, Store, empty_store, find_lease}
use forge_boss.Store.Tasks.Facts.{create_task_writes}
use forge_boss.Store.Claims.{next_epoch, claim_workspace}
use forge_boss.Store.Claims.Facts.{claim_lease, claim_leases, claim_workspace_starts}
use forge_boss.Store.Lookups.{find_lease-put_lease}
use forge_boss.Store.Writers.{or_else, find_writer, writer_row, assert_writer, heartbeat, release}
use forge_boss.Store.Writers.Facts.{beaten, given_up, heartbeat_writes, release_writes}
use forge_boss.Store.System.{System, Step, Reach, wait, create, claim, beat, give_up, here, next}
use forge_boss.Store.System.Epochs.{
  IsKeyed, put_lease-IsKeyed, update_rows-IsKeyed, find_writer-find_lease, EpochFrom,
  update_rows-EpochFrom, put_lease-EpochFrom,
}

module _ (rt : Runtime) where
  Step-keeps :
      (task_id : Text) (n : ℕ) {x y : System}
      → Step rt x y
      → (IsKeyed x.store.leases → IsKeyed y.store.leases)
        × (EpochFrom task_id n x.store.leases → EpochFrom task_id n y.store.leases)
  Step-keeps task_id n (wait x m le) = (λ h. h, λ h. h)
  Step-keeps task_id n (create x id purpose branch t task s e) =
      let (_, leases, _, _, _, _) =
        create_task_writes rt id purpose branch t x.clock x.store task s e in
      (subst IsKeyed (sym leases), subst (EpochFrom task_id n) (sym leases))
  Step-keeps task_id n (claim x id run_id path root branch head seconds runtime_id budget l s e) =
      let (worktree, lifetime, task, _, _, _, rows) =
        claim_workspace_starts rt id run_id branch head runtime_id budget x.clock path root seconds
          x.store l s e in
      let leases =
        claim_leases rt id run_id branch head runtime_id budget x.clock worktree lifetime task
          x.store l s rows in
      let row =
        claim_lease rt id run_id branch head runtime_id budget x.clock worktree lifetime task
          x.store l s rows in
      (
        λ h. subst IsKeyed (sym leases) (put_lease-IsKeyed l x.store.leases h),
        λ h. subst (EpochFrom task_id n) (sym leases) (
            put_lease-EpochFrom task_id n l x.store.leases
              (row.3 ∙ ap (λ j. next_epoch (find_lease j x.store.leases)) (sym row.0)) h),
      )
  Step-keeps task_id n (beat x id run_id epoch seconds head expected r s e) =
      let (row, lifetime, _, _, leases, _) =
        heartbeat_writes rt id run_id epoch seconds head expected x.clock x.store s r e in
      let change : Lease → Lease = beaten x.clock lifetime (or_else head row.current_head) in
      (
        λ h. subst IsKeyed (sym leases) (update_rows-IsKeyed _ change (λ l. refl) x.store.leases h),
        λ h.
            subst (EpochFrom task_id n) (sym leases)
              (update_rows-EpochFrom task_id n _ change (λ l. refl) (λ l. refl) x.store.leases h),
      )
  Step-keeps task_id n (give_up x id run_id epoch head outcome expected s e) =
      let (row, _, leases, _) =
        release_writes id run_id epoch head outcome expected x.clock x.store s e in
      let change : Lease → Lease = given_up x.clock (or_else head row.current_head) in
      (
        λ h. subst IsKeyed (sym leases) (update_rows-IsKeyed _ change (λ l. refl) x.store.leases h),
        λ h.
            subst (EpochFrom task_id n) (sym leases)
              (update_rows-EpochFrom task_id n _ change (λ l. refl) (λ l. refl) x.store.leases h),
      )

  Reach-IsKeyed : {x y : System} → Reach rt x y → IsKeyed x.store.leases → IsKeyed y.store.leases
  Reach-IsKeyed here h = h
  Reach-IsKeyed (next r st) h = (Step-keeps [] 0 st).0 (Reach-IsKeyed r h)

  Reach-EpochFrom :
      (task_id : Text) (n : ℕ) {x y : System}
      → Reach rt x y
      → EpochFrom task_id n x.store.leases
      → EpochFrom task_id n y.store.leases
  Reach-EpochFrom task_id n here h = h
  Reach-EpochFrom task_id n (next r st) h =
      (Step-keeps task_id n st).1 (Reach-EpochFrom task_id n r h)

  -- An older epoch names no row.
  find_writer-stale :
      (task_id run_id : Text) (n epoch : ℕ) (ls : List Lease)
      → IsKeyed ls
      → EpochFrom task_id n ls
      → epoch < n
      → find_writer task_id run_id epoch ls ≡ none
  find_writer-stale task_id run_id n epoch ls h (k, f, le) lt =
      go (find_writer task_id run_id epoch ls) refl
    where
      go : (o : Option Lease) → find_writer task_id run_id epoch ls ≡ o → o ≡ none
      go none e = refl
      go (some l) e =
          let (g, same) = find_writer-find_lease task_id run_id epoch ls l h e in
          absurd (grind (arith, f, g, same))

  -- What a writer that has lost its epoch is told
  abbrev pub IsFenced : Text → Text → ℕ → System → Type 0
  IsFenced task_id run_id epoch z =
      ((expected : Option Text)
        → assert_writer task_id run_id epoch expected z.clock z.store ≡ err writer_lease_mismatch)
      × ((head expected : Option Text) (outcome : Text)
          → release task_id run_id epoch head outcome expected z.clock z.store
            ≡ err writer_lease_mismatch)
      × ((seconds : Value) (n : ℕ) (head expected : Option Text)
          → ttl rt seconds ≡ ok n
          → heartbeat rt task_id run_id epoch seconds head expected z.clock z.store
            ≡ err writer_lease_mismatch)

  IsFenced-of_none :
      (task_id run_id : Text) (epoch : ℕ) (z : System)
      → find_writer task_id run_id epoch z.store.leases ≡ none
      → IsFenced task_id run_id epoch z
  unfolding assert_writer release heartbeat writer_row
  IsFenced-of_none task_id run_id epoch z e =
      (λ expected. rw e, λ head expected outcome. rw e, λ seconds n head expected t. rw t (rw e))

  -- After a claim of a task, whatever commits later, each writer with an epoch below that of the
  -- claimed lease is refused: by `assert_writer`, by `release`, and by `heartbeat` with a valid
  -- lifetime.
  pub claim-IsFenced :
      (now : ℕ) (x : System) (task_id run_id path root : Text) (branch : Option Text) (head : Text)
      (seconds : Value) (runtime_id : Option Text) (budget : Value) (l : Lease) (s : Store)
      {z : System}
      → Reach rt (record { clock = now; store = empty_store }) x
      → claim_workspace rt task_id run_id path root branch head seconds runtime_id budget x.clock
          x.store
        ≡ ok (l, s)
      → Reach rt (record x { store = s }) z
      → (old_run : Text) (epoch : ℕ) → epoch < l.owner_epoch
      → IsFenced task_id old_run epoch z
  claim-IsFenced now x task_id run_id path root branch head seconds runtime_id budget l s {z} before
        e after old_run epoch lt =
      let (worktree, lifetime, task, _, _, _, rows) =
        claim_workspace_starts rt task_id run_id branch head runtime_id budget x.clock path root
          seconds x.store l s e in
      let leases =
        claim_leases rt task_id run_id branch head runtime_id budget x.clock worktree lifetime task
          x.store l s rows in
      let row =
        claim_lease rt task_id run_id branch head runtime_id budget x.clock worktree lifetime task
          x.store l s rows in
      let keyed : IsKeyed s.leases =
        subst IsKeyed (sym leases) (put_lease-IsKeyed l x.store.leases (Reach-IsKeyed before tt)) in
      let own : EpochFrom task_id l.owner_epoch s.leases = (
        l,
        ap (find_lease task_id) leases
            ∙ find_lease-put_lease task_id l x.store.leases
            ∙ rw ((eq_text_iff l.task_id task_id).1 row.0),
        omega arith,
      ) in
      IsFenced-of_none task_id old_run epoch z (
        find_writer-stale task_id old_run l.owner_epoch epoch z.store.leases
          (Reach-IsKeyed after keyed) (Reach-EpochFrom task_id l.owner_epoch after own) lt)

  -- In a database that transactions reach from the empty one, a claim of a task whose writer
  -- `assert_writer` accepts, at any time, has the next owner epoch, and from the claim on, whatever
  -- commits later, `assert_writer` and `release` of the old writer fail with the lease mismatch, and
  -- so does its `heartbeat` if the lifetime that it asks for is valid.
  pub claim-fences-writer :
      (now : ℕ) (x : System) (task_id run_id path root : Text) (branch : Option Text) (head : Text)
      (seconds : Value) (runtime_id : Option Text) (budget : Value) (l : Lease) (s : Store)
      {z : System}
      → Reach rt (record { clock = now; store = empty_store }) x
      → (old_run : Text) (epoch : ℕ) (expected : Option Text) (then_now : ℕ) (old : Lease)
      → assert_writer task_id old_run epoch expected then_now x.store ≡ ok old
      → claim_workspace rt task_id run_id path root branch head seconds runtime_id budget x.clock
          x.store
        ≡ ok (l, s)
      → Reach rt (record x { store = s }) z
      → (l.owner_epoch ≡ epoch + 1) × IsFenced task_id old_run epoch z
  unfolding next_epoch
  claim-fences-writer now x task_id run_id path root branch head seconds runtime_id budget l s {z}
        before old_run epoch expected then_now old held e after =
      let found : find_writer task_id old_run epoch x.store.leases ≡ some old =
        unfold assert_writer in ground arith in
      let (old_row, old_epoch) =
        find_writer-find_lease task_id old_run epoch x.store.leases old (Reach-IsKeyed before tt)
          found in
      let (worktree, lifetime, task, _, _, _, rows) =
        claim_workspace_starts rt task_id run_id branch head runtime_id budget x.clock path root
          seconds x.store l s e in
      let row =
        claim_lease rt task_id run_id branch head runtime_id budget x.clock worktree lifetime task
          x.store l s rows in
      let raised : l.owner_epoch ≡ epoch + 1 =
        row.3 ∙ ap next_epoch old_row ∙ omega (arith, old_epoch) in
      (
        raised,
        claim-IsFenced now x task_id run_id path root branch head seconds runtime_id budget l s
            before e after old_run epoch (omega (arith, raised)),
      )
