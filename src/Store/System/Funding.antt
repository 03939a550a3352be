-- ===== src/Store/System/Funding.antt =====
-- What tasks spend, under the transactions of the store.
use forge_boss.Base.{
  ℕ, ◌+◌, ◌≤◌, ◌≡◌, refl, sym, ap, ◌∙◌, subst, ◌⊎◌, inl, inr, Bool, true, false, List, [], ◌∷◌,
  ◌++◌, Option, none, some, arith, if◌then◌else◌, ltb, Text, eq_text, eq_text_iff, ok, >>=-eq-ok,
  raise_if-eq-ok, &&-true,
}
use mathlib.Core.Option
use forge_boss.Base.Int.{pos}
use forge_boss.Value.{Float, finite, Value, float}
use forge_boss.Runtime.{Runtime}
use forge_boss.Store.Errors.{StoreError, budget_state_invalid, budget_invalid}
use forge_boss.Store.Budget.{budget_decimal, validated_budget_request}
use forge_boss.Store.Tables.{Task, empty_store, find_task, update_rows}
use forge_boss.Store.Tasks.Facts.{create_task_writes}
use forge_boss.Store.Claims.Facts.{named, claim_tasks, claim_workspace_starts}
use forge_boss.Store.Lookups.{find_task-update_rows, find_task-append, find_task-key}
use forge_boss.Store.Writers.{or_else}
use forge_boss.Store.Writers.Facts.{ended, heartbeat_writes, release_writes}
use forge_boss.Store.System.{System, Step, Reach, wait, create, claim, beat, give_up, here, next}

-- Nothing is spent yet, or no more than a finite allocation.
abbrev pub IsFunded : Task → Type 0
IsFunded t =
    (spent : ℕ) × (t.budget_spent ≡ finite (pos spent))
    × ((spent ≡ 0)
        ⊎ ((allocated : ℕ) × (t.budget_allocated ≡ finite (pos allocated)) × (spent ≤ allocated)))

budget_decimal-float :
    (rt : Runtime) (f : Float) (code : StoreError) (n : ℕ)
    → budget_decimal rt (float f) code ≡ ok n
    → f ≡ finite (pos n)
unfolding budget_decimal
budget_decimal-float rt (finite (pos m)) code n h = ground arith
budget_decimal-float rt _ code n h = cc

-- A granted request reserves what was asked and keeps the sum within the allocation.
pub validated_budget_request-fits :
    (rt : Runtime) (t : Task) (requested : Value) (reserved spent : ℕ)
    → validated_budget_request rt t requested ≡ ok (reserved, spent)
    → (allocated before : ℕ) × (t.budget_allocated ≡ finite (pos allocated))
      × (t.budget_spent ≡ finite (pos before))
      × (budget_decimal rt requested budget_invalid ≡ ok reserved)
      × (spent ≡ before + reserved)
      × (spent ≤ allocated)
unfolding validated_budget_request
validated_budget_request-fits rt t requested reserved spent h =
    let (allocated, ea, h1) =
      >>=-eq-ok (budget_decimal rt (float t.budget_allocated) budget_state_invalid) _ h in
    let (before, eb, h2) =
      >>=-eq-ok (budget_decimal rt (float t.budget_spent) budget_state_invalid) _ h1 in
    let (e1, h3) = raise_if-eq-ok (ltb allocated before) budget_state_invalid _ h2 in
    let (value, ev, h4) = >>=-eq-ok (budget_decimal rt requested budget_invalid) _ h3 in
    (
      allocated,
      before,
      budget_decimal-float rt t.budget_allocated budget_state_invalid allocated ea,
      budget_decimal-float rt t.budget_spent budget_state_invalid before eb,
      ground arith,
      ground arith,
      ground arith,
    )

-- Every task of the table is funded.
abbrev pub AllFunded : List Task → Type 0
AllFunded ts = (i : Text) (t : Task) → find_task i ts ≡ some t → IsFunded t

update_rows-AllFunded :
    (test : Task → Bool) (change : Task → Task)
    → ((t : Task) → (change t).task_id ≡ t.task_id)
    → (ts : List Task)
    → ((i : Text) (t : Task) → find_task i ts ≡ some t → test t ≡ true → IsFunded (change t))
    → AllFunded ts
    → AllFunded (update_rows test change ts)
update_rows-AllFunded test change keeps ts changed h i t e =
    go (find_task i ts) refl (sym (find_task-update_rows test change keeps i ts) ∙ e)
  where
    either :
        (u : Task)
        → find_task i ts ≡ some u
        → (b : Bool) → test u ≡ b
        → IsFunded (if b then change u else u)
    either u f true tested = changed i u f tested
    either u f false tested = h i u f

    go :
        (o : Option Task)
        → find_task i ts ≡ o
        → Option.map (λ (u : Task). if test u then change u else u) o ≡ some t
        → IsFunded t
    go none f q = absurd (cc)
    go (some u) f q =
        let same : (if test u then change u else u) ≡ t = cc in
        subst IsFunded same (either u f (test u) refl)

append-AllFunded :
    (ts : List Task) (new : Task) → IsFunded new → AllFunded ts → AllFunded (ts ++ (new ∷ []))
append-AllFunded ts new fresh h i t e =
    go (find_task i ts) refl (sym (find_task-append i ts new) ∙ e)
  where
    single : (b : Bool) → (if b then some new else none) ≡ some t → IsFunded t
    single true q = let same : new ≡ t = cc in subst IsFunded same fresh
    single false q = absurd (cc)

    go :
        (o : Option Task)
        → find_task i ts ≡ o
        → elim o [ some u ↦ some u | none ↦ if eq_text new.task_id i then some new else none ]
          ≡ some t
        → IsFunded t
    go none f q = single (eq_text new.task_id i) q
    go (some u) f q = h i t (f ∙ q)

-- Two lookups that meet at one key meet at one row.
named_row :
    (ts : List Task) (id i : Text) (t task : Task)
    → find_task i ts ≡ some t
    → t.task_id ≡ id
    → find_task id ts ≡ some task
    → t ≡ task
named_row ts id i t task f e found =
    let g : find_task id ts ≡ some t =
      subst (λ j. find_task j ts ≡ some t) (sym (find_task-key i ts t f) ∙ e) f in
    cc (g, found)

module _ (rt : Runtime) where
  Step-AllFunded : {x y : System} → Step rt x y → AllFunded x.store.tasks → AllFunded y.store.tasks
  Step-AllFunded (wait x m le) h = h
  Step-AllFunded (create x id purpose branch t task s e) h =
      let (tasks, _, _, _, _, spent) =
        create_task_writes rt id purpose branch t x.clock x.store task s e in
      subst AllFunded (sym tasks) (append-AllFunded x.store.tasks task (0, spent, inl refl) h)
  Step-AllFunded (claim x id run_id path root branch head seconds runtime_id budget l s e) h =
      let (worktree, lifetime, task, _, _, found, rows) =
        claim_workspace_starts rt id run_id branch head runtime_id budget x.clock path root seconds
          x.store l s e in
      let (spending, granted, _, tasks) =
        claim_tasks rt id run_id branch head runtime_id budget x.clock worktree lifetime task
          x.store l s rows in
      let (allocated, before, ea, _, _, _, fits) =
        validated_budget_request-fits rt task budget spending.0 spending.1 granted in
      let charge : Task → Task =
        λ (t : Task). record t { budget_spent = finite (pos spending.1) } in
      let charged : AllFunded (
          update_rows
            (named rt id run_id branch head runtime_id budget x.clock worktree lifetime task x.store
              l s rows)
            charge x.store.tasks) =
        update_rows-AllFunded _ charge (λ t. refl) x.store.tasks
          (λ i t f n.
            let same : t ≡ task =
              named_row x.store.tasks id i t task f ((eq_text_iff t.task_id id).0 (&&-true _ _ n).0)
                found in
            (
              spending.1,
              refl,
              inr (allocated, ap (λ (u : Task). u.budget_allocated) same ∙ ea, fits),
            ))
          h in
      subst AllFunded (sym tasks)
        (update_rows-AllFunded _ _ (λ t. refl) _ (λ i t f n. charged i t f) charged)
  Step-AllFunded (beat x id run_id epoch seconds head expected r s e) h =
      let (row, lifetime, _, _, _, tasks) =
        heartbeat_writes rt id run_id epoch seconds head expected x.clock x.store s r e in
      subst AllFunded (sym tasks) h
  Step-AllFunded (give_up x id run_id epoch head outcome expected s e) h =
      let (row, _, _, tasks) =
        release_writes id run_id epoch head outcome expected x.clock x.store s e in
      subst AllFunded (sym tasks) (
        update_rows-AllFunded _ (ended outcome (or_else head row.current_head) x.clock) (λ t. refl)
          x.store.tasks (λ i t f n. h i t f) h)

  -- From an empty database, after any committed transactions at times that do not decrease, each
  -- task has spent nothing, or at most a finite allocation.
  pub Reach-AllFunded :
      (now : ℕ) {y : System}
      → Reach rt (record { clock = now; store = empty_store }) y
      → AllFunded y.store.tasks
  unfolding find_task
  Reach-AllFunded now here = λ i t e. absurd (cc)
  Reach-AllFunded now (next r st) = Step-AllFunded st (Reach-AllFunded now r)
