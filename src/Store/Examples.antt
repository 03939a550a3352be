-- ===== src/Store/Examples.antt =====
-- A run of the store on concrete data, and the theorems at it.
use forge_boss.Base.{
  ℕ, ◌+◌, ◌*◌, ◌≡◌, refl, [], ◌∷◌, ◌++◌, Option, none, some, arith, Text, codes, eq_text, Result,
  ok, err,
}
use forge_boss.Base.Int.{pos}
use forge_boss.Value.{
  tick, finite, str, int, arr, cons, nil, Fields, end, field, get, get_or, to_float,
}
use forge_boss.Runtime.Plain.{plain}
use forge_boss.Store.Errors.{
  StoreError, worktree_collision, writable_scope_collision, budget_exceeded,
}
use forge_boss.Store.Identity.{repository_identity, physical_worktree_identity, git_object_id}
use forge_boss.Store.Scopes.{scope_list, scope_authorities, scope_overlap}
use forge_boss.Store.Budget.{validated_budget_request, ttl}
use forge_boss.Store.Governance.{governance_fields, ungoverned}
use forge_boss.Store.Tables.{
  Task, Lease, Event, EventBody, task_created, workspace_claimed, workspace_heartbeat,
  workspace_released, Store, empty_store, find_task, find_lease, find_run, update_rows, row_count,
  put_lease, max_attempt, add_event,
}
use forge_boss.Store.Tasks.{real_not_null, create_task}
use forge_boss.Store.Claims.{
  is_live, canonical_worktree_path, check_scope, check_row, check_rows, live_cross_task_conflicts,
  next_epoch, expected_head, lease_is_live, run_row, claim_rows, claim_workspace,
}
use forge_boss.Store.Writers.{
  is_writer, find_writer, is_current_writer, writer_row, heartbeat, release, assert_writer,
}
use forge_boss.Store.System.Isolation.{IsExclusive}
use forge_boss.Store.System.Exclusive.{Reach-IsExclusive}
use forge_boss.Store.System.Funding.{AllFunded, Reach-AllFunded}
use forge_boss.Store.System.Fencing.{IsFenced, claim-fences-writer}
use forge_boss.Store.System.{System, Reach, create, claim, beat, give_up, wait, here, next}

abbrev base : Text
base = codes "0123456789abcdef0123456789abcdef01234567"

abbrev one : Text
one = codes "t1"

abbrev two : Text
two = codes "t2"

abbrev run1 : Text
run1 = codes "r1"

abbrev run2 : Text
run2 = codes "r2"

-- A task over one path, with a budget of 5
abbrev request : Text → Fields
request path = field "repository" (str (codes "Owner/Repo")) (
    field "baseSha" (str base)
      (field "allowedPaths" (arr (cons (str path) nil)) (field "budgetUsd" (int (pos 5)) end)))

abbrev queued : Text → Text → ℕ → Task
queued id path at = record {
  task_id = id;
  repository = str (codes "Owner/Repo");
  purpose = codes "fix";
  base_sha = base;
  branch = none;
  status = codes "queued";
  revision = 1;
  current_step = none;
  assigned_runtime = none;
  allowed_paths = arr (cons (str path) nil);
  required_tests = arr nil;
  budget_allocated = finite (pos (5 * tick));
  budget_spent = finite (pos 0);
  result_head = none;
  governance = ungoverned;
  created_at = at;
  updated_at = at;
}

abbrev running : ℕ → ℕ → ℕ → Task → Task
running spent revision at t = record t {
  status = codes "running";
  revision = revision;
  current_step = some (codes "workspace-claimed");
  budget_spent = finite (pos spent);
  updated_at = at;
}

abbrev event : ℕ → Text → Option Text → EventBody → ℕ → Event
event n id run body at = record {
  seq = n;
  task_id = id;
  run_id = run;
  body = body;
  state_version = n;
  created_at = at;
}

abbrev task1 : Task
task1 = queued one (codes "src/a") 10

abbrev task2 : Task
task2 = queued two (codes "SRC\\A\\b.py") 11

abbrev created1 : Store
created1 = record {
  tasks = task1 ∷ [];
  runs = [];
  leases = [];
  events = event 1 one none (task_created ungoverned) 10 ∷ [];
  last_seq = 1;
}

abbrev created2 : Store
created2 = record created1 {
  tasks = task1 ∷ task2 ∷ [];
  events = created1.events ++ (event 2 two none (task_created ungoverned) 11 ∷ []);
  last_seq = 2;
}

abbrev claim_one : Store → Result StoreError (Lease × Store)
claim_one s =
    claim_workspace plain one run1 (codes "/w/one") (codes "/w") none base (int (pos 100)) none
      (int (pos 2)) 20 s

abbrev lease1 : Lease
lease1 = record {
  task_id = one;
  worktree_path = codes "/w/one";
  branch = none;
  owner_run_id = run1;
  owner_epoch = 1;
  claimed_at = 20;
  heartbeat_at = 20;
  expires_at = 100 * tick + 20;
  released_at = none;
  current_head = base;
  budget_reserved = 2 * tick;
}

abbrev held1 : Store
held1 = record {
  tasks = running (2 * tick) 2 20 task1 ∷ task2 ∷ [];
  runs = run_row run1 one 1 1 none 20 ∷ [];
  leases = lease1 ∷ [];
  events =
      created2.events
      ++ (event 3 one (some run1) (workspace_claimed 1 (codes "/w/one") base (2 * tick)) 20 ∷ []);
  last_seq = 3;
}

abbrev claim_two : Text → Result StoreError (Lease × Store)
claim_two path =
    claim_workspace plain two run2 path (codes "/w") none base (int (pos 100)) none (int (pos 2)) 30
      held1

abbrev beaten1 : Store
beaten1 = record held1 {
  leases = record lease1 { heartbeat_at = 40; expires_at = 50 * tick + 40 } ∷ [];
  events = held1.events ++ (event 4 one (some run1) (workspace_heartbeat 1 base) 40 ∷ []);
  last_seq = 4;
}

abbrev released1 : Store
released1 = record {
  tasks =
      record (running (2 * tick) 3 50 task1) { status = codes "done"; result_head = some base }
      ∷ task2
      ∷ [];
  runs =
      record (run_row run1 one 1 1 none 20) { status = codes "done"; finished_at = some 50 } ∷ [];
  leases =
      record lease1 { heartbeat_at = 40; expires_at = 50 * tick + 40; released_at = some 50 } ∷ [];
  events =
      beaten1.events
      ++ (event 5 one (some run1) (workspace_released 1 (codes "done") base) 50 ∷ []);
  last_seq = 5;
}

abbrev claim_again : ℕ → Result StoreError (Lease × Store)
claim_again budget =
    claim_workspace plain one run2 (codes "/w/one") (codes "/w") none base (int (pos 100)) none
      (int (pos budget)) 60 released1

abbrev lease3 : Lease
lease3 = record lease1 {
  owner_run_id = run2;
  owner_epoch = 2;
  claimed_at = 60;
  heartbeat_at = 60;
  expires_at = 100 * tick + 60;
  budget_reserved = 3 * tick;
}

abbrev held3 : Store
held3 = record {
  tasks = record (running (5 * tick) 4 60 task1) { result_head = some base } ∷ task2 ∷ [];
  runs = released1.runs ++ (run_row run2 one 2 2 none 60 ∷ []);
  leases = lease3 ∷ [];
  events =
      released1.events
      ++ (event 6 one (some run2) (workspace_claimed 2 (codes "/w/one") base (3 * tick)) 60 ∷ []);
  last_seq = 6;
}

abbrev error_of : {A : Type 0} → Result StoreError A → Option StoreError
error_of (ok a) = none
error_of (err e) = some e

-- All that a run of a transaction computes with
opened : Unit {0}
unfolding plain create_task scope_authorities repository_identity git_object_id governance_fields
    find_task get get_or to_float real_not_null add_event claim_workspace canonical_worktree_path
    ttl claim_rows scope_list find_lease lease_is_live is_live expected_head eq_text
    live_cross_task_conflicts physical_worktree_identity check_rows check_row check_scope
    scope_overlap validated_budget_request update_rows row_count next_epoch find_run max_attempt
    put_lease find_writer is_writer assert_writer writer_row is_current_writer heartbeat release
opened = tt

created1_runs :
    create_task plain one (codes "fix") none (request (codes "src/a")) 10 empty_store
    ≡ ok (task1, created1)
unfolding opened
created1_runs = refl

created2_runs :
    create_task plain two (codes "fix") none (request (codes "SRC\\A\\b.py")) 11 created1
    ≡ ok (task2, created2)
unfolding opened
created2_runs = refl

claimed1_runs : claim_one created2 ≡ ok (lease1, held1)
unfolding opened
claimed1_runs = refl

-- The second task may not have the first one's worktree under another spelling.
same_tree_refused : error_of (claim_two (codes "/w/ONE/.")) ≡ some worktree_collision
unfolding opened
same_tree_refused = refl

-- Nor may it write under the first one's scope.
overlap_refused : error_of (claim_two (codes "/w/two")) ≡ some writable_scope_collision
unfolding opened
overlap_refused = refl

beaten1_runs :
    heartbeat plain one run1 1 (int (pos 50)) none none 40 held1
    ≡ ok (some (record lease1 { heartbeat_at = 40; expires_at = 50 * tick + 40 }), beaten1)
unfolding opened
beaten1_runs = refl

released1_runs : release one run1 1 none (codes "done") none 50 beaten1 ≡ ok released1
unfolding opened
released1_runs = refl

-- A second claim of the task, for what its budget has left
claimed_again_runs : claim_again 3 ≡ ok (lease3, held3)
unfolding opened
claimed_again_runs = refl

over_budget_refused : error_of (claim_again 4) ≡ some budget_exceeded
unfolding opened
over_budget_refused = refl

abbrev at : ℕ → Store → System
at n s = record { clock = n; store = s }

-- Two tasks and the first claim
run_to_claim : Reach plain (at 0 empty_store) (at 20 held1)
run_to_claim =
    next
      (next
        (next
          (next
            (next (next here (wait (at 0 empty_store) 10 (omega arith))) (
              create (at 10 empty_store) one (codes "fix") none (request (codes "src/a")) task1
                created1 created1_runs))
            (wait (at 10 created1) 11 (omega arith)))
          (create (at 11 created1) two (codes "fix") none (request (codes "SRC\\A\\b.py")) task2
            created2 created2_runs))
        (wait (at 11 created2) 20 (omega arith)))
      (claim (at 20 created2) one run1 (codes "/w/one") (codes "/w") none base (int (pos 100)) none
        (int (pos 2)) lease1 held1 claimed1_runs)

-- A heartbeat and the release
run_to_release : Reach plain (at 0 empty_store) (at 50 released1)
run_to_release =
    next
      (next
        (next (next run_to_claim (wait (at 20 held1) 40 (omega arith)))
          (beat (at 40 held1) one run1 1 (int (pos 50)) none none _ beaten1 beaten1_runs))
        (wait (at 40 beaten1) 50 (omega arith)))
      (give_up (at 50 beaten1) one run1 1 none (codes "done") none released1 released1_runs)

run_to_second_claim : Reach plain (at 0 empty_store) (at 60 held3)
run_to_second_claim = next (next run_to_release (wait (at 50 released1) 60 (omega arith))) (
    claim (at 60 released1) one run2 (codes "/w/one") (codes "/w") none base (int (pos 100)) none
      (int (pos 3)) lease3 held3 claimed_again_runs)

Reach-IsExclusive_example : IsExclusive plain (at 60 held3)
Reach-IsExclusive_example = Reach-IsExclusive plain 0 run_to_second_claim

Reach-AllFunded_example : AllFunded held3.tasks
Reach-AllFunded_example = Reach-AllFunded plain 0 run_to_second_claim

-- The first lease runs out unreleased, and another run takes the task over.
abbrev expired : System
expired = at (200 * tick) held1

abbrev lease4 : Lease
lease4 = record lease1 {
  owner_run_id = run2;
  owner_epoch = 2;
  claimed_at = 200 * tick;
  heartbeat_at = 200 * tick;
  expires_at = 300 * tick;
  budget_reserved = 1 * tick;
}

abbrev held4 : Store
held4 = record {
  tasks = running (3 * tick) 3 (200 * tick) task1 ∷ task2 ∷ [];
  runs = held1.runs ++ (run_row run2 one 2 2 none (200 * tick) ∷ []);
  leases = lease4 ∷ [];
  events =
      held1.events
      ++ (event 4 one (some run2) (workspace_claimed 2 (codes "/w/one") base (1 * tick))
            (200 * tick)
          ∷ []);
  last_seq = 4;
}

taken_over_runs :
    claim_workspace plain one run2
      (codes "/w/one")
      (codes "/w")
      none
      base
      (int (pos 100))
      none
      (int (pos 1))
      (200 * tick)
      held1
    ≡ ok (lease4, held4)
unfolding opened
taken_over_runs = refl

held_runs : assert_writer one run1 1 none 20 held1 ≡ ok lease1
unfolding opened
held_runs = refl

claim-fences-writer_example :
    (lease4.owner_epoch ≡ 1 + 1) × IsFenced plain one run1 1 (at (200 * tick + 1) held4)
claim-fences-writer_example =
    claim-fences-writer plain 0 expired one run2 (codes "/w/one") (codes "/w") none base
      (int (pos 100)) none (int (pos 1)) lease4 held4
      (next run_to_claim (wait (at 20 held1) (200 * tick) (omega arith))) run1 1 none 20 lease1
      held_runs taken_over_runs
      (next here (wait (at (200 * tick) held4) (200 * tick + 1) (omega arith)))
