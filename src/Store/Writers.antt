-- ===== src/Store/Writers.antt =====
-- `assert_writer`, `heartbeat` and `release` of `ControlStore` in forgeboss/control/store.py.
pub mod Facts
use forge_boss.Base.{
  ℕ, ◌+◌, Bool, false, not, ◌&&◌, List, [], ◌∷◌, Option, none, some, ltb, leb, ◌==◌, if◌then◌else◌,
  is_empty, Text, eq_text, Result, ok, raise_if, from_option, ◌>>=◌, ◌>>◌,
}
use forge_boss.Value.{Value}
use forge_boss.Runtime.{Runtime}
use forge_boss.Store.Errors.{
  StoreError, writer_lease_mismatch, writer_lease_expired, writer_head_mismatch,
  lost_during_heartbeat, lost_during_release, run_lost, task_lost,
}
use forge_boss.Store.Budget.{ttl}
use forge_boss.Store.Governance.{is_some}
use forge_boss.Store.Tables.{
  Task, Run, Lease, workspace_heartbeat, workspace_released, Store, find_lease, update_rows,
  row_count, add_event,
}
use forge_boss.Store.Tasks.{status_running}

-- The row that a writer names: `task_id=? AND owner_run_id=? AND owner_epoch=? AND released_at IS NULL`
unfoldable pub is_writer : Text → Text → ℕ → Lease → Bool
unfolding eq_text
is_writer task_id run_id owner_epoch l =
    eq_text l.task_id task_id
    && eq_text l.owner_run_id run_id
    && l.owner_epoch == owner_epoch
    && not (is_some l.released_at)

-- `assert_writer`: the lease of the writer, unreleased and unexpired, with the head that it expects
unfoldable pub find_writer : Text → Text → ℕ → List Lease → Option Lease
unfolding is_writer
find_writer task_id run_id owner_epoch [] = none
find_writer task_id run_id owner_epoch (l ∷ ls) =
    if is_writer task_id run_id owner_epoch l
    then some l
    else find_writer task_id run_id owner_epoch ls

abbrev pub head_differs : Option Text → Text → Bool
head_differs none head = false
head_differs (some expected) head = not (eq_text head expected)

-- An empty expected head asks for nothing here.
abbrev pub nonempty_head : Option Text → Option Text
nonempty_head none = none
nonempty_head (some h) = if is_empty h then none else some h

unfoldable pub assert_writer : Text → Text → ℕ → Option Text → ℕ → Store → Result StoreError Lease
assert_writer task_id run_id owner_epoch expected now s = do
  row ← from_option writer_lease_mismatch (find_writer task_id run_id owner_epoch s.leases)
  raise_if (leb row.expires_at now) writer_lease_expired
  raise_if (head_differs (nonempty_head expected) row.current_head) writer_head_mismatch
  ok row

abbrev pub or_else : Option Text → Text → Text
or_else none t = t
or_else (some h) t = h

-- The rows that the UPDATE of a writer names: the writer's, unexpired, with the head just read
unfoldable pub is_current_writer : Text → Text → ℕ → ℕ → Text → Lease → Bool
unfolding is_writer eq_text
is_current_writer task_id run_id owner_epoch now head l =
    is_writer task_id run_id owner_epoch l && ltb now l.expires_at && eq_text l.current_head head

-- The common start of `heartbeat` and `release`
unfoldable pub writer_row : Text → Text → ℕ → Option Text → ℕ → Store → Result StoreError Lease
writer_row task_id run_id owner_epoch expected now s = do
  row ← from_option writer_lease_mismatch (find_writer task_id run_id owner_epoch s.leases)
  raise_if (leb row.expires_at now) writer_lease_expired
  raise_if (head_differs expected row.current_head) writer_head_mismatch
  ok row

unfoldable pub heartbeat :
    Runtime
    → Text
    → Text
    → ℕ
    → Value
    → Option Text
    → Option Text
    → ℕ
    → Store
    → Result StoreError (Option Lease × Store)
heartbeat rt task_id run_id owner_epoch ttl_seconds current_head expected now s = do
  lifetime ← ttl rt ttl_seconds
  row ← writer_row task_id run_id owner_epoch expected now s
  let head = or_else current_head row.current_head
  let test : Lease → Bool = is_current_writer task_id run_id owner_epoch now row.current_head
  raise_if (not (row_count test s.leases == 1)) lost_during_heartbeat
  let s' : Store = record s {
    leases =
        update_rows test
          (λ (l : Lease). record l {
            heartbeat_at = now;
            expires_at = now + lifetime;
            current_head = head;
          })
          s.leases;
  }
  let s'' = add_event (workspace_heartbeat owner_epoch head) task_id (some run_id) now s'
  ok (find_lease task_id s''.leases, s'')

unfoldable pub release :
    Text → Text → ℕ → Option Text → Text → Option Text → ℕ → Store → Result StoreError Store
release task_id run_id owner_epoch result_head outcome expected now s = do
  row ← writer_row task_id run_id owner_epoch expected now s
  let head = or_else result_head row.current_head
  let test : Lease → Bool = is_current_writer task_id run_id owner_epoch now row.current_head
  raise_if (not (row_count test s.leases == 1)) lost_during_release
  let is_run : Run → Bool = λ (r : Run).
      eq_text r.run_id run_id
      && eq_text r.task_id task_id
      && r.owner_epoch == owner_epoch
      && eq_text r.status status_running
  raise_if (not (row_count is_run s.runs == 1)) run_lost
  let is_task : Task → Bool =
      λ (t : Task). eq_text t.task_id task_id && eq_text t.status status_running
  raise_if (not (row_count is_task s.tasks == 1)) task_lost
  ok (
      add_event (workspace_released owner_epoch outcome head) task_id (some run_id) now (record s {
        leases =
            update_rows test
              (λ (l : Lease). record l { released_at = some now; current_head = head }) s.leases;
        runs =
            update_rows is_run (λ (r : Run). record r { status = outcome; finished_at = some now })
              s.runs;
        tasks =
            update_rows is_task
              (λ (t : Task). record t {
                status = outcome;
                revision = t.revision + 1;
                result_head = some head;
                updated_at = now;
              })
              s.tasks;
      }))
