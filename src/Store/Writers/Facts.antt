-- ===== src/Store/Writers/Facts.antt =====
-- What a successful heartbeat and a successful release have found, and the database that they leave.
use forge_boss.Base.{ℕ, ◌+◌, ◌≡◌, ◌&&◌, Option, some, arith, Text, eq_text, ok}
use forge_boss.Value.{Value}
use forge_boss.Runtime.{Runtime}
use forge_boss.Store.Budget.{ttl}
use forge_boss.Store.Tables.{Task, Lease, Store, update_rows, add_event}
use forge_boss.Store.Tasks.{status_running}
use forge_boss.Store.Writers.{is_current_writer, writer_row, heartbeat, release, or_else}

-- The new row of a heartbeat and of a release
abbrev pub beaten : ℕ → ℕ → Text → Lease → Lease
beaten now lifetime head l = record l {
  heartbeat_at = now;
  expires_at = now + lifetime;
  current_head = head;
}

abbrev pub given_up : ℕ → Text → Lease → Lease
given_up now head l = record l { released_at = some now; current_head = head }

abbrev pub ended : Text → Text → ℕ → Task → Task
ended outcome head now t = record t {
  status = outcome;
  revision = t.revision + 1;
  result_head = some head;
  updated_at = now;
}

pub heartbeat_writes :
    (rt : Runtime) (task_id run_id : Text) (epoch : ℕ) (seconds : Value)
    (head expected : Option Text) (now : ℕ) (s s' : Store) (r : Option Lease)
    → heartbeat rt task_id run_id epoch seconds head expected now s ≡ ok (r, s')
    → (row : Lease) × (lifetime : ℕ) × (writer_row task_id run_id epoch expected now s ≡ ok row)
      × (ttl rt seconds ≡ ok lifetime)
      × (s'.leases
          ≡ update_rows
              (is_current_writer task_id run_id epoch now row.current_head)
              (beaten now lifetime (or_else head row.current_head))
              s.leases)
      × (s'.tasks ≡ s.tasks)
unfolding heartbeat add_event
heartbeat_writes rt task_id run_id epoch seconds head expected now s s' r h = ground arith

pub release_writes :
    (task_id run_id : Text) (epoch : ℕ) (head : Option Text) (outcome : Text)
    (expected : Option Text) (now : ℕ) (s s' : Store)
    → release task_id run_id epoch head outcome expected now s ≡ ok s'
    → (row : Lease) × (writer_row task_id run_id epoch expected now s ≡ ok row)
      × (s'.leases
          ≡ update_rows
              (is_current_writer task_id run_id epoch now row.current_head)
              (given_up now (or_else head row.current_head))
              s.leases)
      × (s'.tasks
          ≡ update_rows
              (λ (t : Task). eq_text t.task_id task_id && eq_text t.status status_running)
              (ended outcome (or_else head row.current_head) now)
              s.tasks)
unfolding release add_event
release_writes task_id run_id epoch head outcome expected now s s' h = ground arith
