-- ===== src/Lib.antt =====
-- A model of ForgeBoss's control plane: the code that decides which coding agents may run side by
-- side, which of them may write to a repository, and what they may spend.
--
-- The program. A daemon accepts signed requests and calls the `ControlStore` of
-- forgeboss/control/store.py, a SQLite database of tasks, of the workspace leases under which agents
-- write, of the runs of agents and of an event log. `smart_parallel_batches` of
-- forgeboss/control/scheduler.py groups work items into batches that run side by side; the store
-- borrows the scheduler's canonical form of paths to compare worktrees and writable scopes. Before
-- a task is built, forgeboss/policy asks whether it is a small repair, by a signed exemption, or has
-- a review of the existing software that it could reuse; the signatures are over the canonical bytes
-- of forgeboss/control/envelope.py. An accepted review has a signed receipt, a launch of an agent a
-- signed attestation, and the permanent rules a pinned digest.
--
-- Which file models which part:
--   Base          what the files share: numbers, lists, Python's texts as code points, results
--   Casefold      `str.casefold`, as a table with the documented facts that the program relies on
--   Value         JSON values as Python holds them, and `float(value)`
--   Runtime       what the code takes from Python: JSON, parsers of numbers, `pathlib`, digests, and
--                 `int`, `bool` and `str` of JSON values
--   Scheduler     forgeboss/control/scheduler.py
--     Paths         `_canonical_path`, `_contains`, `conflicts`
--     Batches       `smart_parallel_batches`
--   Store         forgeboss/control/store.py
--     Errors        the exceptions, one constructor for each message
--     Identity      `_repository_identity`, `_git_object_id`, `_physical_worktree_identity`
--     Scopes        `_scope_authorities`, `_scope_overlap`
--     Budget        `_budget_decimal`, `_validated_budget_request`, `_ttl`
--     Governance    `_governance_fields`
--     Tables        the tables, and the statements that read and write them
--     Tasks         `create_task`, `get_task`
--     Claims        `claim_workspace`, `canonical_worktree_path`, `_live_cross_task_conflicts_locked`
--     Writers       `assert_writer`, `heartbeat`, `release`
--     System        sequences of committed transactions under a clock
--   Envelope      forgeboss/control/envelope.py: `canonical`, `sign_envelope`
--     Verify        `verify_envelope`
--   Policy        forgeboss/policy
--     ReuseReview   forgeboss/policy/reuse_review.py
--     SmallRepair   forgeboss/policy/small_repair_authority.py
--     TaskReadiness `evaluate_task_reuse_readiness` of the same file
--     Signed        the checks of signatures and lifetimes that both authorities make
--     Receipt       forgeboss/policy/reuse_review_authority.py
--     PermanentRules  forgeboss/policy/permanent_rules.py
--   Launch        forgeboss/control/governed_launch.py
--   Daemon        forgeboss/control/daemon.py
--     Frame         forgeboss/control/protocol.py
--     Connect       forgeboss/control/auth.py, and the method `connect` with its nonces
--     Idempotency   `_idem`: the sections under the lock, and interleavings of requests
--   Guard         forgeboss/security/executor_guard.py: `norm`, `sensitive`, `validate_packet`
--   Ledger        forgeboss/safety/cost_ledger.py, forgeboss/safety/numbers.py
--
-- State. A table is the list of its rows. A transaction (BEGIN IMMEDIATE to COMMIT, under the
-- store's lock) is a function from the arguments, the time and the database to the new database or
-- the exception; an exception rolls the transaction back, so it carries no database. Transactions
-- follow one another, in any order, at times that do not decrease.
--
-- Numbers. Times and amounts are whole ticks, 2 ** 1074 to one, so that every finite double is a
-- number of ticks. The expiry of a token is a sum that `add_float` of the `Runtime` rounds, and the
-- sums of the ledger are those of its `Sums`; other sums, differences and integers that are made
-- floats are not rounded. An integer of 2 ** 1024 or more has no float, and a text is a number if
-- the parser of the `Runtime` says so. Costs in the scheduler are whole multiples of a unit. The
-- rounds of `smart_parallel_batches` run on fuel, one more than the number of items, and each round
-- takes at least one item.
--
-- Bytes are natural numbers. The digests of the `Runtime` are any functions; a theorem that relies on
-- their form says so.
--
-- Not modelled: creating and upgrading the database file and its access control, the tables that no
-- method of the store writes, the displays of the store and of a review, the daemon's sockets and
-- its dispatch of the methods other than `connect`, the launcher of governed workers, the learning
-- store, the guard's calls of Git and of the file system, the dashboard, the executors that run
-- agents, and the PowerShell and JavaScript parts.
pub mod Base
pub mod Casefold
pub mod Value
pub mod Runtime
pub mod Scheduler
pub mod Store
pub mod Envelope
pub mod Policy
pub mod Launch
pub mod Daemon
pub mod Ledger
pub mod Guard
