-- ===== src/Store.antt =====
-- forgeboss/control/store.py: the tasks, the workspace leases that they hold, the runs under them
-- and the event log, with the transactions of `ControlStore`.
pub mod Errors
pub mod Identity
pub mod Scopes
pub mod Budget
pub mod Governance
pub mod Tables
pub mod Tasks
pub mod Claims
pub mod Writers
pub mod Lookups
pub mod System
mod Examples
