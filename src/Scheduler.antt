-- ===== src/Scheduler.antt =====
-- forgeboss/control/scheduler.py: canonical repository paths, and the batches of work items that
-- may run side by side.
pub mod Paths
pub mod Batches
mod Examples
