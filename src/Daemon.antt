-- ===== src/Daemon.antt =====
-- forgeboss/control/daemon.py: the parts of the daemon that keep state of their own.
pub mod Idempotency
pub mod Connect
pub mod Frame
