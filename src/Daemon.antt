-- ===== src/Daemon.antt =====
-- lab_01: a daemon that writes the time to the system log, of which only one is to run.
pub mod Process
pub mod Service
pub mod Lock
pub mod Messages
mod Tests
