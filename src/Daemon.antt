-- ===== src/Daemon.antt =====
-- The daemon's own state: who may work in the browser at once, and the background runs.
pub mod Execution
pub mod Runs
pub mod Presentation
pub mod Drivers
