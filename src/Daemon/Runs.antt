-- ===== src/Daemon/Runs.antt =====
-- daemon/run_registry.py: `CommandRunRegistry`, the background runs that the daemon remembers.
-- `D` stands for the JSON objects that pass through (`dict[str, Any]`); a run id `run_000012` is its
-- number; each call reads the clock once, as `now`.
pub mod Records
pub mod Registry
pub mod WellFormed
pub mod Eviction
pub mod Writes
pub mod Lifecycle
pub mod Started
pub mod Finality
mod Examples
