-- ===== src/Automation.antt =====
-- The automation service: what its store keeps, and its queue of runs.
pub mod Records
pub mod Rows
pub mod RunRow
pub mod Creation
pub mod Queue
pub mod Definitions
pub mod Service
pub mod Schedule
