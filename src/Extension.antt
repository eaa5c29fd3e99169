-- ===== src/Extension.antt =====
-- extension/protocol.py and extension/session.py: the messages of the browser's extension, and the
-- requests that wait for its answers.
pub mod Messages
pub mod Chunks
pub mod Assembly
pub mod Tables
pub mod Session
pub mod Transmission
pub mod Steps
pub mod Invariant
pub mod Preserve
pub mod PreserveArtifacts
pub mod Lifetime
pub mod Endings
pub mod Outcomes
pub mod Refinement
pub mod Hub
mod Examples
