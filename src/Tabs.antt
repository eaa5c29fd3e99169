-- ===== src/Tabs.antt =====
-- tabs/registry.py: who owns which tab, which tab is active, and which request holds it.
pub mod Records
pub mod Registry
pub mod Claims
pub mod Calls
pub mod Invariant
pub mod Owned
pub mod Preserve
pub mod PreserveClaims
pub mod PreserveRemove
pub mod PreserveRename
pub mod WellFormed
pub mod Holding
pub mod Lifecycle
pub mod Closing
pub mod Unseen
pub mod Isolation
pub mod Listing
pub mod Replacement
mod Examples
