-- ===== src/Network.antt =====
-- network.py: the filter of network records, and the store of recent and captured records.
pub mod Filter
pub mod Store
pub mod Traffic
pub mod Delivery
pub mod Bounds
pub mod Soundness
mod Examples
