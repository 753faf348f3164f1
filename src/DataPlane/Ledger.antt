-- ===== src/DataPlane/Ledger.antt =====
-- The counters `total_packets`, `total_passed` and `total_dropped` as a ledger: what every function
-- of the data plane adds to it.
pub mod Parts
pub mod Modules
pub mod Proxy
pub mod Balance
