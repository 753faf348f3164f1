-- ===== src/Hub.antt =====
-- The crate eshield-hub: the limiter of the nodes' requests and the register of the nodes.
pub mod Limiter
pub mod Registry
pub mod Store
