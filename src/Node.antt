-- ===== src/Node.antt =====
-- The crate eshield: the user side of a node.
pub mod LoginLimiter
pub mod Config
pub mod Control
pub mod Cookies
pub mod Store
pub mod Timeseries
pub mod Adaptive
pub mod Ip
pub mod Auth
pub mod BlacklistSync
pub mod HubClient
pub mod Audit
