-- ===== src/Node/Config.antt =====
-- eshield/src/config.rs
pub mod PortAcl
pub mod Sections
pub mod Validate
