-- ===== src/Node/Control.antt =====
-- eshield/src/control.rs: the control plane of a node.
pub mod Runtime
pub mod Patch
pub mod Blocks
pub mod Publish
pub mod Tables
