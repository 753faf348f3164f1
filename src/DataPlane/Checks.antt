-- ===== src/DataPlane/Checks.antt =====
-- eshield-ebpf/src/main.rs: the modules that the main program asks in turn. Each gives an action,
-- with the context and the state that it leaves; `no_action` lets the next module decide.
pub mod Tables
pub mod Floods
