-- ===== src/Common.antt =====
-- eshield-common/src/lib.rs: the types and constants that the kernel and the user side share.
-- Padding fields, which the code always sets to zero, are left out.
pub mod Ip
pub mod Entries
pub mod Config
pub mod Stats
pub mod Rules
