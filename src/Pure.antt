-- ===== src/Pure.antt =====
-- eshield-common/src/pure.rs: the computations that touch no eBPF map.
pub mod Block
pub mod Decay
pub mod Acl
pub mod ConnTrack
pub mod Cookie
pub mod Checksum
