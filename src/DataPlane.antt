-- ===== src/DataPlane.antt =====
-- eshield-ebpf/src: the XDP program, as functions on the state of its maps and the frame.
pub mod Kernel
pub mod State
pub mod Parser
pub mod Trust
pub mod RateCounter
pub mod Blacklist
pub mod RateLimit
pub mod Flood
pub mod ConnTrack
pub mod PortRate
pub mod PortAcl
pub mod L7Scan
pub mod Action
pub mod Rewrite
pub mod TcpReset
pub mod SynCookie
pub mod Drop
pub mod Checks
pub mod Sample
pub mod Run
pub mod Ledger
