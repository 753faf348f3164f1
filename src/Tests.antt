-- ===== src/Tests.antt =====
-- Runs of the models at concrete inputs.
pub mod Machine
pub mod Settings
pub mod PureRuns
pub mod ModuleRuns
pub mod PacketRuns
pub mod GuardRuns
pub mod ControlRuns
pub mod NodeRuns
pub mod TableRuns
pub mod StoreRuns
pub mod AccessRuns
pub mod AuditRuns
