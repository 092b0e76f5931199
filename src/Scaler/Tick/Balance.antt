-- ===== src/Scaler/Tick/Balance.antt =====
-- The slots that a tick reserves and releases, with exceptions on the way.
pub mod Rules
pub mod Jobs
pub mod Provision
pub mod Inspections
pub mod Cycles
pub mod Whole
