-- ===== src/Scaler.antt =====
-- orchestrator/rorch/scaler.py: the pool scaler.
pub mod Types
pub mod Spawn
pub mod Cap
pub mod Share
pub mod State
pub mod Inspect
pub mod Operations
pub mod Repositories
pub mod Tick
