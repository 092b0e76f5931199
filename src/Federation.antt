-- ===== src/Federation.antt =====
-- Peer hosts that share one queue: orchestrator/rorch/federation.py.
pub mod Split
pub mod Snapshot
pub mod Peers
pub mod Settings
