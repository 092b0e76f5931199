-- ===== src/Server.antt =====
-- The control API's guards: orchestrator/rorch/server/auth.py and orchestrator/rorch/server/deps.py.
pub mod Guard
pub mod Access
pub mod Replay
pub mod Control
