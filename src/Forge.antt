-- ===== src/Forge.antt =====
-- The clients of the forges: orchestrator/rorch/github_client.py and
-- orchestrator/rorch/gitea_client.py.
pub mod Client
pub mod Request
pub mod Cooldown
pub mod Conditional
pub mod Payload
pub mod Action
pub mod Scan
pub mod Methods
pub mod Pages
pub mod Clients
pub mod Routes
