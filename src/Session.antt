-- ===== src/Session.antt =====
-- app/modules/session/router.py: `_OrchestratorSession`.
pub mod Requests
pub mod Agents
pub mod Port
pub mod Turns
mod Tests
