-- ===== src/BlockAgent.antt =====
-- app/modules/session/block_agent.py
pub mod Policy
pub mod Observation
pub mod Data
pub mod Rules
pub mod Seam
pub mod Dispatch
pub mod Prompt
pub mod Loop
pub mod Induction
pub mod Permission
pub mod Verdict
pub mod Budget
pub mod Deletion
pub mod Reports
pub mod Exemption
pub mod Consent
mod Pairing
mod Tests
