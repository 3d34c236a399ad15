-- ===== src/Core.antt =====
-- The pure core of the program (src/digital_colleagues/core).
pub mod Common
pub mod Namespace
pub mod Principals
pub mod Work
pub mod Runtime
pub mod Authority
pub mod Effects
pub mod Audit
pub mod Policy
pub mod Governance
pub mod Builder
