-- ===== src/Governance.antt =====
-- The pure governance rules of the program (src/digital_colleagues/governance).
pub mod Hours
pub mod Rbac
pub mod Approvals
