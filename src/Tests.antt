-- ===== src/Tests.antt =====
-- The properties at concrete inputs, and runs of the code.
mod Samples
mod Work
mod Calendar
mod Policy
mod Rbac
mod Effects
mod Authority
mod Audit
mod Json
mod Governance
mod Diff
mod Builder
mod Store
mod Agenda
mod Triggers
