-- ===== src/Store.antt =====
-- The SQLite runtime store (src/digital_colleagues/adapters/sqlite/store.py).
pub mod Tables
pub mod Records
pub mod Contracts
pub mod Database
pub mod Outbox
pub mod Dispatch
pub mod Reconcile
pub mod Approve
pub mod Bundle
pub mod Sound
pub mod History
pub mod Agenda
pub mod Triggers
