-- ===== src/Disputes.antt =====
-- internal/disputes: disputes about transactions, and the evidence in them.
pub mod Domain
pub mod Evidence
pub mod Lifecycle
pub mod Memory
pub mod Events
pub mod Lookup
pub mod Setup
pub mod Service
pub mod Filing
pub mod Tests
