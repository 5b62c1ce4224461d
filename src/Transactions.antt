-- ===== src/Transactions.antt =====
-- Commercial agreements: backend/internal/transactions.
pub mod Domain
pub mod Lifecycle
pub mod Memory
pub mod Contracts
pub mod Events
pub mod Setup
pub mod Service
pub mod Lookup
pub mod Completion
mod Tests
