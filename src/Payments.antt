-- ===== src/Payments.antt =====
-- internal/payments: the payment of a transaction.
pub mod Domain
pub mod Lifecycle
pub mod Memory
pub mod Service
mod Tests
