-- ===== src/Deliveries.antt =====
-- internal/deliveries: the delivery of what a transaction is about.
pub mod Domain
pub mod Lifecycle
pub mod Memory
pub mod Events
pub mod Lookup
pub mod Setup
pub mod Service
pub mod Tests
