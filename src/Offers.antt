-- ===== src/Offers.antt =====
-- internal/offers: the offers that businesses make on a need, and the exclusive acceptance of one.
pub mod Domain
pub mod Lifecycle
pub mod Memory
pub mod Events
pub mod Setup
pub mod Work
pub mod Service
pub mod Lookup
mod Tests
pub mod Message
