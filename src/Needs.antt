-- ===== src/Needs.antt =====
-- internal/needs: what users ask for, and the fulfilment by completed transactions.
pub mod Content
pub mod Domain
pub mod Memory
pub mod Service
pub mod Fulfillment
pub mod Completed
mod Tests
pub mod Lifecycle
