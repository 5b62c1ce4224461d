-- ===== src/Outbox.antt =====
-- The transactional outbox: backend/internal/platform/outbox.
pub mod Event
pub mod Policy
pub mod Store
pub mod Writer
pub mod Relay
mod Tests
