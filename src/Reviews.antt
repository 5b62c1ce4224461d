-- ===== src/Reviews.antt =====
-- internal/reviews: the reviews of verified interactions.
pub mod Domain
pub mod Cursor
pub mod Memory
pub mod Contracts
pub mod Events
pub mod Service
mod Tests
