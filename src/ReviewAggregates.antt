-- ===== src/ReviewAggregates.antt =====
-- internal/reviewaggregates: the counts and sums of the ratings, projected from the events of reviews.
pub mod Domain
pub mod Memory
pub mod Projector
pub mod Handler
mod Tests
