-- ===== src/Pubsub.antt =====
-- internal/pubsub: topics with bounded queues.
mod Tests
pub mod Channel
