-- ===== src/Pubsub.antt =====
-- internal/pubsub: the topics of the message broker and the claims of sandbox names.
mod Tests
pub mod Topics
pub mod Claims
