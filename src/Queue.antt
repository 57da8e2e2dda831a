-- ===== src/Queue.antt =====
-- internal/queue: the producer, the consumer and the dead letter queue over Redis commands.
pub mod Producer
pub mod Consumer
pub mod Groups
pub mod Dlq
