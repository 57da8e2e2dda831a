-- ===== src/Delivery.antt =====
-- internal/delivery: the retry policy and the three providers.
pub mod Retry
pub mod Providers
pub mod Backoff
pub mod Sending
