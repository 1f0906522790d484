-- ===== src/Kafka.antt =====
-- shared/src/kafka
pub mod Config
pub mod Consume
pub mod Wire
pub mod Retry
pub mod Producer
pub mod Publisher
