-- ===== src/Messaging.antt =====
-- app/messaging: the outbox publisher and the broker.
pub mod Topology
pub mod Publisher
pub mod OutboxPublisher
