-- ===== src/Services.antt =====
-- app/services: the retry policy, the status transitions and the outbox writer.
pub mod RetryPolicy
pub mod StatusTransitions
pub mod OutboxService
pub mod Idempotency
pub mod IdempotencyCleaner
pub mod BulkRows
pub mod Notifications
