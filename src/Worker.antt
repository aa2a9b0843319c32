-- ===== src/Worker.antt =====
-- app/worker: the consumer of the queues.
pub mod OutboxEvents
pub mod RowSteps
pub mod Attempts
pub mod ResultHandler
pub mod Processor
pub mod Runs
pub mod Progress
pub mod Loop
pub mod Recovery
