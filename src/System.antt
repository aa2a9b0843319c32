-- ===== src/System.antt =====
-- The parts of the service at work on one database and one broker.
pub mod Changes
pub mod Reserving
pub mod Applying
pub mod Growth
pub mod Workers
pub mod Keys
pub mod Requests
pub mod Recipients
pub mod Rabbit
pub mod Marked
pub mod Publishers
pub mod Trail
pub mod Records
pub mod Steps
pub mod Carried
pub mod Publications
pub mod Acks
pub mod Lossless
pub mod Tracking
pub mod Recorded
pub mod Lives
pub mod Single
