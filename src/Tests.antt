-- ===== src/Tests.antt =====
-- Tests: each theorem on a concrete input.
mod Sample
mod Worker
mod Attempts
mod Outbox
mod Requests
mod Process
mod Rounds
mod Reading
mod Cleaner
mod Edges
mod Recovery
mod Broker
mod Service
mod Schema
