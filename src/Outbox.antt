-- ===== src/Outbox.antt =====
-- internal/outbox: events stored with the data they announce, and their publication.
pub mod Model
pub mod Repository
pub mod Service
pub mod Worker
pub mod Counts
pub mod Claims
pub mod Claimed
pub mod Recording
pub mod Failures
pub mod Run
pub mod Stream
pub mod Consumer
