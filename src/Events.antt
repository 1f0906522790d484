-- ===== src/Events.antt =====
-- shared/src/events
pub mod Types
pub mod Topics
pub mod Catalog
pub mod Envelope
pub mod Validate
pub mod Failure
pub mod Payloads
