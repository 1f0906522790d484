-- ===== src/Saga.antt =====
-- How the services meet: what one of them publishes, as another of them reads it.
pub mod Completion
pub mod Envelopes
pub mod Payments
pub mod Stock
pub mod Journey
pub mod Orders
pub mod Subscriptions
pub mod Typed
