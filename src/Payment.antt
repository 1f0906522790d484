-- ===== src/Payment.antt =====
-- services/payment-service/src
pub mod Order
pub mod Logs
pub mod Rules
pub mod Simulator
pub mod Idempotency
pub mod Service
pub mod Consumer
