-- ===== src/Orders.antt =====
-- services/order-service/src
pub mod Service
pub mod Consumer
